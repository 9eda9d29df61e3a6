-- ===== src/Inventory/Diff.antt =====
-- internal/inventory/graph.go: `Diff`, which compares two inventories.
pub mod Reported
pub mod Rescanned
use ssc_init.Base.{
  ℕ, Bool, true, false, Option, none, some, List, [], ◌∷◌, ◌++◌, Ordering, lt, eq, gt,
  if◌then◌else◌, Text, codes, text_eq, compare_text, Dict, get, put, remove, keys, sort_by,
}
use ssc_init.Model.{
  Asset, Observation, ContentEvidence, Inventory, Change, ChangeKind, added, removed, changed,
  ChangeEntity, asset, evidence, observation,
}

-- `json.Marshal` of the three kinds of records.
pub record Encoders : Type 0 where
  pub encode_asset : Asset → Text
  pub encode_observation : Observation → Text
  pub encode_evidence : ContentEvidence → Text

-- The asset without the instant at which it was observed, which is not compared.
unfoldable pub without_instant : Asset → Asset
without_instant a = record a { observed_at = 0; metadata = remove (codes "observedAt") a.metadata }

-- The evidence without the outcome of the cache.
unfoldable pub without_cache : ContentEvidence → ContentEvidence
without_cache e = record e { metadata = remove (codes "cache") e.metadata }

-- Whether a new spelling takes the place of the one that is held.
unfoldable pub precedes : Text → Option Text → Bool
precedes canonical none = true
precedes canonical (some existing) = elim (compare_text canonical existing) [
  | lt ↦ true
  | eq ↦ false
  | gt ↦ false
]

-- `canonicalValuesByID`
unfoldable pub canonical_values_by_id :
    {V : Type 0} → (V → Text) → (V → Text) → Dict Text → List V → Dict Text
canonical_values_by_id id canonicalize d [] = d
canonical_values_by_id id canonicalize d (v ∷ values) =
    canonical_values_by_id id canonicalize
      (if precedes (canonicalize v) (get (id v) d) then put (id v) (canonicalize v) d else d) values

module _ (encoders : Encoders) where
  unfoldable pub canonical_assets_by_id : List Asset → Dict Text
  canonical_assets_by_id assets =
      canonical_values_by_id (λ a. a.id) (λ a. encoders.encode_asset (without_instant a)) [] assets

  unfoldable pub canonical_evidence_by_id : List ContentEvidence → Dict Text
  canonical_evidence_by_id items =
      canonical_values_by_id (λ e. e.id) (λ e. encoders.encode_evidence (without_cache e)) [] items

  unfoldable pub canonical_observations_by_id : List Observation → Dict Text
  canonical_observations_by_id items =
      canonical_values_by_id (λ o. o.id) (λ o. encoders.encode_observation o) [] items

unfoldable pub change_kind : Option Text → Option Text → Option ChangeKind
change_kind none none = none
change_kind none (some after) = some added
change_kind (some before) none = some removed
change_kind (some before) (some after) = if text_eq before after then none else some changed

abbrev pub as_change : ChangeEntity → Text → Option ChangeKind → List Change
as_change entity id none = []
as_change entity id (some kind) = record { kind = kind; entity = entity; entity_id = id } ∷ []

-- The keys that the other map does not hold.
unfoldable pub new_keys : Dict Text → List Text → List Text
new_keys d [] = []
new_keys d (key ∷ rest) =
    let later = new_keys d rest in elim (get key d) [ none ↦ key ∷ later | some _ ↦ later ]

unfoldable pub changes_of : ChangeEntity → Dict Text → Dict Text → List Text → List Change
changes_of entity previous current [] = []
changes_of entity previous current (id ∷ ids) =
    as_change entity id (change_kind (get id previous) (get id current))
    ++ changes_of entity previous current ids

-- `appendEntityChanges`
unfoldable pub entity_changes : ChangeEntity → Dict Text → Dict Text → List Change
entity_changes entity previous current =
    changes_of entity previous current (keys previous ++ new_keys previous (keys current))

-- The names that changes are sorted by.
unfoldable pub entity_name : ChangeEntity → Text
entity_name asset = codes "asset"
entity_name evidence = codes "evidence"
entity_name observation = codes "observation"

unfoldable pub kind_name : ChangeKind → Text
kind_name added = codes "added"
kind_name removed = codes "removed"
kind_name changed = codes "changed"

abbrev pub or_else : Ordering → Ordering → Ordering
or_else eq later = later
or_else lt later = lt
or_else gt later = gt

unfoldable pub compare_changes : Change → Change → Ordering
compare_changes a b = or_else (compare_text (entity_name a.entity) (entity_name b.entity)) (
    or_else (compare_text a.entity_id b.entity_id)
      (compare_text (kind_name a.kind) (kind_name b.kind)))

-- `Diff`
unfoldable pub diff : Encoders → Inventory → Inventory → List Change
diff encoders previous current = sort_by compare_changes (
    entity_changes asset (canonical_assets_by_id encoders previous.assets)
      (canonical_assets_by_id encoders current.assets)
    ++ entity_changes evidence (canonical_evidence_by_id encoders previous.evidence)
        (canonical_evidence_by_id encoders current.evidence)
    ++ entity_changes observation (canonical_observations_by_id encoders previous.observations)
        (canonical_observations_by_id encoders current.observations))
