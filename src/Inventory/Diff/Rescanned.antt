-- ===== src/Inventory/Diff/Rescanned.antt =====
-- internal/inventory/graph.go: `Diff` of an inventory and a later scan of the same records.
use ssc_init.Base.{
  ℕ, Option, none, some, List, [], ◌∷◌, map, ◌≡◌, refl, ap, ◌∙◌, if◌then◌else◌, Text, codes,
  text_eq_refl, Dict, get, put, remove-put, sort_by,
}
use ssc_init.Model.{Asset, ContentEvidence, Inventory, ChangeEntity, asset, evidence, observation}
use ssc_init.Inventory.Diff.{
  Encoders, precedes, without_instant, without_cache, canonical_values_by_id,
  canonical_assets_by_id, canonical_evidence_by_id, canonical_observations_by_id, change_kind,
  changes_of, entity_changes, diff,
}

change_kind_same : (o : Option Text) → change_kind o o ≡ none
unfolding change_kind
change_kind_same none = refl
change_kind_same (some v) = rw (text_eq_refl v) refl

changes_of_same :
    (entity : ChangeEntity) (d : Dict Text) (ids : List Text) → changes_of entity d d ids ≡ []
unfolding changes_of
changes_of_same entity d [] = refl
changes_of_same entity d (id ∷ ids) =
    rw (change_kind_same (get id d)) (changes_of_same entity d ids)

entity_changes_same : (entity : ChangeEntity) (d : Dict Text) → entity_changes entity d d ≡ []
unfolding entity_changes
entity_changes_same entity d = changes_of_same entity d _

-- What changes neither a name nor a spelling changes no map of spellings.
canonical-map :
    {V : Type 0} (name canonicalize : V → Text) (f : V → V)
    → ((v : V) → name (f v) ≡ name v)
    → ((v : V) → canonicalize (f v) ≡ canonicalize v)
    → (d : Dict Text) (values : List V)
    → canonical_values_by_id name canonicalize d (map f values)
      ≡ canonical_values_by_id name canonicalize d values
unfolding canonical_values_by_id
canonical-map name canonicalize f n c d [] = refl
canonical-map name canonicalize f n c d (v ∷ values) =
    canonical-map name canonicalize f n c
      (if precedes (canonicalize (f v)) (get (name (f v)) d)
        then put (name (f v)) (canonicalize (f v)) d
        else d)
      values
    ∙ ap
        (λ (at : Text × Text).
          canonical_values_by_id name canonicalize
            (if precedes at.1 (get at.0 d) then put at.0 at.1 d else d) values)
        (λ i. (n v i, c v i))

-- An asset that is observed at an instant, in the field and in the metadata.
abbrev pub observed : ℕ → Text → Asset → Asset
observed at label a = record a {
  observed_at = at;
  metadata = put (codes "observedAt") label a.metadata;
}

-- Evidence with an outcome of the cache.
abbrev pub cached : Text → ContentEvidence → ContentEvidence
cached outcome e = record e { metadata = put (codes "cache") outcome e.metadata }

without_instant-observed :
    (at : ℕ) (label : Text) (a : Asset) → without_instant (observed at label a) ≡ without_instant a
unfolding without_instant
without_instant-observed at label a = rw (remove-put (codes "observedAt") label a.metadata) refl

without_cache-cached :
    (outcome : Text) (e : ContentEvidence) → without_cache (cached outcome e) ≡ without_cache e
unfolding without_cache
without_cache-cached outcome e = rw (remove-put (codes "cache") outcome e.metadata) refl

-- The same inventory, each asset observed at an instant of its own and each piece of evidence with an
-- outcome of the cache of its own.
abbrev pub rescanned :
    (Asset → ℕ) → (Asset → Text) → (ContentEvidence → Text) → Inventory → Inventory
rescanned at label outcome inventory = record inventory {
  assets = map (λ a. observed (at a) (label a) a) inventory.assets;
  evidence = map (λ e. cached (outcome e) e) inventory.evidence;
}

-- Between an inventory and the same one with other instants of observation, in the field and under
-- `observedAt` in the metadata, and other outcomes of the cache, under `cache` in the metadata of the
-- evidence, there is no change.
pub diff-rescanned :
    (encoders : Encoders) (at : Asset → ℕ) (label : Asset → Text) (outcome : ContentEvidence → Text)
    (inventory : Inventory)
    → diff encoders inventory (rescanned at label outcome inventory) ≡ []
unfolding diff sort_by
diff-rescanned encoders at label outcome inventory = rw assets_same (
    rw evidence_same (
      rw (entity_changes_same asset (canonical_assets_by_id encoders inventory.assets)) (
        rw (entity_changes_same evidence (canonical_evidence_by_id encoders inventory.evidence)) (
          rw
            (entity_changes_same observation
              (canonical_observations_by_id encoders inventory.observations))
            refl))))
  where
    assets_same :
        canonical_assets_by_id encoders (map (λ a. observed (at a) (label a) a) inventory.assets)
        ≡ canonical_assets_by_id encoders inventory.assets
    assets_same =
        unfold canonical_assets_by_id in
        canonical-map (λ a. a.id) (λ a. encoders.encode_asset (without_instant a))
          (λ a. observed (at a) (label a) a) (λ a. refl)
          (λ a. ap encoders.encode_asset (without_instant-observed (at a) (label a) a)) []
          inventory.assets

    evidence_same :
        canonical_evidence_by_id encoders (map (λ e. cached (outcome e) e) inventory.evidence)
        ≡ canonical_evidence_by_id encoders inventory.evidence
    evidence_same =
        unfold canonical_evidence_by_id in
        canonical-map (λ e. e.id) (λ e. encoders.encode_evidence (without_cache e))
          (λ e. cached (outcome e) e) (λ e. refl)
          (λ e. ap encoders.encode_evidence (without_cache-cached (outcome e) e)) []
          inventory.evidence
