-- ===== src/Inventory/Diff/Reported.antt =====
-- internal/inventory/graph.go and ladder.go: what `Diff` reports of an asset that is gone, and the row of it.
use ssc_init.Base.{
  false, none, some, List, [], ◌∷◌, ◌++◌, ◌≡◌, refl, inl, inr, Any, All, Any-left, Any-right,
  if◌then◌else◌, Text, text_eq, text_eq_iff, text_eq→eq, Dict, get, put, get-put, keys, sort_by-Any,
  Bool-cases, Option-cases, arith,
}
use ssc_init.Model.{
  Asset, Inventory, ChangeKind, removed, ChangeEntity, asset, evidence, observation,
}
use ssc_init.Inventory.Ladder.{classify}
use ssc_init.Inventory.Ladder.Removals.{IsReported, classify_reports_removals}
use ssc_init.Inventory.Ladder.Added.{Removes}
use ssc_init.Inventory.Diff.{
  Encoders, without_instant, precedes, canonical_values_by_id, canonical_assets_by_id,
  canonical_evidence_by_id, canonical_observations_by_id, change_kind, as_change, new_keys,
  changes_of, entity_changes, compare_changes, diff,
}

get-keys : (id : Text) (d : Dict Text) (v : Text) → get id d ≡ some v → Any (λ k. k ≡ id) (keys d)
unfolding get
get-keys id [] v h = cc
get-keys id ((k, w) ∷ d) v h = elim (Bool-cases (text_eq k id)) [
  | inl t ↦ inl (text_eq→eq k id t)
  | inr f ↦ inr (get-keys id d v (ground arith))
]

module _ {V : Type 0} (name : V → Text) (canonicalize : V → Text) where
  -- What is held stays held.
  canonical_held :
      (id : Text) (d : Dict Text) (values : List V) (v : Text)
      → get id d ≡ some v
      → (w : Text) × (get id (canonical_values_by_id name canonicalize d values) ≡ some w)
  unfolding canonical_values_by_id
  canonical_held id d [] v h = (v, h)
  canonical_held id d (x ∷ values) v h =
      elim (Bool-cases (precedes (canonicalize x) (get (name x) d))) [
        | inl t ↦ rw t (elim (Bool-cases (text_eq (name x) id)) [
          | inl e ↦
              canonical_held id (put (name x) (canonicalize x) d) values (canonicalize x)
                (ground (arith, get-put (name x) id (canonicalize x) d))
          | inr n ↦
              canonical_held id (put (name x) (canonicalize x) d) values v
                (ground (arith, get-put (name x) id (canonicalize x) d))
        ])
        | inr f ↦ rw f (canonical_held id d values v h)
      ]

  -- Every value has an entry under its name.
  canonical_present :
      (id : Text) (d : Dict Text) (values : List V)
      → Any (λ x. name x ≡ id) values
      → (w : Text) × (get id (canonical_values_by_id name canonicalize d values) ≡ some w)
  unfolding canonical_values_by_id
  canonical_present id d [] m = elim m [ ]
  canonical_present id d (x ∷ values) (inr m) =
      canonical_present id
        (if precedes (canonicalize x) (get (name x) d) then put (name x) (canonicalize x) d else d)
        values m
  canonical_present id d (x ∷ values) (inl e) = elim (Option-cases (get (name x) d)) [
    | inl n ↦ rw n (
        unfold precedes in
        canonical_held id (put (name x) (canonicalize x) d) values (canonicalize x)
          (ground (arith, get-put (name x) id (canonicalize x) d, text_eq_iff (name x) id)))
    | inr (v, o) ↦ elim (Bool-cases (precedes (canonicalize x) (get (name x) d))) [
      | inl t ↦ rw t (
          canonical_held id (put (name x) (canonicalize x) d) values (canonicalize x)
            (ground (arith, get-put (name x) id (canonicalize x) d, text_eq_iff (name x) id)))
      | inr f ↦ rw f (canonical_held id d values v (rw (← e) o))
    ]
  ]

  -- A name that no value has, has no entry.
  canonical_absent :
      (id : Text) (d : Dict Text) (values : List V)
      → All (λ x. text_eq (name x) id ≡ false) values
      → get id d ≡ none
      → get id (canonical_values_by_id name canonicalize d values) ≡ none
  unfolding canonical_values_by_id
  canonical_absent id d [] a h = h
  canonical_absent id d (x ∷ values) (n, a) h =
      canonical_absent id
        (if precedes (canonicalize x) (get (name x) d) then put (name x) (canonicalize x) d else d)
        values a (ground (arith, get-put (name x) id (canonicalize x) d))

-- What differs is among the changes of an entity.
changes_of-Any :
    (entity : ChangeEntity) (previous current : Dict Text) (kind : ChangeKind) (id : Text)
    (ids : List Text)
    → change_kind (get id previous) (get id current) ≡ some kind
    → Any (λ k. k ≡ id) ids
    → Any
        (λ c. (c.kind ≡ kind) × (c.entity ≡ entity) × (c.entity_id ≡ id))
        (changes_of entity previous current ids)
unfolding changes_of
changes_of-Any entity previous current kind id [] h m = elim m [ ]
changes_of-Any entity previous current kind id (k ∷ ids) h (inl e) =
    rw e (rw h (inl (refl, refl, refl)))
changes_of-Any entity previous current kind id (k ∷ ids) h (inr m) =
    Any-right _ (as_change entity k (change_kind (get k previous) (get k current)))
      (changes_of entity previous current ids)
      (changes_of-Any entity previous current kind id ids h m)

-- No asset of the list has the ID.
abbrev pub IsGone : Text → List Asset → Type 0
IsGone id assets = All (λ a. text_eq a.id id ≡ false) assets

entity_changes-Any :
    (entity : ChangeEntity) (previous current : Dict Text) (id v : Text)
    → get id previous ≡ some v
    → get id current ≡ none
    → Any
        (λ c. (c.kind ≡ removed) × (c.entity ≡ entity) × (c.entity_id ≡ id))
        (entity_changes entity previous current)
unfolding entity_changes change_kind
entity_changes-Any entity previous current id v was gone =
    changes_of-Any entity previous current removed id
      (keys previous ++ new_keys previous (keys current)) (rw was (rw gone refl))
      (Any-left (λ k. k ≡ id) (keys previous) (new_keys previous (keys current))
        (get-keys id previous v was))

diff-Removes :
    (encoders : Encoders) (previous current : Inventory) (id : Text)
    → Any (λ a. a.id ≡ id) previous.assets
    → IsGone id current.assets
    → Any (Removes id) (diff encoders previous current)
unfolding diff canonical_assets_by_id
diff-Removes encoders previous current id was gone =
    let present =
      canonical_present (λ a. a.id) (λ a. encoders.encode_asset (without_instant a)) id []
        previous.assets was in
    let absent =
      canonical_absent (λ a. a.id) (λ a. encoders.encode_asset (without_instant a)) id []
        current.assets gone (unfold get in refl) in
    let assets =
      entity_changes asset (canonical_assets_by_id encoders previous.assets)
        (canonical_assets_by_id encoders current.assets) in
    let items =
      entity_changes evidence (canonical_evidence_by_id encoders previous.evidence)
        (canonical_evidence_by_id encoders current.evidence) in
    let sights =
      entity_changes observation (canonical_observations_by_id encoders previous.observations)
        (canonical_observations_by_id encoders current.observations) in
    sort_by-Any compare_changes (Removes id) (assets ++ items ++ sights) (
      Any-left (Removes id) (assets ++ items) sights (
        Any-left (Removes id) assets items (
          entity_changes-Any asset (canonical_assets_by_id encoders previous.assets)
            (canonical_assets_by_id encoders current.assets) id present.0 present.1 absent)))

-- An asset of the inventory before, of which the inventory now has none with the same ID, has a row
-- REMOVED with its ID and version in the report of their difference, unless it makes a transition: of
-- the assets that differ from it in the version only, the difference removes no other and adds exactly
-- one, both IDs have a version, and the added asset has a row, UPGRADED with both versions, CHANGED or
-- UNVERIFIED.
pub classify-diff :
    (encoders : Encoders) (inventory previous current : Inventory) (id : Text)
    → Any (λ a. a.id ≡ id) previous.assets
    → IsGone id current.assets
    → IsReported id
        (diff encoders previous current)
        (classify inventory (diff encoders previous current))
classify-diff encoders inventory previous current id was gone =
    classify_reports_removals inventory (diff encoders previous current) id
      (diff-Removes encoders previous current id was gone)
