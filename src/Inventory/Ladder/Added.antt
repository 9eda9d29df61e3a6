-- ===== src/Inventory/Ladder/Added.antt =====
-- internal/inventory/ladder.go: the first loop of `classify`, over the changes of assets.
use mathlib.Core.List.{append-nil, append_assoc}
use ssc_init.Base.{
  Bool, true, false, ◌&&◌, ◌≡◌, refl, sym, ◌∙◌, inl, inr, Bool-cases, List, [], ◌∷◌, ◌++◌, map, Any,
  arith, if◌then◌else◌, Text, text_eq, text_eq→eq, text_eq_refl, Dict, get_all, add, get_all-add,
  IsUnique, put-IsUnique, Member,
}
use ssc_init.Model.{Asset, Change, ChangeKind, added, removed, changed, asset}
use ssc_init.Inventory.AssetId.{parse_asset_id}
use ssc_init.Inventory.Ladder.{State, start, change_of, is_asset, note_asset, asset_changes}
use ssc_init.Inventory.Row.{AssetChange, identity_key}

-- The identity of an asset ID, which its version does not enter.
abbrev pub identity_of : Text → Text
identity_of id = identity_key (parse_asset_id id)

-- A change that removes an asset.
abbrev pub Removes : Text → Change → Type 0
Removes id c = (c.kind ≡ removed) × (c.entity ≡ asset) × (c.entity_id ≡ id)

abbrev pub is_removed : ChangeKind → Bool
is_removed removed = true
is_removed _ = false

abbrev pub is_added : ChangeKind → Bool
is_added added = true
is_added _ = false

-- The assets of an identity that changes of a kind name, in their order.
abbrev pub ids_of : (ChangeKind → Bool) → Text → List Change → List Text
ids_of kind identity [] = []
ids_of kind identity (c ∷ rest) =
    if is_asset c.entity && kind c.kind && text_eq (identity_of c.entity_id) identity
    then c.entity_id ∷ ids_of kind identity rest
    else ids_of kind identity rest

-- The assets of an identity that changes remove, and those that they add.
abbrev pub removals_of : Text → List Change → List Text
removals_of = ids_of is_removed

abbrev pub additions_of : Text → List Change → List Text
additions_of = ids_of is_added

pub removal-Member :
    (id : Text) (changes : List Change)
    → Any (Removes id) changes
    → Member (change_of id) (map change_of (removals_of (identity_of id) changes))
removal-Member id [] m = elim m [ ]
removal-Member id (c ∷ rest) (inl (k, e, i)) =
    rw e (rw k (rw i (rw (text_eq_refl (identity_of id)) (inl refl))))
removal-Member id (c ∷ rest) (inr m) =
    elim (Bool-cases (
      is_asset c.entity
      && is_removed c.kind
      && text_eq (identity_of c.entity_id) (identity_of id))) [
        | inl t ↦ rw t (inr (removal-Member id rest m))
        | inr f ↦ rw f (removal-Member id rest m)
      ]

add-gathers :
    (key id : Text) (d : Dict (List AssetChange)) (ids : List Text)
    → get_all key (add (identity_of id) (change_of id) d) ++ map change_of ids
      ≡ get_all key d ++ map change_of (if text_eq (identity_of id) key then id ∷ ids else ids)
add-gathers key id d ids =
    rw (get_all-add (identity_of id) key (change_of id) d)
      (elim (Bool-cases (text_eq (identity_of id) key)) [
        | inr f ↦ rw f refl
        | inl t ↦ rw t (
            rw (text_eq→eq (identity_of id) key t)
              (append_assoc (get_all key d) (change_of id ∷ []) (map change_of ids)))
      ])

module _ (assets : Dict Asset) where
  -- The state behind one change.
  abbrev after : State → Change → State
  after s c = if is_asset c.entity then note_asset assets s c.kind c.entity_id else s

  after-removed :
      (key : Text) (s : State) (c : Change) (rest : List Change)
      → get_all key (after s c).removed ++ map change_of (removals_of key rest)
        ≡ get_all key s.removed ++ map change_of (removals_of key (c ∷ rest))
  unfolding note_asset
  after-removed key s c rest = by_case (is_asset c.entity) c.kind
    where
      by_case :
          (b : Bool) (k : ChangeKind)
          → get_all key (if b then note_asset assets s k c.entity_id else s).removed
              ++ map change_of (removals_of key rest)
            ≡ get_all key s.removed
              ++ map change_of (
                  if b && is_removed k && text_eq (identity_of c.entity_id) key
                  then c.entity_id ∷ removals_of key rest
                  else removals_of key rest)
      by_case false k = refl
      by_case true removed = add-gathers key c.entity_id s.removed (removals_of key rest)
      by_case true added = refl
      by_case true changed = refl

  after-added :
      (key : Text) (s : State) (c : Change) (rest : List Change)
      → get_all key (after s c).added ++ map change_of (additions_of key rest)
        ≡ get_all key s.added ++ map change_of (additions_of key (c ∷ rest))
  unfolding note_asset
  after-added key s c rest = by_case (is_asset c.entity) c.kind
    where
      by_case :
          (b : Bool) (k : ChangeKind)
          → get_all key (if b then note_asset assets s k c.entity_id else s).added
              ++ map change_of (additions_of key rest)
            ≡ get_all key s.added
              ++ map change_of (
                  if b && is_added k && text_eq (identity_of c.entity_id) key
                  then c.entity_id ∷ additions_of key rest
                  else additions_of key rest)
      by_case false k = refl
      by_case true added = add-gathers key c.entity_id s.added (additions_of key rest)
      by_case true removed = refl
      by_case true changed = refl

  asset_changes-removed :
      (key : Text) (s : State) (changes : List Change)
      → get_all key (asset_changes assets s changes).removed
        ≡ get_all key s.removed ++ map change_of (removals_of key changes)
  unfolding asset_changes
  asset_changes-removed key s [] = sym (append-nil (get_all key s.removed))
  asset_changes-removed key s (c ∷ rest) =
      asset_changes-removed key (after s c) rest ∙ after-removed key s c rest

  asset_changes-added :
      (key : Text) (s : State) (changes : List Change)
      → get_all key (asset_changes assets s changes).added
        ≡ get_all key s.added ++ map change_of (additions_of key changes)
  unfolding asset_changes
  asset_changes-added key s [] = sym (append-nil (get_all key s.added))
  asset_changes-added key s (c ∷ rest) =
      asset_changes-added key (after s c) rest ∙ after-added key s c rest

  -- The loop holds, under an identity, the removals and the additions of the delta.
  pub collected :
      (key : Text) (changes : List Change)
      → (get_all key (asset_changes assets start changes).removed
          ≡ map change_of (removals_of key changes))
        × (get_all key (asset_changes assets start changes).added
            ≡ map change_of (additions_of key changes))
  unfolding ssc_init.Base.get
  collected key changes =
      (asset_changes-removed key start changes, asset_changes-added key start changes)

  note_asset-IsUnique :
      (s : State) (k : ChangeKind) (id : Text)
      → IsUnique s.added
      → IsUnique (note_asset assets s k id).added
  unfolding note_asset add
  note_asset-IsUnique s added id u = put-IsUnique _ _ s.added u
  note_asset-IsUnique s removed id u = u
  note_asset-IsUnique s changed id u = u

  pub asset_changes-IsUnique :
      (s : State) (changes : List Change)
      → IsUnique s.added
      → IsUnique (asset_changes assets s changes).added
  unfolding asset_changes
  asset_changes-IsUnique s [] u = u
  asset_changes-IsUnique s (c ∷ rest) u =
      asset_changes-IsUnique (after s c) rest (either (is_asset c.entity))
    where
      either : (b : Bool) → IsUnique (if b then note_asset assets s c.kind c.entity_id else s).added
      either true = note_asset-IsUnique s c.kind c.entity_id u
      either false = u
