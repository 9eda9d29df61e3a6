-- ===== src/Inventory/Ladder/Shown.antt =====
-- internal/inventory/ladder.go: the map `best` and the closure `note` of `classify`, and groups of
-- changes.
use ssc_init.Base.{
  ◌≡◌, refl, inl, inr, false, Bool-cases, Option-cases, some, List, [], ◌∷◌, ◌++◌, ◌⊎◌,
  if◌then◌else◌, arith, All, Text, text_eq, text_eq_refl, Dict, get, get-put, get_all, add, put-All,
  get-All,
}
use ssc_init.Inventory.Ladder.{change_of, wins, note}
use ssc_init.Inventory.Row.{changed_bytes, unverified, Row, AssetChange}
use ssc_init.Inventory.Ladder.Added.{identity_of}

-- The changes of an entry have its identity.
abbrev pub IsGrouped : Text × List AssetChange → Type 0
IsGrouped entry = All (λ (c : AssetChange). identity_of c.id ≡ entry.0) entry.1

All-snoc :
    (P : AssetChange → Type 0) (xs : List AssetChange) (x : AssetChange)
    → All P xs
    → P x
    → All P (xs ++ x ∷ [])
All-snoc P [] x h p = (p, tt)
All-snoc P (y ∷ ys) x h p = (h.0, All-snoc P ys x h.1 p)

pub get_all-IsGrouped :
    (key : Text) (d : Dict (List AssetChange)) → All IsGrouped d → IsGrouped (key, get_all key d)
get_all-IsGrouped key d h = elim (Option-cases (get key d)) [
  | inl e ↦ rw e tt
  | inr (cs, e) ↦ rw e (get-All IsGrouped key cs d h e)
]

pub add-IsGrouped :
    (id : Text) (d : Dict (List AssetChange))
    → All IsGrouped d
    → All IsGrouped (add (identity_of id) (change_of id) d)
unfolding add
add-IsGrouped id d h =
    put-All IsGrouped (identity_of id) _ d
      (All-snoc (λ (c : AssetChange). identity_of c.id ≡ identity_of id)
        (get_all (identity_of id) d) (change_of id) (get_all-IsGrouped (identity_of id) d h) refl)
      h

-- A row that a change of the bytes of an asset gives, under the asset's ID.
abbrev pub IsObserved : Text × Row → Type 0
IsObserved entry =
    (entry.1.key ≡ entry.0) × ((entry.1.rung ≡ changed_bytes) ⊎ (entry.1.rung ≡ unverified))

pub note-IsObserved :
    (row : Row) (best : Dict Row)
    → IsObserved (row.key, row)
    → All IsObserved best
    → All IsObserved (note row.key row best)
unfolding note
note-IsObserved row best o h = elim (Bool-cases (wins row (get row.key best))) [
  | inl t ↦ rw t (put-All IsObserved row.key row best o h)
  | inr f ↦ rw f h
]

-- Another key is left alone.
pub note-frame :
    (key other : Text) (row : Row) (best : Dict Row)
    → text_eq key other ≡ false
    → get other (note key row best) ≡ get other best
unfolding note
note-frame key other row best f = elim (Bool-cases (wins row (get key best))) [
  | inl t ↦ rw t (ground (arith, get-put key other row best))
  | inr n ↦ rw n refl
]

-- The row that is held is the one that is noted, or the one that was held.
pub note_self :
    (key : Text) (row : Row) (best : Dict Row)
    → get key (note key row best) ≡ (if wins row (get key best) then some row else get key best)
unfolding note
note_self key row best = elim (Bool-cases (wins row (get key best))) [
  | inl t ↦ rw t (ground (arith, get-put key key row best, text_eq_refl key))
  | inr n ↦ rw n refl
]
