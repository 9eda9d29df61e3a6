-- ===== src/Inventory/Ladder/Order.antt =====
-- internal/inventory/ladder.go: the order of the rows of a delta.
use ssc_init.Base.{
  ℕ, ◌<◌, ◌≡◌, ◌≢◌, ◌⊎◌, refl, inl, inr, Ordering, lt, eq, gt, arith, [], ◌∷◌, Text, ◌then◌,
  compare_uint, compare_text, compare_text-eq, sort_by, Pairs, Pairs-map, List,
  compare_uint-IsLawful, compare_text-IsLawful, IsLawful, then-IsLawful, on-IsLawful,
  sort_by-IsSortedBy,
}
use ssc_init.Model.{Inventory, Change}
use ssc_init.Inventory.Ladder.{compare_rows, collect, classify}
use ssc_init.Inventory.Row.{Rung, new, changed_bytes, unverified, upgraded, gone, Row, ordinal}

compare_rows-IsLawful : IsLawful compare_rows
unfolding compare_rows
compare_rows-IsLawful =
    then-IsLawful _ _ (on-IsLawful (λ (r : Row). ordinal r.rung) compare_uint-IsLawful) (
      then-IsLawful _ _ (on-IsLawful (λ (r : Row). r.kind) compare_text-IsLawful) (
        then-IsLawful _ _ (on-IsLawful (λ (r : Row). r.name) compare_text-IsLawful) (
          then-IsLawful _ _ (on-IsLawful (λ (r : Row). r.host) compare_text-IsLawful)
            (on-IsLawful (λ (r : Row). r.key) compare_text-IsLawful))))

-- The documented order of the rungs: NEW, CHANGED, UNVERIFIED, UPGRADED, REMOVED.
abbrev pub severity : Rung → ℕ
severity new = 0
severity changed_bytes = 1
severity unverified = 2
severity upgraded = 3
severity gone = 4

-- The columns on the left are in lexicographic order before those on the right, or equal to them.
abbrev pub IsAlphabetical : List (Text × Text) → Type 0
IsAlphabetical [] = Unit
IsAlphabetical ((a, b) ∷ columns) = (compare_text a b ≡ lt) ⊎ ((a ≡ b) × IsAlphabetical columns)

-- A row may stand before another.
abbrev pub IsBefore : Row → Row → Type 0
IsBefore l r =
    (severity l.rung < severity r.rung)
    ⊎ ((l.rung ≡ r.rung)
        × IsAlphabetical
            ((l.kind, r.kind) ∷ (l.name, r.name) ∷ (l.host, r.host) ∷ (l.key, r.key) ∷ []))

then-cases : (o p : Ordering) → (o then p) ≢ gt → (o ≡ lt) ⊎ ((o ≡ eq) × (p ≢ gt))
then-cases lt p h = inl refl
then-cases eq p h = inr (refl, h)
then-cases gt p h = absurd (h refl)

rank-cases :
    (a b : Rung)
    → ((compare_uint (ordinal a) (ordinal b) ≡ lt) → severity a < severity b)
      × ((compare_uint (ordinal a) (ordinal b) ≡ eq) → a ≡ b)
unfolding compare_uint ordinal
rank-cases a b = (λ h. ground arith, λ h. ground arith)

column :
    (a b : Text) (rest : Ordering) (columns : List (Text × Text))
    → (rest ≢ gt → IsAlphabetical columns)
    → (compare_text a b then rest) ≢ gt
    → IsAlphabetical ((a, b) ∷ columns)
column a b rest columns later h = elim (then-cases (compare_text a b) rest h) [
  | inl below ↦ inl below
  | inr (same, n) ↦ inr (compare_text-eq a b same, later n)
]

last_column : (a b : Text) → compare_text a b ≢ gt → IsAlphabetical ((a, b) ∷ [])
last_column a b h = by_order (compare_text a b) refl h
  where
    by_order : (o : Ordering) → compare_text a b ≡ o → o ≢ gt → IsAlphabetical ((a, b) ∷ [])
    by_order lt e n = inl e
    by_order eq e n = inr (compare_text-eq a b e, tt)
    by_order gt e n = absurd (n refl)

compare_rows-ne-gt : (l r : Row) → compare_rows r l ≢ lt → compare_rows l r ≢ gt
compare_rows-ne-gt l r h = λ e. ground (arith, compare_rows-IsLawful.flip l r)

compare_rows-IsBefore : (l r : Row) → compare_rows r l ≢ lt → IsBefore l r
unfolding compare_rows
compare_rows-IsBefore l r h =
    elim (then-cases (compare_uint (ordinal l.rung) (ordinal r.rung)) _
      (compare_rows-ne-gt l r h)) [
        | inl below ↦ inl ((rank-cases l.rung r.rung).0 below)
        | inr (same, n) ↦ inr (
          (rank-cases l.rung r.rung).1 same,
          column l.kind r.kind _ ((l.name, r.name) ∷ (l.host, r.host) ∷ (l.key, r.key) ∷ [])
              (column l.name r.name _ ((l.host, r.host) ∷ (l.key, r.key) ∷ [])
                (column l.host r.host _ ((l.key, r.key) ∷ []) (last_column l.key r.key)))
              n,
        )
      ]

-- Of two rows of the report, the one above has the lower rung, in the order NEW, CHANGED, UNVERIFIED,
-- UPGRADED, REMOVED, or the same rung and then type, name, host and ID in lexicographic order.
pub classify-IsSortedBy :
    (inventory : Inventory) (changes : List Change) → Pairs IsBefore (classify inventory changes)
unfolding classify
classify-IsSortedBy inventory changes =
    Pairs-map (λ a b. compare_rows b a ≢ lt) IsBefore
      (sort_by compare_rows (collect inventory changes)) compare_rows-IsBefore
      (sort_by-IsSortedBy compare_rows compare_rows-IsLawful (collect inventory changes))
