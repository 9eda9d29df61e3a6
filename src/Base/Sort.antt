-- ===== src/Base/Sort.antt =====
-- `sort.Slice` as an insertion sort by a three-way comparison, and membership.
use mathlib.Core.Path.{◌≡◌}
use mathlib.Core.Logic.{◌⊎◌, inl, inr, ◌≢◌}
use native.Mathlib.Omega.{arith}
use mathlib.Core.Bool.{Bool, true, false}
use mathlib.Core.List.{List, [], ◌∷◌, ◌++◌}
use Prim.Native.Nat.{Ordering, lt}
use ssc_init.Base.Tests.{if◌then◌else◌, Bool-cases}
use ssc_init.Base.Compare.{IsLawful}
use ssc_init.Base.Lists.{All, Any}

abbrev pub is_lt : Ordering → Bool
is_lt lt = true
is_lt _ = false

module _ {A : Type 0} where
  abbrev pub Member : A → List A → Type 0
  Member a xs = Any (λ x. a ≡ x) xs

  pub All-Member : (P : A → Type 0) (a : A) (xs : List A) → All P xs → Member a xs → P a
  All-Member P a [] h m = elim m [ ]
  All-Member P a (x ∷ xs) h (inl e) = rw e h.0
  All-Member P a (x ∷ xs) h (inr m) = All-Member P a xs h.1 m

  -- What implies something of each item implies it of all.
  pub All-map : (P Q : A → Type 0) (xs : List A) → ((a : A) → P a → Q a) → All P xs → All Q xs
  All-map P Q [] f h = tt
  All-map P Q (x ∷ xs) f h = (f x h.0, All-map P Q xs f h.1)

  pub Member-left : (a : A) (xs ys : List A) → Member a xs → Member a (xs ++ ys)
  Member-left a [] ys m = elim m [ ]
  Member-left a (x ∷ xs) ys (inl e) = inl e
  Member-left a (x ∷ xs) ys (inr m) = inr (Member-left a xs ys m)

  pub Member-right : (a : A) (xs ys : List A) → Member a ys → Member a (xs ++ ys)
  Member-right a [] ys m = m
  Member-right a (x ∷ xs) ys m = inr (Member-right a xs ys m)

  pub Member-append : (a : A) (xs ys : List A) → Member a (xs ++ ys) → Member a xs ⊎ Member a ys
  Member-append a [] ys m = inr m
  Member-append a (x ∷ xs) ys (inl e) = inl (inl e)
  Member-append a (x ∷ xs) ys (inr m) = elim (Member-append a xs ys m) [
    | inl p ↦ inl (inr p)
    | inr q ↦ inr q
  ]

module _ {A : Type 0} (cmp : A → A → Ordering) where
  unfoldable pub insert_by : A → List A → List A
  insert_by a [] = a ∷ []
  insert_by a (x ∷ xs) =
      let rest = x ∷ insert_by a xs in if is_lt (cmp x a) then rest else a ∷ x ∷ xs

  unfoldable pub sort_by : List A → List A
  sort_by [] = []
  sort_by (x ∷ xs) = insert_by x (sort_by xs)

  pub insert_by-All :
      (P : A → Type 0) (a : A) (xs : List A) → P a → All P xs → All P (insert_by a xs)
  unfolding insert_by
  insert_by-All P a [] p h = (p, tt)
  insert_by-All P a (x ∷ xs) p h = elim (Bool-cases (is_lt (cmp x a))) [
    | inl t ↦ rw t (h.0, insert_by-All P a xs p h.1)
    | inr f ↦ rw f (p, h)
  ]

  -- What holds of every item holds of every item of the sorted list.
  pub sort_by-All : (P : A → Type 0) (xs : List A) → All P xs → All P (sort_by xs)
  unfolding sort_by
  sort_by-All P [] h = tt
  sort_by-All P (x ∷ xs) h = insert_by-All P x (sort_by xs) h.0 (sort_by-All P xs h.1)

  insert_by-here : (P : A → Type 0) (a : A) (xs : List A) → P a → Any P (insert_by a xs)
  unfolding insert_by
  insert_by-here P a [] p = inl p
  insert_by-here P a (x ∷ xs) p = elim (Bool-cases (is_lt (cmp x a))) [
    | inl t ↦ rw t (inr (insert_by-here P a xs p))
    | inr f ↦ rw f (inl p)
  ]

  insert_by-there : (P : A → Type 0) (a : A) (xs : List A) → Any P xs → Any P (insert_by a xs)
  unfolding insert_by
  insert_by-there P a [] m = elim m [ ]
  insert_by-there P a (x ∷ xs) (inl p) = elim (Bool-cases (is_lt (cmp x a))) [
    | inl t ↦ rw t (inl p)
    | inr f ↦ rw f (inr (inl p))
  ]
  insert_by-there P a (x ∷ xs) (inr m) = elim (Bool-cases (is_lt (cmp x a))) [
    | inl t ↦ rw t (inr (insert_by-there P a xs m))
    | inr f ↦ rw f (inr (inr m))
  ]

  -- No item is lost.
  pub sort_by-Any : (P : A → Type 0) (xs : List A) → Any P xs → Any P (sort_by xs)
  unfolding sort_by
  sort_by-Any P [] m = elim m [ ]
  sort_by-Any P (x ∷ xs) (inl p) = insert_by-here P x (sort_by xs) p
  sort_by-Any P (x ∷ xs) (inr m) = insert_by-there P x (sort_by xs) (sort_by-Any P xs m)

-- Every two items are related.
abbrev pub Pairs : {A : Type 0} → (A → A → Type 0) → List A → Type 0
Pairs R [] = Unit
Pairs R (x ∷ xs) = All (λ y. R x y) xs × Pairs R xs

-- A relation that implies another one between all items.
pub Pairs-map :
    {A : Type 0} (R S : A → A → Type 0) (xs : List A)
    → ((a b : A) → R a b → S a b)
    → Pairs R xs
    → Pairs S xs
Pairs-map R S [] f h = tt
Pairs-map R S (x ∷ xs) f h =
    (All-map (λ y. R x y) (λ y. S x y) xs (f x) h.0, Pairs-map R S xs f h.1)

module _ {A : Type 0} (cmp : A → A → Ordering) (R : A → A → Type 0)
    (sym : (a b : A) → R a b → R b a) where
  insert_by-Pairs :
      (a : A) (xs : List A) → All (λ y. R a y) xs → Pairs R xs → Pairs R (insert_by cmp a xs)
  unfolding insert_by
  insert_by-Pairs a [] r h = (tt, tt)
  insert_by-Pairs a (x ∷ xs) r h = elim (Bool-cases (is_lt (cmp x a))) [
    | inr f ↦ rw f (r, h)
    | inl t ↦
        rw t (insert_by-All cmp (λ y. R x y) a xs (sym a x r.0) h.0, insert_by-Pairs a xs r.1 h.1)
  ]

  -- A symmetric relation between all items outlives sorting.
  pub sort_by-Pairs : (xs : List A) → Pairs R xs → Pairs R (sort_by cmp xs)
  unfolding sort_by
  sort_by-Pairs [] h = tt
  sort_by-Pairs (x ∷ xs) h =
      insert_by-Pairs x (sort_by cmp xs) (sort_by-All cmp (λ y. R x y) xs h.0)
        (sort_by-Pairs xs h.1)

-- No item stands behind one that it is less than.
abbrev pub IsSortedBy : {A : Type 0} → (A → A → Ordering) → List A → Type 0
IsSortedBy cmp = Pairs (λ a b. cmp b a ≢ lt)

module _ {A : Type 0} (cmp : A → A → Ordering) (law : IsLawful cmp) where
  -- Not less than something that is not less.
  ne_lt_trans : (a b c : A) → cmp b a ≢ lt → cmp c b ≢ lt → cmp c a ≢ lt
  ne_lt_trans a b c p q = λ r. ground (
    arith,
    law.trans c a b r,
    law.same a b c,
    law.same b a c,
    law.flip a b,
    law.flip b c,
    law.flip a c,
  )

  insert_by-IsSortedBy :
      (a : A) (xs : List A) → IsSortedBy cmp xs → IsSortedBy cmp (insert_by cmp a xs)
  unfolding insert_by
  insert_by-IsSortedBy a [] h = (tt, tt)
  insert_by-IsSortedBy a (x ∷ xs) h = elim (Bool-cases (is_lt (cmp x a))) [
    | inl t ↦ rw t (
      insert_by-All cmp (λ y. cmp y x ≢ lt) a xs (λ e. ground (arith, law.flip x a)) h.0,
      insert_by-IsSortedBy a xs h.1,
    )
    | inr f ↦
        let less : cmp x a ≢ lt = λ e. ground arith in
        rw f (
          (
            less,
            All-map (λ y. cmp y x ≢ lt) (λ y. cmp y a ≢ lt) xs (λ y q. ne_lt_trans a x y less q)
                h.0,
          ),
          h,
        )
  ]

  -- The sorted list is in order.
  pub sort_by-IsSortedBy : (xs : List A) → IsSortedBy cmp (sort_by cmp xs)
  unfolding sort_by
  sort_by-IsSortedBy [] = tt
  sort_by-IsSortedBy (x ∷ xs) = insert_by-IsSortedBy x (sort_by cmp xs) (sort_by-IsSortedBy xs)
