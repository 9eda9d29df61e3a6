-- ===== src/Base/Sets.antt =====
-- Sets of strings, and the sorted lists that the program makes of them.
use mathlib.Core.Path.{◌≡◌, refl, sym}
use mathlib.Core.Logic.{inl, inr, ◌≢◌}
use mathlib.Core.Bool.{true, false}
use mathlib.Core.List.{List, [], ◌∷◌}
use Prim.Native.Nat.{lt, eq}
use native.Mathlib.Omega.{arith}
use ssc_init.Base.Tests.{if◌then◌else◌, Bool-cases}
use ssc_init.Base.Lists.{All, any, is_empty}
use ssc_init.Base.Sort.{
  Member, All-map, is_lt, insert_by, sort_by, insert_by-All, sort_by-All, sort_by-Any,
}
use ssc_init.Base.Strings.{
  Text, text_eq, text_eq→eq, text_eq_iff, compare_text, compare_text-IsLawful, compare_text-eq,
}

-- Every item is below those that follow it.
abbrev pub IsAscending : List Text → Type 0
IsAscending [] = Unit
IsAscending (x ∷ xs) = All (λ y. compare_text x y ≡ lt) xs × IsAscending xs

-- The strings of a `map[string]struct{}` in the order of their first writes.
unfoldable pub add_unique : Text → List Text → List Text
add_unique value set = if any (λ x. text_eq x value) set then set else value ∷ set

unfoldable pub set_of : List Text → List Text
set_of [] = []
set_of (value ∷ values) = add_unique value (set_of values)

-- `sort.Strings`
unfoldable pub sort_texts : List Text → List Text
sort_texts = sort_by compare_text

abbrev pub nonempty : List Text → List Text
nonempty [] = []
nonempty (value ∷ values) = if is_empty value then nonempty values else value ∷ nonempty values

-- `sortedUnique`
unfoldable pub sorted_unique : List Text → List Text
sorted_unique values = sort_texts (set_of (nonempty values))

abbrev pub IsDistinct : List Text → Type 0
IsDistinct [] = Unit
IsDistinct (x ∷ xs) = All (λ y. x ≢ y) xs × IsDistinct xs

absent :
    (value : Text) (set : List Text)
    → any (λ x. text_eq x value) set ≡ false
    → All (λ y. value ≢ y) set
absent value [] h = tt
absent value (x ∷ set) h =
    (λ e. ground (arith, text_eq_iff x value), absent value set (ground arith))

pub set_of-IsDistinct : (values : List Text) → IsDistinct (set_of values)
unfolding set_of add_unique
set_of-IsDistinct [] = tt
set_of-IsDistinct (value ∷ values) =
    elim (Bool-cases (any (λ x. text_eq x value) (set_of values))) [
      | inl t ↦ rw t (set_of-IsDistinct values)
      | inr f ↦ rw f (absent value (set_of values) f, set_of-IsDistinct values)
    ]

above-or_below : (x a : Text) → a ≢ x → is_lt (compare_text x a) ≡ false → compare_text a x ≡ lt
above-or_below x a ne f =
    ground
      (arith, compare_text-IsLawful.flip x a, λ (e : compare_text x a ≡ eq). compare_text-eq x a e)

insert_by-IsAscending :
    (a : Text) (xs : List Text)
    → All (λ y. a ≢ y) xs
    → IsAscending xs
    → IsAscending (insert_by compare_text a xs)
unfolding insert_by
insert_by-IsAscending a [] ne h = (tt, tt)
insert_by-IsAscending a (x ∷ xs) ne h = elim (Bool-cases (is_lt (compare_text x a))) [
  | inl t ↦ rw t (
    insert_by-All compare_text (λ y. compare_text x y ≡ lt) a xs (ground arith) h.0,
    insert_by-IsAscending a xs ne.1 h.1,
  )
  | inr f ↦
      let less : compare_text a x ≡ lt = above-or_below x a ne.0 f in
      rw f (
        (
          less,
          All-map (λ y. compare_text x y ≡ lt) (λ y. compare_text a y ≡ lt) xs
              (λ y q. compare_text-IsLawful.trans a x y less q) h.0,
        ),
        h,
      )
]

pub sort_texts-IsAscending : (xs : List Text) → IsDistinct xs → IsAscending (sort_texts xs)
unfolding sort_texts sort_by
sort_texts-IsAscending [] h = tt
sort_texts-IsAscending (x ∷ xs) h =
    insert_by-IsAscending x (sort_texts xs) (sort_by-All compare_text (λ y. x ≢ y) xs h.0)
      (sort_texts-IsAscending xs h.1)

-- `sortedUnique` returns strictly ascending texts.
pub sorted_unique-IsAscending : (values : List Text) → IsAscending (sorted_unique values)
unfolding sorted_unique
sorted_unique-IsAscending values =
    sort_texts-IsAscending (set_of (nonempty values)) (set_of-IsDistinct (nonempty values))

set_of-All : (P : Text → Type 0) (xs : List Text) → All P xs → All P (set_of xs)
unfolding set_of add_unique
set_of-All P [] h = tt
set_of-All P (x ∷ xs) h = elim (Bool-cases (any (λ y. text_eq y x) (set_of xs))) [
  | inl t ↦ rw t (set_of-All P xs h.1)
  | inr f ↦ rw f (h.0, set_of-All P xs h.1)
]

nonempty-All : (xs : List Text) → All (λ y. is_empty y ≡ false) (nonempty xs)
nonempty-All [] = tt
nonempty-All ([] ∷ xs) = nonempty-All xs
nonempty-All ((c ∷ cs) ∷ xs) = (refl, nonempty-All xs)

-- None of them is empty.
pub sorted_unique-nonempty :
    (values : List Text) → All (λ y. is_empty y ≡ false) (sorted_unique values)
unfolding sorted_unique sort_texts
sorted_unique-nonempty values =
    sort_by-All compare_text (λ y. is_empty y ≡ false) (set_of (nonempty values))
      (set_of-All (λ y. is_empty y ≡ false) (nonempty values) (nonempty-All values))

found_in : (y : Text) (zs : List Text) → any (λ z. text_eq z y) zs ≡ true → Member y zs
found_in y [] h = cc
found_in y (z ∷ zs) h = elim (Bool-cases (text_eq z y)) [
  | inl t ↦ inl (sym (text_eq→eq z y t))
  | inr f ↦ inr (found_in y zs (ground arith))
]

-- No value is lost.
set_of-Member : (x : Text) (xs : List Text) → Member x xs → Member x (set_of xs)
unfolding set_of add_unique
set_of-Member x [] m = elim m [ ]
set_of-Member x (y ∷ ys) (inl e) = elim (Bool-cases (any (λ z. text_eq z y) (set_of ys))) [
  | inl t ↦ rw t (rw e (found_in y (set_of ys) t))
  | inr f ↦ rw f (inl e)
]
set_of-Member x (y ∷ ys) (inr m) = elim (Bool-cases (any (λ z. text_eq z y) (set_of ys))) [
  | inl t ↦ rw t (set_of-Member x ys m)
  | inr f ↦ rw f (inr (set_of-Member x ys m))
]

-- A set of texts in order holds each of them.
pub sorted_set-Member :
    (x : Text) (xs : List Text) → Member x xs → Member x (sort_texts (set_of xs))
unfolding sort_texts
sorted_set-Member x xs m = sort_by-Any compare_text (λ y. x ≡ y) (set_of xs) (set_of-Member x xs m)

pub sorted_set-IsAscending : (xs : List Text) → IsAscending (sort_texts (set_of xs))
sorted_set-IsAscending xs = sort_texts-IsAscending (set_of xs) (set_of-IsDistinct xs)

-- Only an empty list of texts has no value in its sorted set.
pub sorted_unique-empty : sorted_unique [] ≡ []
unfolding sorted_unique sort_texts set_of sort_by
sorted_unique-empty = refl
