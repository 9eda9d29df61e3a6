-- ===== src/Version/Pep440/Order.antt =====
-- internal/analyzer/version/osv.go: `comparePEP440` as an order.
use ssc_init.Base.{
  ℕ, ◌≡◌, ◌≢◌, refl, ◌⊎◌, inl, inr, Ordering, lt, eq, gt, some, none, Option, List, [], ◌∷◌, arith,
  ◌then◌, opposite, IsLawful, then-IsLawful, on-IsLawful, lex-IsLawful, compare_uint,
  compare_uint-IsLawful, compare_text, compare_text-IsLawful,
}
use ssc_init.Version.Pep440.{
  Pre, Local, numeric, textual, Version, compare_release, rank, compare_both, compare_pre,
  compare_optional_uint, compare_local_part, compare_local, compare_pep440,
}

abbrev uint : IsLawful compare_uint
uint = compare_uint-IsLawful

abbrev text : IsLawful compare_text
text = compare_text-IsLawful

release-flip : (l r : List ℕ) → compare_release r l ≡ opposite (compare_release l r)
unfolding compare_release
release-flip [] [] = refl
release-flip [] (y ∷ ys) = ground (arith, uint.flip 0 y, release-flip [] ys)
release-flip (x ∷ xs) [] = ground (arith, uint.flip x 0, release-flip xs [])
release-flip (x ∷ xs) (y ∷ ys) = ground (arith, uint.flip x y, release-flip xs ys)

-- The comparison of the first numbers and of what follows, by the numbers' laws.
head-same :
    (x y z : ℕ) {o p q : Ordering}
    → (o ≡ eq → p ≡ q)
    → (compare_uint x y then o) ≡ eq
    → (compare_uint x z then p) ≡ (compare_uint y z then q)
head-same x y z f h = ground (arith, uint.same x y z)

head_trans :
    (x y z : ℕ) {o p q : Ordering}
    → (o ≡ lt → p ≡ lt → q ≡ lt)
    → (compare_uint x y then o) ≡ lt
    → (compare_uint y z then p) ≡ lt
    → (compare_uint x z then q) ≡ lt
unfolding compare_uint
head_trans x y z f h k = ground arith

release-same :
    (l m r : List ℕ) → compare_release l m ≡ eq → compare_release l r ≡ compare_release m r
unfolding compare_release compare_uint
release-same [] [] r h = refl
release-same [] (y ∷ ys) [] h = head-same 0 y 0 (release-same [] ys []) h
release-same [] (y ∷ ys) (z ∷ zs) h = head-same 0 y z (release-same [] ys zs) h
release-same (x ∷ xs) [] [] h = head-same x 0 0 (release-same xs [] []) h
release-same (x ∷ xs) [] (z ∷ zs) h = head-same x 0 z (release-same xs [] zs) h
release-same (x ∷ xs) (y ∷ ys) [] h = head-same x y 0 (release-same xs ys []) h
release-same (x ∷ xs) (y ∷ ys) (z ∷ zs) h = head-same x y z (release-same xs ys zs) h

release_trans :
    (l m r : List ℕ)
    → compare_release l m ≡ lt
    → compare_release m r ≡ lt
    → compare_release l r ≡ lt
unfolding compare_release compare_uint
release_trans [] [] r h k = k
release_trans [] (y ∷ ys) [] h k = head_trans 0 y 0 (release_trans [] ys []) h k
release_trans [] (y ∷ ys) (z ∷ zs) h k = head_trans 0 y z (release_trans [] ys zs) h k
release_trans (x ∷ xs) [] [] h k = h
release_trans (x ∷ xs) [] (z ∷ zs) h k = head_trans x 0 z (release_trans xs [] zs) h k
release_trans (x ∷ xs) (y ∷ ys) [] h k = head_trans x y 0 (release_trans xs ys []) h k
release_trans (x ∷ xs) (y ∷ ys) (z ∷ zs) h k = head_trans x y z (release_trans xs ys zs) h k

pub compare_release-IsLawful : IsLawful compare_release
compare_release-IsLawful = record {
  flip = release-flip;
  trans = release_trans;
  same = release-same;
}

-- A prerelease is there exactly where the rank says so.
rank-cases :
    (v : Version) → ((p : Pre) × (v.pre ≡ some p) × (rank v ≡ 1)) ⊎ ((v.pre ≡ none) × (rank v ≢ 1))
unfolding rank
rank-cases v = go v.pre v.dev v.post refl
  where
    go :
        (p : Option Pre) (d s : Option ℕ)
        → v.pre ≡ p
        → ((p : Pre) × (v.pre ≡ some p) × (rank v ≡ 1)) ⊎ ((v.pre ≡ none) × (rank v ≢ 1))
    go (some p) d s e = inl (p, e, ground arith)
    go none d s e = inr (e, ground arith)

compare_pre-IsLawful : IsLawful compare_pre
unfolding compare_pre compare_both compare_uint
compare_pre-IsLawful = record {
  flip = λ a b. ground (arith, rank-cases a, rank-cases b);
  trans = λ a b c h k. ground (arith, rank-cases a, rank-cases b, rank-cases c);
  same = λ a b c h. ground (arith, rank-cases a, rank-cases b, rank-cases c);
}

abbrev optional : Ordering → Option ℕ → Option ℕ → Ordering
optional absent l r = compare_optional_uint l r absent

optional-IsLawful : (absent : Ordering) → absent ≢ eq → IsLawful (optional absent)
unfolding compare_optional_uint compare_uint
optional-IsLawful absent ne = record {
  flip = λ a b. ground arith;
  trans = λ a b c h k. ground arith;
  same = λ a b c h. ground arith;
}

part-flip : (a b : Local) → compare_local_part b a ≡ opposite (compare_local_part a b)
unfolding compare_local_part
part-flip (numeric m) (numeric n) = uint.flip m n
part-flip (numeric m) (textual t) = refl
part-flip (textual s) (numeric n) = refl
part-flip (textual s) (textual t) = text.flip s t

part_trans :
    (a b c : Local)
    → compare_local_part a b ≡ lt
    → compare_local_part b c ≡ lt
    → compare_local_part a c ≡ lt
unfolding compare_local_part
part_trans (numeric m) (numeric n) (numeric o) h k = uint.trans m n o h k
part_trans (numeric m) (numeric n) (textual u) h k = k
part_trans (numeric m) (textual t) c h k = cc
part_trans (textual s) (numeric n) (numeric o) h k = refl
part_trans (textual s) (numeric n) (textual u) h k = cc
part_trans (textual s) (textual t) (numeric o) h k = refl
part_trans (textual s) (textual t) (textual u) h k = text.trans s t u h k

part-same :
    (a b c : Local) → compare_local_part a b ≡ eq → compare_local_part a c ≡ compare_local_part b c
unfolding compare_local_part
part-same (numeric m) (numeric n) (numeric o) h = uint.same m n o h
part-same (numeric m) (numeric n) (textual u) h = refl
part-same (numeric m) (textual t) c h = cc
part-same (textual s) (numeric n) c h = cc
part-same (textual s) (textual t) (numeric o) h = refl
part-same (textual s) (textual t) (textual u) h = text.same s t u h

compare_local_part-IsLawful : IsLawful compare_local_part
compare_local_part-IsLawful = record { flip = part-flip; trans = part_trans; same = part-same }

abbrev local : Version → List Local
local v = v.local

-- `comparePEP440` is a total preorder on versions: its sign is antisymmetric, `less` is transitive, and
-- versions that compare equal (1.0 and 1.0.0) compare alike with every version.
pub compare_pep440-IsLawful : IsLawful compare_pep440
unfolding compare_pep440 compare_local
compare_pep440-IsLawful =
    then-IsLawful _ _ (on-IsLawful (λ (v : Version). v.epoch) compare_uint-IsLawful) (
      then-IsLawful _ _ (on-IsLawful (λ (v : Version). v.release) compare_release-IsLawful) (
        then-IsLawful _ _ compare_pre-IsLawful (
          then-IsLawful _ _ (on-IsLawful (λ (v : Version). v.post) (optional-IsLawful lt (λ e. cc)))
            (then-IsLawful _ _
              (on-IsLawful (λ (v : Version). v.dev) (optional-IsLawful gt (λ e. cc)))
              (on-IsLawful local (lex-IsLawful compare_local_part compare_local_part-IsLawful))))))
