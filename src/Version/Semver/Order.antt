-- ===== src/Version/Semver/Order.antt =====
-- internal/analyzer/version/range.go: `compare` as an order.
use ssc_init.Base.{
  ℕ, Ordering, ◌≡◌, refl, lt, eq, List, [], ◌∷◌, arith, Text, lex, opposite, IsLawful,
  then-IsLawful, on-IsLawful, lex-IsLawful, compare_uint, compare_uint-IsLawful, compare_text,
  compare_text-IsLawful,
}
use ssc_init.Version.Semver.{
  Numbers, ParsedVersion, compare_identifier, compare_prerelease, compare_numbers, compare,
}

abbrev uint : IsLawful compare_uint
uint = compare_uint-IsLawful

abbrev text : IsLawful compare_text
text = compare_text-IsLawful

pub compare_identifier-IsLawful : IsLawful compare_identifier
unfolding compare_identifier compare_uint
compare_identifier-IsLawful = record {
  flip = λ a b. ground (arith, text.flip a b);
  trans = λ a b c h k. ground (arith, text.trans a b c);
  same = λ a b c h. ground (arith, text.same a b c);
}

ids : IsLawful (lex compare_identifier)
ids = lex-IsLawful compare_identifier compare_identifier-IsLawful

-- Whether a prerelease is empty decides before its identifiers do.
pub compare_prerelease-IsLawful : IsLawful compare_prerelease
unfolding compare_prerelease
compare_prerelease-IsLawful = record { flip = flips; trans = transits; same = sames }
  where
    flips : (l r : List Text) → compare_prerelease r l ≡ opposite (compare_prerelease l r)
    flips [] [] = refl
    flips [] (y ∷ ys) = refl
    flips (x ∷ xs) [] = refl
    flips (x ∷ xs) (y ∷ ys) = ids.flip (x ∷ xs) (y ∷ ys)

    transits :
        (l m r : List Text)
        → compare_prerelease l m ≡ lt
        → compare_prerelease m r ≡ lt
        → compare_prerelease l r ≡ lt
    transits [] [] r h k = k
    transits [] (y ∷ ys) r h k = cc
    transits (x ∷ xs) [] [] h k = refl
    transits (x ∷ xs) [] (z ∷ zs) h k = cc
    transits (x ∷ xs) (y ∷ ys) [] h k = refl
    transits (x ∷ xs) (y ∷ ys) (z ∷ zs) h k = ids.trans (x ∷ xs) (y ∷ ys) (z ∷ zs) h k

    sames :
        (l m r : List Text)
        → compare_prerelease l m ≡ eq
        → compare_prerelease l r ≡ compare_prerelease m r
    sames [] [] r h = refl
    sames [] (y ∷ ys) r h = cc
    sames (x ∷ xs) [] r h = cc
    sames (x ∷ xs) (y ∷ ys) [] h = refl
    sames (x ∷ xs) (y ∷ ys) (z ∷ zs) h = ids.same (x ∷ xs) (y ∷ ys) (z ∷ zs) h

abbrev by_number : (Numbers → ℕ) → Numbers → Numbers → Ordering
by_number f l r = compare_uint (f l) (f r)

by_number-IsLawful : (f : Numbers → ℕ) → IsLawful (by_number f)
by_number-IsLawful f = on-IsLawful f compare_uint-IsLawful

compare_numbers-IsLawful : IsLawful compare_numbers
unfolding compare_numbers
compare_numbers-IsLawful =
    then-IsLawful (by_number (λ n. n.n0)) _ (by_number-IsLawful (λ n. n.n0)) (
      then-IsLawful (by_number (λ n. n.n1)) _ (by_number-IsLawful (λ n. n.n1)) (
        then-IsLawful (by_number (λ n. n.n2)) _ (by_number-IsLawful (λ n. n.n2))
          (by_number-IsLawful (λ n. n.n3))))

-- `compare` is a total preorder on versions: its sign is antisymmetric, `less` is transitive, and
-- versions that compare equal compare alike with every version.
pub compare-IsLawful : IsLawful compare
unfolding compare
compare-IsLawful =
    then-IsLawful _ _ (on-IsLawful (λ (v : ParsedVersion). v.numbers) compare_numbers-IsLawful)
      (on-IsLawful (λ (v : ParsedVersion). v.prerelease) compare_prerelease-IsLawful)
