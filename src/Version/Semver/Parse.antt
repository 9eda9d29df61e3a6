-- ===== src/Version/Semver/Parse.antt =====
-- internal/analyzer/version/range.go: the results of `parseVersion`.
use ssc_init.Base.{
  ◌∙◌, cut, trim_prefix, trim_space, codes, ℕ, zero, suc, ◌+◌, ◌≡◌, refl, ◌≤◌, ◌<◌, inl, inr, true,
  ◌==◌, Option-cases, some, List, [], ◌∷◌, arith, length, all, if◌then◌else◌, Text, u64, parse_uint,
  parse_uint-lt, split,
}
use ssc_init.Version.Semver.{
  Numbers, ParsedVersion, number_at, set_number, no_numbers, valid_part, parse_numbers, parse_core,
  parse_release, parse_version, without_build,
}

abbrev pub IsBounded : Numbers → Type 0
IsBounded n = (n.n0 < u64) × (n.n1 < u64) × (n.n2 < u64) × (n.n3 < u64)

-- One to four numbers below 2^64, the unused ones zero, and identifiers of a prerelease that are
-- not empty and hold digits, letters and dashes only.
pub record IsWellFormed (v : ParsedVersion) : Type 0 where
  pub one_to_four : (1 ≤ v.precision) × (v.precision ≤ 4)
  pub bounded : IsBounded v.numbers
  pub unused : (i : ℕ) → v.precision ≤ i → i < 4 → number_at v.numbers i ≡ 0
  pub identifiers : all valid_part v.prerelease ≡ true

number_at-set_number :
    (n : Numbers) (i j v : ℕ)
    → i < 4
    → j < 4
    → number_at (set_number n i v) j ≡ (if i == j then v else number_at n j)
number_at-set_number n zero zero v h k = refl
number_at-set_number n zero (suc zero) v h k = refl
number_at-set_number n zero (suc (suc zero)) v h k = refl
number_at-set_number n zero (suc (suc (suc j))) v h k = ground arith
number_at-set_number n (suc zero) zero v h k = refl
number_at-set_number n (suc zero) (suc zero) v h k = refl
number_at-set_number n (suc zero) (suc (suc zero)) v h k = refl
number_at-set_number n (suc zero) (suc (suc (suc j))) v h k = ground arith
number_at-set_number n (suc (suc zero)) zero v h k = refl
number_at-set_number n (suc (suc zero)) (suc zero) v h k = refl
number_at-set_number n (suc (suc zero)) (suc (suc zero)) v h k = refl
number_at-set_number n (suc (suc zero)) (suc (suc (suc j))) v h k = ground arith
number_at-set_number n (suc (suc (suc i))) zero v h k = ground arith
number_at-set_number n (suc (suc (suc i))) (suc zero) v h k = ground arith
number_at-set_number n (suc (suc (suc i))) (suc (suc zero)) v h k = ground arith
number_at-set_number n (suc (suc (suc i))) (suc (suc (suc j))) v h k = ground arith

set_number-IsBounded :
    (n : Numbers) (i v : ℕ) → v < u64 → IsBounded n → IsBounded (set_number n i v)
set_number-IsBounded n zero v h k = ground arith
set_number-IsBounded n (suc zero) v h k = ground arith
set_number-IsBounded n (suc (suc zero)) v h k = ground arith
set_number-IsBounded n (suc (suc (suc i))) v h k = ground arith

-- What the loop keeps: numbers in range, and the numbers behind the parts that are left.
record Kept (index : ℕ) (parts : List Text) (before after : Numbers) : Type 0 where
  bounded : IsBounded before → IsBounded after
  behind : (j : ℕ) → index + length parts ≤ j → j < 4 → number_at after j ≡ number_at before j

parse_numbers_step :
    (index : ℕ) (part : Text) (parts : List Text) (before : Numbers) {after : Numbers}
    → parse_numbers index (part ∷ parts) before ≡ some after
    → (v : ℕ) × (parse_uint part ≡ some v)
      × (parse_numbers (suc index) parts (set_number before index v) ≡ some after)
unfolding parse_numbers
parse_numbers_step index part parts before h = ground arith

parse_numbers-Kept :
    (index : ℕ) (parts : List Text) (before after : Numbers)
    → parse_numbers index parts before ≡ some after
    → Kept index parts before after
parse_numbers-Kept index [] before after h =
    unfold parse_numbers in record { bounded = λ b. ground arith; behind = λ j le lt. ground arith }
parse_numbers-Kept index (part ∷ parts) before after h =
    let (v, parsed, rest) = parse_numbers_step index part parts before h in
    let ih : Kept (suc index) parts (set_number before index v) after =
      parse_numbers-Kept (suc index) parts (set_number before index v) after rest in
    record {
      bounded =
          λ b. ih.bounded (set_number-IsBounded before index v (parse_uint-lt part v parsed) b);
      behind = λ j le lt.
          ih.behind j (omega arith) lt ∙ ground (arith, number_at-set_number before index j v);
    }

-- What `parse_core` returns is well formed, if the identifiers that it is handed are valid.
parse_core-IsWellFormed :
    (raw : Text) (prerelease : List Text) (v : ParsedVersion)
    → all valid_part prerelease ≡ true
    → parse_core raw prerelease ≡ some v
    → IsWellFormed v
unfolding parse_core
parse_core-IsWellFormed raw prerelease v valid h =
    let (n, parsed, few, e) = numbers in
    let kept : Kept 0 (split b'.' raw) no_numbers n =
      parse_numbers-Kept 0 (split b'.' raw) no_numbers n parsed in
    record {
      one_to_four = ground arith;
      bounded = rw e (kept.bounded (omega arith));
      unused = λ j le lt. rw e (kept.behind j (ground arith) lt ∙ none_set j lt);
      identifiers = rw e valid;
    }
  where
    none_set : (j : ℕ) → j < 4 → number_at no_numbers j ≡ 0
    none_set zero lt = refl
    none_set (suc zero) lt = refl
    none_set (suc (suc zero)) lt = refl
    none_set (suc (suc (suc j))) lt = refl

    numbers :
        (n : Numbers) × (parse_numbers 0 (split b'.' raw) no_numbers ≡ some n)
        × ((1 ≤ length (split b'.' raw)) × (length (split b'.' raw) ≤ 4))
        × (v ≡ record { numbers = n; precision = length (split b'.' raw); prerelease = prerelease })
    numbers = ground arith

parse_release-IsWellFormed :
    (raw : Text) (v : ParsedVersion) → parse_release raw ≡ some v → IsWellFormed v
unfolding parse_release
parse_release-IsWellFormed raw v h = elim (Option-cases (cut b'-' raw)) [
  | inl e ↦ parse_core-IsWellFormed raw [] v refl (ground arith)
  | inr (parts, e) ↦
      parse_core-IsWellFormed parts.0 (split b'.' parts.1) v (ground arith) (ground arith)
]

-- Every text that `parseVersion` accepts gives a well-formed version.
pub parse_version-IsWellFormed :
    (text : Text) (v : ParsedVersion) → parse_version text ≡ some v → IsWellFormed v
unfolding parse_version
parse_version-IsWellFormed text v h =
    parse_release-IsWellFormed (without_build (trim_prefix (trim_space text) (codes "v"))) v
      (ground arith)
