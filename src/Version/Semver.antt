-- ===== src/Version/Semver.antt =====
-- internal/analyzer/version/range.go: `parsedVersion`, `parseVersion` and `compare`.
pub mod Order
pub mod Parse
use ssc_init.Base.{
  ℕ, zero, suc, ◌+◌, ◌<◌, Ordering, lt, eq, gt, Bool, true, false, not, ◌&&◌, ◌||◌, Option, none,
  some, List, [], ◌∷◌, length, is_empty, all, ltb, leb, ◌==◌, if◌then◌else◌, ◌then◌, lex,
  compare_uint, Text, codes, byte_length, compare_text, trim_prefix, has_prefix, contains_any,
  trim_space, split, cut, is_digit, parse_uint,
}

-- `[4]uint64`
pub record Numbers : Type 0 where
  pub n0 : ℕ
  pub n1 : ℕ
  pub n2 : ℕ
  pub n3 : ℕ

abbrev pub number_at : Numbers → ℕ → ℕ
number_at n zero = n.n0
number_at n (suc zero) = n.n1
number_at n (suc (suc zero)) = n.n2
number_at n (suc (suc (suc i))) = n.n3

abbrev pub set_number : Numbers → ℕ → ℕ → Numbers
set_number n zero v = record n { n0 = v }
set_number n (suc zero) v = record n { n1 = v }
set_number n (suc (suc zero)) v = record n { n2 = v }
set_number n (suc (suc (suc i))) v = record n { n3 = v }

abbrev pub no_numbers : Numbers
no_numbers = record { n0 = 0; n1 = 0; n2 = 0; n3 = 0 }

pub record ParsedVersion : Type 0 where
  pub numbers : Numbers
  pub precision : ℕ
  pub prerelease : List Text

unfoldable pub identifier_rune : ℕ → Bool
identifier_rune c = leb 48 c && leb c 57 || leb 65 c && leb c 90 || leb 97 c && leb c 122 || c == 45

unfoldable pub identifier : Text → Bool
identifier = all identifier_rune

-- A part of a prerelease that `parseVersion` lets pass.
unfoldable pub valid_part : Text → Bool
valid_part part = not (is_empty part) && identifier part

-- `part == "" || len(part) > 1 && part[0] == '0'`
unfoldable pub bad_number : Text → Bool
bad_number [] = true
bad_number (c ∷ cs) = ltb 1 (byte_length (c ∷ cs)) && c == 48

-- The loop over the dotted numbers.
unfoldable pub parse_numbers : ℕ → List Text → Numbers → Option Numbers
parse_numbers index [] result = some result
parse_numbers index (part ∷ parts) result =
    if bad_number part then none else elim (parse_uint part) [
      | none ↦ none
      | some number ↦ parse_numbers (suc index) parts (set_number result index number)
    ]

-- What stands before a `+`.
unfoldable pub without_build : Text → Text
without_build raw = elim (cut b'+' raw) [ none ↦ raw | some (a, b) ↦ a ]

unfoldable pub parse_core : Text → List Text → Option ParsedVersion
parse_core raw prerelease =
    let parts = split b'.' raw in
    if ltb (length parts) 1 || ltb 4 (length parts)
    then none
    else elim (parse_numbers 0 parts no_numbers) [
      | none ↦ none
      | some numbers ↦
          some (record { numbers = numbers; precision = length parts; prerelease = prerelease })
    ]

unfoldable pub parse_release : Text → Option ParsedVersion
parse_release raw = elim (cut b'-' raw) [
  | none ↦ parse_core raw []
  | some (core, rest) ↦
      if all valid_part (split b'.' rest) then parse_core core (split b'.' rest) else none
]

unfoldable pub parse_version : Text → Option ParsedVersion
parse_version text =
    let raw = trim_prefix (trim_space text) (codes "v") in
    if is_empty raw || contains_any raw (codes " /\\")
    then none
    else parse_release (without_build raw)

-- Two identifiers of a prerelease: those that `ParseUint` reads stand below the others.
abbrev pub compare_keys : Option ℕ → Option ℕ → Ordering → Ordering
compare_keys (some m) (some n) texts = compare_uint m n
compare_keys (some m) none texts = lt
compare_keys none (some n) texts = gt
compare_keys none none texts = texts

unfoldable pub compare_identifier : Text → Text → Ordering
compare_identifier a b = compare_keys (parse_uint a) (parse_uint b) (compare_text a b)

-- A version without a prerelease stands above those with one. The loop and the comparison of the
-- lengths behind it are `lex`.
unfoldable pub compare_prerelease : List Text → List Text → Ordering
compare_prerelease left right =
    if is_empty left && not (is_empty right)
    then gt
    else if not (is_empty left) && is_empty right
    then lt
    else lex compare_identifier left right

unfoldable pub compare_numbers : Numbers → Numbers → Ordering
compare_numbers l r =
    compare_uint l.n0 r.n0
    then compare_uint l.n1 r.n1
    then compare_uint l.n2 r.n2
    then compare_uint l.n3 r.n3

unfoldable pub compare : ParsedVersion → ParsedVersion → Ordering
compare left right =
    compare_numbers left.numbers right.numbers
    then compare_prerelease left.prerelease right.prerelease
