-- ===== src/Version/Range.antt =====
-- internal/analyzer/version/range.go: comparators, windows and wildcards. The two results
-- (matched, valid) of the Go functions are a pair.
pub mod Window
pub mod Alternatives
use ssc_init.Base.{
  ℕ, suc, ◌+◌, ◌%◌, Ordering, lt, eq, gt, Bool, true, false, not, ◌&&◌, ◌||◌, none, some, List, [],
  ◌∷◌, length, is_empty, ltb, ◌==◌, if◌then◌else◌, Text, codes, text_eq, trim_prefix, has_prefix,
  has_suffix, trim_suffix, trim_space, replace_all, fields, split, split_pair, parse_uint, u64,
}
use ssc_init.Version.Semver
use ssc_init.Version.Semver.{Numbers, ParsedVersion, number_at, parse_version}

pub data Operator : Type 0 where
  at_least at_most above below exactly : Operator

-- `comparisonMatches`, and the switch of `matchComparator`
unfoldable pub comparison_matches : Ordering → Operator → Bool
comparison_matches eq exactly = true
comparison_matches eq at_least = true
comparison_matches eq at_most = true
comparison_matches gt at_least = true
comparison_matches gt above = true
comparison_matches lt at_most = true
comparison_matches lt below = true
comparison_matches _ _ = false

-- The first version above a `^` or `~` window; `++` wraps at 64 bits.
unfoldable pub window_end : ParsedVersion → Bool → ParsedVersion
window_end lower caret = record lower {
  numbers =
      if caret
      then if ltb 0 lower.numbers.n0 then major else if ltb 0 lower.numbers.n1 then minor else patch
      else if ltb lower.precision 2
      then major
      else minor;
  prerelease = [];
}
  where
    major : Numbers
    major = record { n0 = (lower.numbers.n0 + 1) % u64; n1 = 0; n2 = 0; n3 = 0 }

    minor : Numbers
    minor = record lower.numbers { n1 = (lower.numbers.n1 + 1) % u64; n2 = 0; n3 = 0 }

    patch : Numbers
    patch = record lower.numbers { n2 = (lower.numbers.n2 + 1) % u64; n3 = 0 }

unfoldable pub in_window : ParsedVersion → ParsedVersion → Bool → Bool
in_window version lower caret =
    comparison_matches (Semver.compare version lower) at_least
    && comparison_matches (Semver.compare version (window_end lower caret)) below

unfoldable pub match_window : ParsedVersion → Text → Bool → Bool × Bool
match_window version raw caret = elim (parse_version raw) [
  | none ↦ (false, false)
  | some lower ↦ (in_window version lower caret, true)
]

unfoldable pub match_wildcard_parts : ParsedVersion → ℕ → List Text → Bool × Bool
match_wildcard_parts version index [] = (true, true)
match_wildcard_parts version index (part ∷ parts) =
    let rest = match_wildcard_parts version (suc index) parts in
    elim (parse_uint part) [
      | none ↦ (false, false)
      | some number ↦ if number_at version.numbers index == number then rest else (false, true)
    ]

unfoldable pub match_wildcard : ParsedVersion → Text → Bool × Bool
match_wildcard version prefix =
    let parts = split b'.' prefix in
    if ltb (length parts) 1 || ltb 3 (length parts)
    then (false, false)
    else match_wildcard_parts version 0 parts

-- The operator in front of a comparator; `none` where there is none.
unfoldable pub operator_of : Text → (Operator × Text) → Operator × Text
operator_of raw default =
    if has_prefix raw (codes ">=")
    then (at_least, trim_prefix raw (codes ">="))
    else if has_prefix raw (codes "<=")
    then (at_most, trim_prefix raw (codes "<="))
    else if has_prefix raw (codes ">")
    then (above, trim_prefix raw (codes ">"))
    else if has_prefix raw (codes "<")
    then (below, trim_prefix raw (codes "<"))
    else if has_prefix raw (codes "=")
    then (exactly, trim_prefix raw (codes "="))
    else default

unfoldable pub match_operator : ParsedVersion → Operator × Text → Bool × Bool
match_operator version (op, value) = elim (parse_version value) [
  | none ↦ (false, false)
  | some target ↦ (comparison_matches (Semver.compare version target) op, true)
]

unfoldable pub match_comparator : ParsedVersion → Text → Bool × Bool
match_comparator version raw =
    if text_eq raw (codes "*") || text_eq raw (codes "x") || text_eq raw (codes "X")
    then (false, false)
    else if has_prefix raw (codes "^")
    then match_window version (trim_prefix raw (codes "^")) true
    else if has_prefix raw (codes "~")
    then match_window version (trim_prefix raw (codes "~")) false
    else if has_suffix raw (codes ".x")
    then match_wildcard version (trim_suffix raw (codes ".x"))
    else if has_suffix raw (codes ".X")
    then match_wildcard version (trim_suffix raw (codes ".X"))
    else if has_suffix raw (codes ".*")
    then match_wildcard version (trim_suffix raw (codes ".*"))
    else match_operator version (operator_of raw (exactly, raw))

-- The loop of `matchAlternative`: the first comparator that is not valid, or that does not
-- match, ends it.
unfoldable pub match_fields : ParsedVersion → List Text → Bool × Bool
match_fields version [] = (true, true)
match_fields version (field ∷ rest) =
    let later = match_fields version rest in
    let (matched, valid) = match_comparator version field in
    if not valid then (false, false) else if not matched then (false, true) else later

-- The comparators of one alternative: commas count as spaces.
unfoldable pub comparators : Text → List Text
comparators expression = fields (replace_all b',' 32 (trim_space expression))

unfoldable pub match_alternative : ParsedVersion → Text → Bool × Bool
match_alternative version expression =
    let parts = comparators expression in
    if length parts == 0 || ltb 16 (length parts)
    then (false, false)
    else match_fields version parts

-- The loop over the alternatives in `Match`; all of them are read.
unfoldable pub match_alternatives : ParsedVersion → Bool → List Text → Bool × Bool
match_alternatives version matched [] = (matched, true)
match_alternatives version matched (alternative ∷ rest) =
    let (value, valid) = match_alternative version alternative in
    let later = match_alternatives version (matched || value) rest in
    if not valid then (false, false) else later

-- `Match` behind its checks, for an expression without the OSV prefix.
unfoldable pub match_range : Text → Text → Bool × Bool
match_range value expression = elim (parse_version value) [
  | none ↦ (false, false)
  | some version ↦
      if ltb 4 (length (split_pair b'|' expression))
      then (false, false)
      else match_alternatives version false (split_pair b'|' expression)
]
