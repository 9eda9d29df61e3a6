-- ===== src/Tests/Versions.antt =====
-- internal/analyzer/version: versions, ranges and selectors at concrete inputs.
use ssc_init.Base.{
  ℕ, suc, ◌+◌, ◌-◌, ◌<◌, ◌≤◌, ◌≡◌, ◌≢◌, ◌↔◌, refl, Bool, true, false, Ordering, lt, eq, Option,
  none, some, List, [], ◌∷◌, arith, All, Any, length, Text, codes, text_eq, compare_text,
  compare_text-IsLawful, u64, split_pair, fields, if◌then◌else◌,
}
use ssc_init.Version.Semver.{Numbers, ParsedVersion, parse_version, compare}
use ssc_init.Version.Semver.Parse.{IsWellFormed, parse_version-IsWellFormed}
use ssc_init.Version.Range.{in_window, comparators, match_range}
use ssc_init.Version.Range.Window.{
  SameLead, in_window_iff, in_window_wraps, next_prerelease, in_window-next_prerelease,
}
use ssc_init.Version.Range.Alternatives.{Holds, IsReadable, match_range_iff}
use ssc_init.Version.Osv.{
  Engines, Kind, semver, ecosystem, osv_expression, osv_open_start, osv_exact, match_osv_fields,
  compare_osv_version, valid_exact_version,
}
use ssc_init.Version.Osv.Order.{IsLawfulWhere, compare_osv_version-IsLawfulWhere}
use ssc_init.Version.Match.Fields.{Satisfies}
use ssc_init.Version.Match.{match}
use ssc_init.Version.Match.Selectors.{match-osv_expression, match-osv_open_start, match-osv_exact}

-- A comparison of texts in place of `semver.Compare`.
abbrev engines : Engines
engines = record { go_valid = λ v. true; go_compare = compare_text; pep440_find = λ v. none }

abbrev release : ℕ → ℕ → ℕ → ParsedVersion
release a b c = record {
  numbers = record { n0 = a; n1 = b; n2 = c; n3 = 0 };
  precision = 3;
  prerelease = [];
}

abbrev left_pad : Text
left_pad = codes "pkg:npm/left-pad"

in_window_iff_example : (in_window (release 1 4 0) (release 1 2 0) true ≡ true) ↔ (
    (compare (release 1 4 0) (release 1 2 0) ≢ lt) × SameLead (release 1 4 0) (release 1 2 0) true)
in_window_iff_example =
    in_window_iff (release 1 4 0) (release 1 2 0) true refl
      (ground arith, ground arith, ground arith)

in_window_wraps_example : in_window (release (u64 - 1) 2 0) (release (u64 - 1) 0 0) true ≡ false
in_window_wraps_example = in_window_wraps (release (u64 - 1) 2 0) (release (u64 - 1) 0 0) refl

in_window-next_prerelease_example :
    in_window (next_prerelease (release 1 2 0) (codes "rc") []) (release 1 2 0) true ≡ true
in_window-next_prerelease_example =
    in_window-next_prerelease (release 1 2 0) (codes "rc") [] (ground arith) (ground arith)

match_range_iff_example :
    (match_range (codes "1.4.0") (codes "^1.2.0 || <1.0.0") ≡ (true, true)) ↔ (
      (v : ParsedVersion) × (parse_version (codes "1.4.0") ≡ some v)
      × (length (split_pair b'|' (codes "^1.2.0 || <1.0.0")) ≤ 4)
      × All (IsReadable v) (split_pair b'|' (codes "^1.2.0 || <1.0.0"))
      × Any (λ a. Holds v (comparators a)) (split_pair b'|' (codes "^1.2.0 || <1.0.0")))
match_range_iff_example = match_range_iff (codes "1.4.0") (codes "^1.2.0 || <1.0.0")

parse_version-IsWellFormed_example :
    IsWellFormed (record (release 1 2 3) { prerelease = codes "rc" ∷ codes "1" ∷ [] })
unfolding parse_version ssc_init.Version.Semver.without_build ssc_init.Version.Semver.parse_core
    ssc_init.Version.Semver.parse_release ssc_init.Version.Semver.parse_numbers
    ssc_init.Version.Semver.bad_number ssc_init.Version.Semver.valid_part
    ssc_init.Version.Semver.identifier ssc_init.Version.Semver.identifier_rune
    ssc_init.Base.trim_prefix ssc_init.Base.trim_space ssc_init.Base.trim_left
    ssc_init.Base.is_space ssc_init.Base.contains_any ssc_init.Base.has_prefix ssc_init.Base.cut
    ssc_init.Base.split ssc_init.Base.is_digit ssc_init.Base.parse_digits ssc_init.Base.parse_uint
parse_version-IsWellFormed_example =
    parse_version-IsWellFormed (codes "v1.2.3-rc.1+build")
      (record (release 1 2 3) { prerelease = codes "rc" ∷ codes "1" ∷ [] }) refl

compare_osv_version-IsLawfulWhere_example :
    IsLawfulWhere (compare_osv_version engines (codes "pkg:cargo/serde") ecosystem)
compare_osv_version-IsLawfulWhere_example =
    compare_osv_version-IsLawfulWhere engines compare_text-IsLawful (codes "pkg:cargo/serde")
      ecosystem

match-osv_expression_example :
    (((match engines left_pad (codes "1.4.0") (codes "osv:semver:>=1.0.0 <2.0.0")).0 ≡ true)
      ↔ All
          (Satisfies (compare_osv_version engines left_pad semver) (codes "1.4.0"))
          (fields (codes ">=1.0.0 <2.0.0")))
    × (((match engines left_pad (codes "1.4.0") (codes "osv:semver:>=1.0.0 <2.0.0")).1 ≡ true) ↔ (
        (o : Ordering) × (compare_osv_version engines left_pad semver
            (codes "1.4.0")
            (codes "1.4.0")
          ≡ some o)))
unfolding osv_expression ssc_init.Version.Osv.supported_osv_ecosystem ssc_init.Version.Osv.kind_of
    ssc_init.Version.Osv.valid_osv_comparators ssc_init.Version.Osv.osv_comparator
    ssc_init.Version.Range.operator_of ssc_init.Version.Osv.valid_field ssc_init.Base.to_lower
    ssc_init.Base.fields ssc_init.Base.split_spaces ssc_init.Base.contains
    ssc_init.Base.compare_text text_eq compare compare_osv_version ssc_init.Version.Osv.compare_in
    ssc_init.Version.Osv.semver_for ssc_init.Version.Osv.ecosystem_of
    ssc_init.Version.Semver.compare_numbers ssc_init.Version.Semver.compare_prerelease
    ssc_init.Base.compare_uint parse_version ssc_init.Version.Semver.without_build
    ssc_init.Version.Semver.parse_core ssc_init.Version.Semver.parse_release
    ssc_init.Version.Semver.parse_numbers ssc_init.Version.Semver.bad_number
    ssc_init.Version.Semver.valid_part ssc_init.Version.Semver.identifier
    ssc_init.Version.Semver.identifier_rune ssc_init.Base.trim_prefix ssc_init.Base.trim_space
    ssc_init.Base.trim_left ssc_init.Base.is_space ssc_init.Base.contains_any
    ssc_init.Base.has_prefix ssc_init.Base.cut ssc_init.Base.split ssc_init.Base.is_digit
    ssc_init.Base.parse_digits ssc_init.Base.parse_uint ssc_init.Version.Strict.parse_strict_semver
    ssc_init.Version.Strict.strict_build ssc_init.Version.Strict.strict_prerelease
    ssc_init.Version.Strict.strict_core ssc_init.Version.Strict.valid_semver_identifiers
    ssc_init.Version.Strict.decimal_without_leading_zero ssc_init.Version.Strict.all_digits
    ssc_init.Version.Strict.first_is_zero ssc_init.Version.Match.is_refused
    ssc_init.Version.Match.supported_asset
match-osv_expression_example =
    match-osv_expression engines left_pad (codes "1.4.0") (codes "SEMVER") (codes ">=1.0.0 <2.0.0")
      (codes "osv:semver:>=1.0.0 <2.0.0") semver refl refl refl

match-osv_open_start_example :
    match engines left_pad (codes "1.4.0") (codes "osv:semver:@start")
    ≡ elim (compare_osv_version engines left_pad semver (codes "1.4.0") (codes "1.4.0")) [
      | none ↦ (false, false)
      | some o ↦ (true, true)
    ]
unfolding osv_open_start ssc_init.Version.Osv.kind_of ssc_init.Version.Osv.supported_osv_ecosystem
    ssc_init.Version.Osv.ecosystem_of ssc_init.Base.to_lower ssc_init.Base.has_prefix text_eq
    ssc_init.Version.Match.is_refused ssc_init.Version.Match.supported_asset
match-osv_open_start_example =
    match-osv_open_start engines left_pad (codes "1.4.0") (codes "semver")
      (codes "osv:semver:@start") semver refl refl refl

match-osv_exact_example : match engines left_pad (codes "1.4.0") (codes "osv:exact:1.4.0") ≡ (
    if valid_exact_version engines left_pad (codes "1.4.0")
    then (text_eq (codes "1.4.0") (codes "1.4.0"), true)
    else (false, false))
unfolding osv_exact valid_exact_version text_eq ssc_init.Version.Osv.valid_in
    ssc_init.Version.Osv.ecosystem_of parse_version ssc_init.Version.Semver.without_build
    ssc_init.Version.Semver.parse_core ssc_init.Version.Semver.parse_release
    ssc_init.Version.Semver.parse_numbers ssc_init.Version.Semver.bad_number
    ssc_init.Version.Semver.valid_part ssc_init.Version.Semver.identifier
    ssc_init.Version.Semver.identifier_rune ssc_init.Base.trim_prefix ssc_init.Base.trim_space
    ssc_init.Base.trim_left ssc_init.Base.is_space ssc_init.Base.contains_any
    ssc_init.Base.has_prefix ssc_init.Base.cut ssc_init.Base.split ssc_init.Base.is_digit
    ssc_init.Base.parse_digits ssc_init.Base.parse_uint ssc_init.Version.Strict.parse_strict_semver
    ssc_init.Version.Strict.strict_build ssc_init.Version.Strict.strict_prerelease
    ssc_init.Version.Strict.strict_core ssc_init.Version.Strict.valid_semver_identifiers
    ssc_init.Version.Strict.decimal_without_leading_zero ssc_init.Version.Strict.all_digits
    ssc_init.Version.Strict.first_is_zero ssc_init.Version.Match.is_refused
    ssc_init.Version.Match.supported_asset
match-osv_exact_example =
    match-osv_exact engines left_pad (codes "1.4.0") (codes "1.4.0") (codes "osv:exact:1.4.0") refl
      refl
