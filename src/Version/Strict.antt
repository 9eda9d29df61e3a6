-- ===== src/Version/Strict.antt =====
-- internal/analyzer/version/osv.go: `parseStrictSemver`.
use ssc_init.Base.{
  Bool, true, false, not, ◌&&◌, ◌||◌, Option, none, some, [], ◌∷◌, length, is_empty, all, ltb, ◌==◌,
  if◌then◌else◌, ◌then◌, Text, codes, byte_length, has_prefix, contains_any, split, cut, is_digit,
}
use ssc_init.Version.Semver.{ParsedVersion, identifier, parse_version}

-- osv.go: the strict form of SemVer.
unfoldable pub all_digits : Text → Bool
all_digits = all is_digit

unfoldable pub first_is_zero : Text → Bool
first_is_zero [] = false
first_is_zero (c ∷ cs) = c == 48

unfoldable pub valid_semver_identifiers : Text → Bool → Bool
valid_semver_identifiers value prerelease =
    not (is_empty value)
    && all
        (λ part. not (
          is_empty part
          || not (identifier part)
          || prerelease && all_digits part && ltb 1 (byte_length part) && first_is_zero part))
        (split b'.' value)

unfoldable pub decimal_without_leading_zero : Text → Bool
decimal_without_leading_zero value =
    not (is_empty value)
    && all_digits value
    && (byte_length value == 1 || not (first_is_zero value))

unfoldable pub strict_build : Text → Option Text
strict_build core = elim (cut b'+' core) [
  | none ↦ some core
  | some (a, b) ↦ if valid_semver_identifiers b false then some a else none
]

unfoldable pub strict_prerelease : Text → Option Text
strict_prerelease core = elim (cut b'-' core) [
  | none ↦ some core
  | some (a, b) ↦ if valid_semver_identifiers b true then some a else none
]

unfoldable pub strict_core : Text → Bool
strict_core core =
    length (split b'.' core) == 3 && all decimal_without_leading_zero (split b'.' core)

unfoldable pub parse_strict_semver : Text → Option ParsedVersion
parse_strict_semver value =
    if is_empty value || has_prefix value (codes "v") || contains_any value (codes " /\\")
    then none
    else elim (strict_build value) [
      | none ↦ none
      | some without ↦ elim (strict_prerelease without) [
        | none ↦ none
        | some core ↦ if strict_core core then parse_version value else none
      ]
    ]
