-- ===== src/Version/Osv.antt =====
-- internal/analyzer/version/osv.go: OSV selectors. A selector is validated, tagged with its kind and
-- matched in the order of its ecosystem.
pub mod Order
use ssc_init.Base.{
  ℕ, ◌+◌, ◌≡◌, Ordering, Bool, true, false, not, ◌&&◌, ◌||◌, Option, none, some, List, [], ◌∷◌,
  ◌++◌, length, is_empty, all, ltb, leb, ◌==◌, if◌then◌else◌, opposite, lt, eq, ◌≢◌, Text, codes,
  byte_length, text_eq, has_prefix, trim_prefix, contains, contains_any, trim_space, fields, cut,
  to_lower,
}
use ssc_init.Version.Semver
use ssc_init.Version.Strict.{parse_strict_semver}
use ssc_init.Version.Pep440
use ssc_init.Version.Pep440.{Groups, parse_pep440, compare_pep440}
use ssc_init.Version.Range.{
  Operator, at_least, at_most, above, below, exactly, comparison_matches, operator_of,
}

-- What the package calls and does not implement: `IsValid` and `Compare` of golang.org/x/mod/semver, and
-- the engine of `pep440Pattern.FindStringSubmatch`. `semver.Compare` is documented to be a total
-- order's comparison.
pub record Engines : Type 0 where
  pub go_valid : Text → Bool
  pub go_compare : Text → Text → Ordering
  pub pep440_find : Text → Option Groups

abbrev pub max_range_bytes : ℕ
max_range_bytes = 256

abbrev pub osv_prefix : Text
osv_prefix = codes "osv:"

abbrev pub open_start : Text
open_start = codes "@start"

-- The results of `ecosystemOf`; `unknown` is the empty string.
pub data Ecosystem : Type 0 where
  npm pypi go cargo unknown : Ecosystem

unfoldable pub ecosystem_of : Text → Ecosystem
ecosystem_of asset_id =
    if has_prefix asset_id (codes "pkg:npm/")
    then npm
    else if has_prefix asset_id (codes "pkg:pypi/")
    then pypi
    else if has_prefix asset_id (codes "pkg:go/") || has_prefix asset_id (codes "pkg:golang/")
    then go
    else if has_prefix asset_id (codes "pkg:cargo/")
    then cargo
    else unknown

abbrev pub is_known : Ecosystem → Bool
is_known unknown = false
is_known _ = true

unfoldable pub supported_osv_ecosystem : Text → Bool
supported_osv_ecosystem asset_id = is_known (ecosystem_of asset_id)

-- `kind`: the two kinds of range that are compared.
pub data Kind : Type 0 where
  semver ecosystem : Kind

abbrev pub kind_text : Kind → Text
kind_text semver = codes "semver"
kind_text ecosystem = codes "ecosystem"

unfoldable pub kind_of : Text → Option Kind
kind_of text =
    if text_eq text (codes "semver")
    then some semver
    else if text_eq text (codes "ecosystem")
    then some ecosystem
    else none

unfoldable pub go_semver : Text → Text
go_semver value = if has_prefix value (codes "v") then value else codes "v" ++ value

unfoldable pub semver_for : Ecosystem → Text → Text
semver_for go value = trim_prefix value (codes "v")
semver_for _ value = value

-- The operator and the boundary of a field; `none` where the Go function returns false.
unfoldable pub osv_comparator : Text → Option (Operator × Text)
osv_comparator field =
    if has_prefix field (codes ">=")
    then boundary at_least (trim_prefix field (codes ">="))
    else if has_prefix field (codes "<=")
    then boundary at_most (trim_prefix field (codes "<="))
    else if has_prefix field (codes ">")
    then boundary above (trim_prefix field (codes ">"))
    else if has_prefix field (codes "<")
    then boundary below (trim_prefix field (codes "<"))
    else if has_prefix field (codes "=")
    then boundary exactly (trim_prefix field (codes "="))
    else none
  where
    boundary : Operator → Text → Option (Operator × Text)
    boundary op value = if is_empty value then none else some (op, value)

-- Two parsed values are compared if both are there.
abbrev pub compare_parsed {ℓ} :
    {A : Type ℓ} → (A → A → Ordering) → Option A → Option A → Option Ordering
compare_parsed cmp (some l) (some r) = some (cmp l r)
compare_parsed cmp _ _ = none

module _ (e : Engines) where
  open e use {go_valid, go_compare, pep440_find}

  unfoldable pub go_parse : Text → Option Text
  go_parse value = if go_valid (go_semver value) then some (go_semver value) else none

  -- `compareOSVVersion`; `none` where it returns false.
  unfoldable pub compare_in : Ecosystem → Kind → Text → Text → Option Ordering
  compare_in asset semver left right =
      compare_parsed Semver.compare (parse_strict_semver (semver_for asset left))
        (parse_strict_semver (semver_for asset right))
  compare_in npm ecosystem left right =
      compare_parsed Semver.compare (parse_strict_semver left) (parse_strict_semver right)
  compare_in cargo ecosystem left right =
      compare_parsed Semver.compare (parse_strict_semver left) (parse_strict_semver right)
  compare_in go ecosystem left right = compare_parsed go_compare (go_parse left) (go_parse right)
  compare_in pypi ecosystem left right =
      compare_parsed compare_pep440 (parse_pep440 pep440_find left) (parse_pep440 pep440_find right)
  compare_in unknown ecosystem left right = none

  unfoldable pub compare_osv_version : Text → Kind → Text → Text → Option Ordering
  compare_osv_version asset_id = compare_in (ecosystem_of asset_id)

  -- The test of one field of a selector.
  unfoldable pub valid_field : Text → Kind → Text → Bool
  valid_field asset_id kind field = elim (osv_comparator field) [
    | none ↦ false
    | some (op, boundary) ↦ elim (compare_osv_version asset_id kind boundary boundary) [
      | none ↦ false
      | some o ↦ true
    ]
  ]

  unfoldable pub valid_osv_comparators : Text → Kind → Text → Bool
  valid_osv_comparators asset_id kind expression =
      not (contains expression open_start)
      && not (
          length (fields expression) == 0
          || ltb 2 (length (fields expression))
          || contains expression (codes ",")
          || contains expression (codes "||"))
      && all (valid_field asset_id kind) (fields expression)

  unfoldable pub osv_expression : Text → Text → Text → Option Text
  osv_expression asset_id range_type expression = elim (kind_of (to_lower range_type)) [
    | none ↦ none
    | some kind ↦
        let encoded = osv_prefix ++ kind_text kind ++ codes ":" ++ expression in
        if not (supported_osv_ecosystem asset_id) || is_empty expression
        then none
        else if ltb max_range_bytes (byte_length encoded)
            || not (valid_osv_comparators asset_id kind expression)
        then none
        else some encoded
  ]

  unfoldable pub osv_open_start : Text → Text → Option Text
  osv_open_start asset_id range_type = elim (kind_of (to_lower range_type)) [
    | none ↦ none
    | some kind ↦
        if not (supported_osv_ecosystem asset_id)
        then none
        else some (osv_prefix ++ kind_text kind ++ codes ":" ++ open_start)
  ]

  unfoldable pub valid_in : Ecosystem → Text → Bool
  valid_in npm value = elim (parse_strict_semver value) [ none ↦ false | some v ↦ true ]
  valid_in cargo value = elim (parse_strict_semver value) [ none ↦ false | some v ↦ true ]
  valid_in go value = go_valid (go_semver value)
  valid_in pypi value = elim (parse_pep440 pep440_find value) [ none ↦ false | some v ↦ true ]
  valid_in unknown value = false

  unfoldable pub valid_exact_version : Text → Text → Bool
  valid_exact_version asset_id value =
      if is_empty value
        || ltb 128 (byte_length value)
        || not (text_eq (trim_space value) value)
        || contains_any value (codes " /\\")
      then false
      else valid_in (ecosystem_of asset_id) value

  unfoldable pub osv_exact : Text → Text → Option Text
  osv_exact asset_id version =
      let expression = osv_prefix ++ codes "exact:" ++ version in
      if not (valid_exact_version asset_id version)
      then none
      else if ltb max_range_bytes (byte_length expression)
      then none
      else some expression

  unfoldable pub match_osv_exact : Text → Text → Text → Bool × Bool
  match_osv_exact asset_id candidate listed =
      if not (valid_exact_version asset_id listed) || not (valid_exact_version asset_id candidate)
      then (false, false)
      else (text_eq candidate listed, true)

  -- The loop over the fields: the first one that is not valid or does not match ends it.
  unfoldable pub match_osv_fields : Text → Kind → Text → List Text → Bool × Bool
  match_osv_fields asset_id kind value [] = (true, true)
  match_osv_fields asset_id kind value (field ∷ rest) =
      let later = match_osv_fields asset_id kind value rest in
      elim (osv_comparator field) [
        | none ↦ (false, false)
        | some (op, boundary) ↦ elim (compare_osv_version asset_id kind value boundary) [
          | none ↦ (false, false)
          | some o ↦ if comparison_matches o op then later else (false, true)
        ]
      ]

  unfoldable pub match_kind : Text → Text → Kind → Text → Bool × Bool
  match_kind asset_id value kind expression =
      if text_eq expression open_start
      then elim (compare_osv_version asset_id kind value value) [
        | none ↦ (false, false)
        | some o ↦ (true, true)
      ]
      else if not (valid_osv_comparators asset_id kind expression)
      then (false, false)
      else match_osv_fields asset_id kind value (fields expression)

  unfoldable pub match_osv_expression : Text → Text → Text → Bool × Bool
  match_osv_expression asset_id value encoded = elim (cut b':' (trim_prefix encoded osv_prefix)) [
    | none ↦ (false, false)
    | some (kind, expression) ↦
        if text_eq kind (codes "exact")
        then match_osv_exact asset_id value expression
        else elim (kind_of kind) [
          | none ↦ (false, false)
          | some k ↦ match_kind asset_id value k expression
        ]
  ]
