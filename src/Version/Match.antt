-- ===== src/Version/Match.antt =====
-- internal/analyzer/version/range.go: `Match`, over both kinds of expression.
pub mod Fields
pub mod Selectors
use ssc_init.Base.{
  Bool, false, not, ◌||◌, [], ltb, ◌==◌, any, is_empty, if◌then◌else◌, Text, codes, byte_length,
  has_prefix,
}
use ssc_init.Version.Range.{match_range}
use ssc_init.Version.Osv.{Engines, max_range_bytes, osv_prefix, match_osv_expression}

unfoldable pub supported_asset : Text → Bool
supported_asset asset_id =
    has_prefix asset_id (codes "pkg:npm/")
    || has_prefix asset_id (codes "pkg:pypi/")
    || has_prefix asset_id (codes "pkg:go/")
    || has_prefix asset_id (codes "pkg:golang/")
    || has_prefix asset_id (codes "pkg:cargo/")
    || has_prefix asset_id (codes "pkg:brew/")

-- What `Match` refuses to read.
unfoldable pub is_refused : Text → Text → Text → Bool
is_refused asset_id value expression =
    not (supported_asset asset_id)
    || is_empty value
    || is_empty expression
    || ltb 128 (byte_length value)
    || ltb max_range_bytes (byte_length expression)
    || any (λ c. c == 0) expression

-- `Match`: whether the version matches, and whether the expression could be read.
unfoldable pub match : Engines → Text → Text → Text → Bool × Bool
match e asset_id value expression =
    if is_refused asset_id value expression
    then (false, false)
    else if has_prefix expression osv_prefix
    then match_osv_expression e asset_id value expression
    else match_range value expression
