-- ===== src/Tests/Payloads.antt =====
-- internal/bundle/policy_test.go, ti_test.go and model_test.go: payloads at concrete inputs.
use ssc_init.Base.{
  List, ◌↔◌, map, length, cut, not, ◌+◌, true, false, none, [], ◌∷◌, ◌≡◌, refl, Text, codes,
  text_eq, is_digit,
}
use ssc_init.Base.{◌≤◌, IsDistinct, All}
use ssc_init.Finding.Bundle.{TiRecord, PolicyPayload}
use ssc_init.Bundle.Payload.{
  valid_record, one_of, in_order, valid_source, is_technique, validate_policy_payload, check_rules,
  check_denies, check_allows, check_exceptions, valid_policy_identity, bounded_public_value,
  seen_before, valid_sha256, valid_exception, valid_expiry, valid_tests, valid_retention,
}
use ssc_init.Bundle.Payload.Records.{validate_ti_payload_iff}
use ssc_init.Bundle.Payload.Accepted.{AreApart, IsShort, validate_policy_payload-IsDistinct}
use ssc_init.Bundle.Tokens.{has_duplicate_object_key}
use ssc_init.Bundle.Tokens.Trees.{
  object, array, member, item, atom, no_members, no_items, tokens_of, has_distinct_keys,
  has_duplicate_object_key_iff,
}
use ssc_init.Bundle.Library.{zero_time}
use ssc_init.Bundle.Payload.{validate_ti_payload, valid_records}
use ssc_init.Tests.Bundles.{toy}

abbrev toy_policy : PolicyPayload
toy_policy = record {
  denies = record { id = codes "d"; asset_id = codes "npm:evil" } ∷ [];
  allows = record { id = codes "a"; asset_id = codes "npm:good"; sha256 = codes "00" } ∷ [];
  exceptions =
      record {
        id = codes "e";
        rule_id = codes "r";
        asset_id = codes "npm:old";
        approver = codes "x";
        reason = codes "y";
        ticket = codes "z";
        expires_at = codes "soon";
      }
      ∷ [];
  tests = [];
  retention = none;
}

accepted_policy : validate_policy_payload toy toy_policy (zero_time + 1) ≡ true
unfolding validate_policy_payload check_rules check_denies check_allows check_exceptions
    valid_policy_identity bounded_public_value seen_before valid_sha256 valid_exception valid_expiry
    valid_tests valid_retention text_eq
accepted_policy = refl

validate_policy_payload-IsDistinct_example :
    IsDistinct (codes "e" ∷ codes "a" ∷ codes "d" ∷ [])
    × All (AreApart toy toy_policy.denies) toy_policy.allows
    × All (IsShort toy (zero_time + 1)) toy_policy.exceptions
validate_policy_payload-IsDistinct_example =
    validate_policy_payload-IsDistinct toy toy_policy (zero_time + 1) accepted_policy

has_duplicate_object_key_iff_example :
    has_duplicate_object_key (record {
      list =
          tokens_of
            (array (
              item
                (object (
                  member
                    (codes "a")
                    atom
                    (member (codes "b") atom (member (codes "a") atom no_members))))
                no_items))
            [];
      at_end = true;
    })
    ≡ not (
        has_distinct_keys (
          array (
            item
              (object (
                member
                  (codes "a")
                  atom
                  (member (codes "b") atom (member (codes "a") atom no_members))))
              no_items)))
has_duplicate_object_key_iff_example = has_duplicate_object_key_iff (
    array (
      item
        (object
          (member (codes "a") atom (member (codes "b") atom (member (codes "a") atom no_members))))
        no_items))

abbrev record_of : Text → TiRecord
record_of id = record {
  id = id;
  asset_id = codes "npm:evil";
  version_range = [];
  sha256 = [];
  verdict = codes "known-malicious";
  confidence = codes "high";
  source_urls = codes "https://example.org" ∷ [];
  retrieved_at = codes "now";
  valid_until = codes "later";
  license = codes "MIT";
  redistributable = true;
  withdrawn = false;
  campaign_ids = [];
  attack_techniques = codes "T1195.002" ∷ [];
}

abbrev toy_records : List TiRecord
toy_records = record_of (codes "1") ∷ record_of (codes "2") ∷ []

validate_ti_payload_iff_example : (validate_ti_payload toy toy_records ≡ true) ↔ (
    (length toy_records ≤ 100000)
    × All (λ r. valid_record toy r ≡ true) toy_records
    × IsDistinct (map (λ r. r.id) toy_records))
validate_ti_payload_iff_example = validate_ti_payload_iff toy toy_records

-- The two records pass their checks, and one of them twice does not.
toy_records_valid : validate_ti_payload toy toy_records ≡ true
unfolding validate_ti_payload valid_records valid_record bounded_public_value one_of seen_before
    valid_sha256 in_order valid_source is_technique cut is_digit text_eq
toy_records_valid = refl

twice_invalid : validate_ti_payload toy (record_of (codes "1") ∷ record_of (codes "1") ∷ []) ≡ false
unfolding validate_ti_payload valid_records valid_record bounded_public_value one_of seen_before
    valid_sha256 in_order valid_source is_technique cut is_digit text_eq
twice_invalid = refl
