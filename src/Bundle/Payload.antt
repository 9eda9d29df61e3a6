-- ===== src/Bundle/Payload.antt =====
-- internal/bundle/ti.go and policy.go: the checks of a bundle's payload.
pub mod Accepted
pub mod Records
use ssc_init.Base.{
  ℕ, zero, suc, ◌+◌, ◌-◌, ◌*◌, Bool, true, false, not, ◌&&◌, ◌||◌, Option, none, some, List, [],
  ◌∷◌, any, all, length, is_empty, ltb, leb, ◌==◌, if◌then◌else◌, Text, codes, text_eq, byte_length,
  is_digit, cut,
}
use ssc_init.Base.Integers.{ℤ, is_within}
use ssc_init.Finding.Bundle.{
  TiRecord, DenyRule, AllowRule, ExceptionRule, PolicyTest, Retention, PolicyPayload,
}
use ssc_init.Bundle.Library.{Library, Bytes, Url, day}

unfoldable pub one_of : Text → List Text → Bool
one_of value allowed = any (text_eq value) allowed

-- `\AT[0-9]{4}(?:\.[0-9]{3})?\z`
unfoldable pub is_technique : Text → Bool
is_technique [] = false
is_technique (c ∷ cs) = c == 84 && tail (cut 46 cs)
  where
    tail : Option (Text × Text) → Bool
    tail none = length cs == 4 && all is_digit cs
    tail (some (number, part)) =
        length number == 4 && all is_digit number && length part == 3 && all is_digit part

-- `_, duplicate := seen[id]`
unfoldable pub seen_before : Text → List Text → Bool
seen_before id seen = any (text_eq id) seen

abbrev pub max_organization_exception : ℕ
max_organization_exception = 90 * day

-- Both instants are read, and the second is not before the first.
unfoldable pub in_order : Option ℕ → Option ℕ → Bool
in_order (some retrieved) (some until) = leb retrieved until
in_order _ _ = false

-- `err == nil && expiresAt.After(generatedAt) && expiresAt.Sub(generatedAt) <= maxOrganizationException`
unfoldable pub valid_expiry : ℕ → Option ℕ → Bool
valid_expiry generated_at none = false
valid_expiry generated_at (some expires_at) =
    ltb generated_at expires_at && leb (expires_at - generated_at) max_organization_exception

module _ (lib : Library) where
  unfoldable pub bounded_public_value : Text → ℕ → Bool
  bounded_public_value value maximum =
      not (is_empty value) && leb (byte_length value) maximum && not (lib.is_sensitive value)

  unfoldable pub valid_sha256 : Text → Bool
  valid_sha256 value = elim (lib.decode_hex value) [
    | none ↦ false
    | some decoded ↦ length decoded == 32
  ]

  unfoldable pub valid_source : Text → Bool
  valid_source source = elim (lib.parse_url source) [
    | none ↦ false
    | some url ↦
        text_eq url.scheme (codes "https")
        && not (is_empty url.host)
        && not url.has_user
        && leb (byte_length source) 2048
        && not (lib.is_sensitive source)
  ]

  -- The checks of one record, but for its identifier's being new.
  unfoldable pub valid_record : TiRecord → Bool
  valid_record r =
      bounded_public_value r.id 256
      && bounded_public_value r.asset_id 1024
      && one_of r.verdict (
          codes "known-malicious"
          ∷ codes "behaviorally-malicious"
          ∷ codes "suspicious"
          ∷ codes "needs-review"
          ∷ codes "no-finding"
          ∷ [])
      && one_of r.confidence (codes "low" ∷ codes "medium" ∷ codes "high" ∷ [])
      && bounded_public_value r.license 256
      && not (is_empty r.source_urls)
      && leb (length r.source_urls) 32
      && leb (length r.campaign_ids) 64
      && leb (length r.attack_techniques) 64
      && (is_empty r.sha256 || valid_sha256 r.sha256)
      && in_order (lib.parse_time r.retrieved_at) (lib.parse_time r.valid_until)
      && all valid_source r.source_urls
      && all (λ value. bounded_public_value value 256) r.campaign_ids
      && all is_technique r.attack_techniques

  -- The loop over the records, with the identifiers seen so far.
  unfoldable pub valid_records : List Text → List TiRecord → Bool
  valid_records seen [] = true
  valid_records seen (r ∷ rest) =
      let later = valid_records (r.id ∷ seen) rest in
      if valid_record r && not (seen_before r.id seen) then later else false

  unfoldable pub validate_ti_payload : List TiRecord → Bool
  validate_ti_payload records = leb (length records) 100000 && valid_records [] records

  -- `validPolicyIdentity`, with the identifiers seen after it.
  unfoldable pub valid_policy_identity : Text → Text → List Text → Option (List Text)
  valid_policy_identity id asset_id seen =
      if not (bounded_public_value id 256) || not (bounded_public_value asset_id 1024)
      then none
      else if seen_before id seen
      then none
      else some (id ∷ seen)

  -- The loop over the denied assets: the identifiers seen, and none where it returns.
  unfoldable pub check_denies : List Text → List DenyRule → Option (List Text)
  check_denies ids [] = some ids
  check_denies ids (rule ∷ rest) =
      let later = check_denies (rule.id ∷ ids) rest in
      elim (valid_policy_identity rule.id rule.asset_id ids) [ none ↦ none | some _ ↦ later ]

  unfoldable pub check_allows : List DenyRule → List Text → List AllowRule → Option (List Text)
  check_allows denies ids [] = some ids
  check_allows denies ids (allow ∷ rest) =
      let later = check_allows denies (allow.id ∷ ids) rest in
      elim (valid_policy_identity allow.id allow.asset_id ids) [
        | none ↦ none
        | some _ ↦
            if not (valid_sha256 allow.sha256)
            then none
            else if any (λ rule. text_eq rule.asset_id allow.asset_id) denies
            then none
            else later
      ]

  unfoldable pub valid_exception : ℕ → ExceptionRule → Bool
  valid_exception generated_at e =
      bounded_public_value e.rule_id 256
      && bounded_public_value e.approver 256
      && bounded_public_value e.reason 1024
      && bounded_public_value e.ticket 256
      && not (text_eq e.rule_id (codes "known-malicious"))
      && valid_expiry generated_at (lib.parse_time e.expires_at)

  unfoldable pub check_exceptions : ℕ → List Text → List ExceptionRule → Option (List Text)
  check_exceptions generated_at ids [] = some ids
  check_exceptions generated_at ids (e ∷ rest) =
      let later = check_exceptions generated_at (e.id ∷ ids) rest in
      elim (valid_policy_identity e.id e.asset_id ids) [
        | none ↦ none
        | some _ ↦ if valid_exception generated_at e then later else none
      ]

  unfoldable pub valid_tests : List Text → List PolicyTest → Bool
  valid_tests seen [] = true
  valid_tests seen (test ∷ rest) =
      let later = valid_tests (test.name ∷ seen) rest in
      if bounded_public_value test.name 256
        && bounded_public_value test.asset_id 1024
        && (is_empty test.want_rule || bounded_public_value test.want_rule 256)
        && not (seen_before test.name seen)
      then later
      else false

  unfoldable pub valid_retention : Option Retention → Bool
  valid_retention none = true
  valid_retention (some r) =
      is_within r.snapshots_days 1 3650
      && is_within r.history_days 1 3650
      && is_within r.incidents_days 1 3650

  -- The first loops of `validatePolicyPayload`: the identifiers of all the rules.
  unfoldable pub check_rules : PolicyPayload → ℕ → Option (List Text)
  check_rules p generated_at = elim (check_denies [] p.denies) [
    | none ↦ none
    | some denied ↦ elim (check_allows p.denies denied p.allows) [
      | none ↦ none
      | some allowed ↦ check_exceptions generated_at allowed p.exceptions
    ]
  ]

  unfoldable pub validate_policy_payload : PolicyPayload → ℕ → Bool
  validate_policy_payload p generated_at =
      if ltb 10000 (length p.denies)
        || ltb 10000 (length p.allows)
        || ltb 10000 (length p.exceptions)
        || ltb 10000 (length p.tests)
      then false
      else elim (check_rules p generated_at) [
        | none ↦ false
        | some _ ↦ valid_tests [] p.tests && valid_retention p.retention
      ]
