-- ===== src/Bundle/Payload/Accepted.antt =====
-- internal/bundle/policy.go: what the validation of a policy payload ensures.
use ssc_init.Base.{
  ℕ, ◌+◌, ◌*◌, ◌≤◌, ◌<◌, true, false, Option, none, some, List, [], ◌∷◌, ◌≡◌, ◌≢◌, refl, inl, inr,
  map, any, All, Text, codes, text_eq, text_eq_iff, Option-cases, arith, IsDistinct,
}
use ssc_init.Finding.Bundle.{DenyRule, AllowRule, ExceptionRule, PolicyPayload}
use ssc_init.Bundle.Library.{Library, day}
use ssc_init.Bundle.Payload.{
  seen_before, valid_policy_identity, check_denies, check_allows, check_exceptions, check_rules,
  valid_exception, valid_expiry, validate_policy_payload,
}

-- The list in reverse, in front of another.
abbrev pub onto : List Text → List Text → List Text
onto [] ys = ys
onto (x ∷ xs) ys = onto xs (x ∷ ys)

fresh_lem : (id : Text) (seen : List Text) → seen_before id seen ≡ false → All (λ y. id ≢ y) seen
unfolding seen_before
fresh_lem id [] h = tt
fresh_lem id (y ∷ seen) h =
    (λ e. ground (arith, text_eq_iff id y), fresh_lem id seen (unfold seen_before in ground arith))

module _ (lib : Library) where
  identity_fresh :
      (id asset_id : Text) (seen out : List Text)
      → valid_policy_identity lib id asset_id seen ≡ some out
      → All (λ y. id ≢ y) seen
  unfolding valid_policy_identity
  identity_fresh id asset_id seen out h = fresh_lem id seen (ground arith)

  check_denies-IsDistinct :
      (ids out : List Text) (rules : List DenyRule)
      → IsDistinct ids
      → check_denies lib ids rules ≡ some out
      → IsDistinct out × (out ≡ onto (map (λ r. r.id) rules) ids)
  unfolding check_denies
  check_denies-IsDistinct ids out [] d h =
      let same : ids ≡ out = ground arith in rw (← same) (d, refl)
  check_denies-IsDistinct ids out (rule ∷ rest) d h =
      elim (Option-cases (valid_policy_identity lib rule.id rule.asset_id ids)) [
        | inl n ↦ ground arith
        | inr (o, e) ↦
            check_denies-IsDistinct (rule.id ∷ ids) out rest
              (identity_fresh rule.id rule.asset_id ids o e, d) (ground arith)
      ]

  -- The rules that are denied and the assets that an allowance is for are apart.
  abbrev pub AreApart : List DenyRule → AllowRule → Type 0
  AreApart denies allow = All (λ rule. rule.asset_id ≢ allow.asset_id) denies

  apart_lem :
      (denies : List DenyRule) (allow : AllowRule)
      → any (λ rule. text_eq rule.asset_id allow.asset_id) denies ≡ false
      → AreApart denies allow
  apart_lem [] allow h = tt
  apart_lem (rule ∷ denies) allow h = (
    λ e. ground (arith, text_eq_iff rule.asset_id allow.asset_id),
    apart_lem denies allow (ground arith),
  )

  check_allows-IsDistinct :
      (denies : List DenyRule) (ids out : List Text) (rules : List AllowRule)
      → IsDistinct ids
      → check_allows lib denies ids rules ≡ some out
      → IsDistinct out × (out ≡ onto (map (λ r. r.id) rules) ids) × All (AreApart denies) rules
  unfolding check_allows
  check_allows-IsDistinct denies ids out [] d h =
      let same : ids ≡ out = ground arith in rw (← same) (d, refl, tt)
  check_allows-IsDistinct denies ids out (allow ∷ rest) d h =
      elim (Option-cases (valid_policy_identity lib allow.id allow.asset_id ids)) [
        | inl n ↦ ground arith
        | inr (o, e) ↦
            let later =
              check_allows-IsDistinct denies (allow.id ∷ ids) out rest
                (identity_fresh allow.id allow.asset_id ids o e, d) (ground arith) in
            (later.0, later.1, (apart_lem denies allow (ground arith), later.2))
      ]

  -- An exception of an organization: it has a date, after the bundle's and at most 90 days after it, and is
  -- not for known malware.
  abbrev pub IsShort : ℕ → ExceptionRule → Type 0
  IsShort generated_at e =
      ((t : ℕ) × (lib.parse_time e.expires_at ≡ some t)
        × (generated_at < t)
        × (t ≤ generated_at + 90 * day))
      × (text_eq e.rule_id (codes "known-malicious") ≡ false)

  valid_exception-IsShort :
      (generated_at : ℕ) (e : ExceptionRule)
      → valid_exception lib generated_at e ≡ true
      → IsShort generated_at e
  unfolding valid_exception valid_expiry
  valid_exception-IsShort generated_at e h =
      (dated (lib.parse_time e.expires_at) refl (ground arith), ground arith)
    where
      dated :
          (o : Option ℕ)
          → lib.parse_time e.expires_at ≡ o
          → valid_expiry generated_at o ≡ true
          → (t : ℕ) × (lib.parse_time e.expires_at ≡ some t)
            × (generated_at < t)
            × (t ≤ generated_at + 90 * day)
      dated none same v = cc
      dated (some t) same v = (t, same, ground arith, ground arith)

  check_exceptions-IsDistinct :
      (generated_at : ℕ) (ids out : List Text) (rules : List ExceptionRule)
      → IsDistinct ids
      → check_exceptions lib generated_at ids rules ≡ some out
      → IsDistinct out × (out ≡ onto (map (λ r. r.id) rules) ids) × All (IsShort generated_at) rules
  unfolding check_exceptions
  check_exceptions-IsDistinct generated_at ids out [] d h =
      let same : ids ≡ out = ground arith in rw (← same) (d, refl, tt)
  check_exceptions-IsDistinct generated_at ids out (e ∷ rest) d h =
      elim (Option-cases (valid_policy_identity lib e.id e.asset_id ids)) [
        | inl n ↦ ground arith
        | inr (o, x) ↦
            let later =
              check_exceptions-IsDistinct generated_at (e.id ∷ ids) out rest
                (identity_fresh e.id e.asset_id ids o x, d) (ground arith) in
            (later.0, later.1, (valid_exception-IsShort generated_at e (ground arith), later.2))
      ]

  -- In a policy payload that is accepted, no two rules share an identifier, of whichever kinds they
  -- are; no asset is both denied and allowed; every exception ends after the bundle is generated and
  -- at most 90 days after it, and none is for known malware.
  pub validate_policy_payload-IsDistinct :
      (p : PolicyPayload) (generated_at : ℕ)
      → validate_policy_payload lib p generated_at ≡ true
      → IsDistinct (
          onto
            (map (λ r. r.id) p.exceptions)
            (onto (map (λ r. r.id) p.allows) (onto (map (λ r. r.id) p.denies) [])))
        × All (AreApart p.denies) p.allows
        × All (IsShort generated_at) p.exceptions
  unfolding validate_policy_payload check_rules
  validate_policy_payload-IsDistinct p generated_at h =
      elim (Option-cases (check_denies lib [] p.denies)) [
        | inl n ↦ ground arith
        | inr (denied, e) ↦ elim (Option-cases (check_allows lib p.denies denied p.allows)) [
          | inl n ↦ ground arith
          | inr (allowed, e') ↦
              elim (Option-cases (check_exceptions lib generated_at allowed p.exceptions)) [
                | inl n ↦ ground arith
                | inr (out, e'') ↦
                    let first = check_denies-IsDistinct [] denied p.denies tt e in
                    let second =
                      check_allows-IsDistinct p.denies denied allowed p.allows first.0 e' in
                    let third =
                      check_exceptions-IsDistinct generated_at allowed out p.exceptions second.0
                        e'' in
                    (rw (← first.1) (rw (← second.1) (rw (← third.1) third.0)), second.2, third.2)
              ]
        ]
      ]
