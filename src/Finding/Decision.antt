-- ===== src/Finding/Decision.antt =====
-- internal/finding/decision.go: `Decide`, one decision for each asset.
pub mod Malicious
pub mod Unique
pub mod Grounds
mod Valid
pub mod Checked
use ssc_init.Base.{
  ℕ, ◌+◌, Bool, true, false, not, ◌&&◌, ◌||◌, Option, none, some, List, [], ◌∷◌, ◌++◌, map, any,
  is_empty, ltb, ◌==◌, if◌then◌else◌, Text, codes, text_eq, compare_text, to_lower, Dict, get, put,
  get_all, add, keys, sort_by, sorted_unique, set_of, sort_texts,
}
use ssc_init.Model.{
  Asset, Inventory, Verdict, Severity, Confidence, Action, Family, ti, policy, BundleReference,
  Finding,
}
use ssc_init.Finding.Bundle.{
  Freshness, stale, expired, DenyRule, AllowRule, ExceptionRule, PolicyPayload, ActiveBundle,
}
use ssc_init.Policy.Document.{Violation}
use ssc_init.Finding.Rules.{
  DecisionInput, Allow, Exempt, Runtime, is_known_malicious, Rules, Facts, facts,
}
use ssc_init.Finding.Rank.{verdict_rank, equal_fold, join}

unfoldable pub matching_allows : List Allow → Text → List Text
matching_allows [] digest = []
matching_allows (rule ∷ rest) digest =
    let later = matching_allows rest digest in
    if not (is_empty digest) && equal_fold rule.digest digest then rule.id ∷ later else later

unfoldable pub exact_allows : List Allow → Text → List Text
exact_allows rules digest = sorted_unique (matching_allows rules digest)

unfoldable pub violation_ids : List Violation → List Text
violation_ids violations = sorted_unique (map (λ v. v.rule_id) violations)

unfoldable pub exempted : List Exempt → List Text → List Text
exempted [] ids = []
exempted (rule ∷ rest) ids =
    let later = exempted rest ids in
    if any (λ id. text_eq id rule.rule_id) ids then rule.id ∷ later else later

unfoldable pub matching_exceptions : List Exempt → List Text → List Text
matching_exceptions rules ids = sorted_unique (exempted rules ids)

-- `fmt.Sprintf("level:%d", level)`, for a level of one digit.
abbrev pub level_text : ℕ → Text
level_text level = codes "level:" ++ (48 + level) ∷ []

abbrev pub is_dated : Freshness → Bool
is_dated stale = true
is_dated expired = true
is_dated _ = false

unfoldable pub references : Option ActiveBundle → List BundleReference
references none = []
references (some a) = record { family = policy; sequence = a.sequence; digest = a.digest } ∷ []

unfoldable pub bundle_confidence : Option ActiveBundle → Confidence
bundle_confidence none = Confidence.high
bundle_confidence (some a) = if is_dated a.freshness then Confidence.medium else Confidence.high

-- What a prior finding becomes at level 1.
abbrev pub confirmed : Finding → Finding
confirmed prior = record prior { level = 1; action = Action.advisory }

-- The union of the keys, in order.
unfoldable pub ordered_ids : Facts → List Text
ordered_ids f = sort_texts (set_of (keys f.assets ++ keys f.existing ++ keys f.local))

-- What an iteration of the loop appends.
abbrev pub appended : Option Finding → List Finding → List Finding
appended none rest = rest
appended (some finding) rest = finding ∷ rest

module _ (rt : Runtime) where
  unfoldable pub finding_id : Text → ℕ → List Text → Text
  finding_id asset_id level rule_ids =
      codes "finding:sha256:"
      ++ rt.sha256_hex
          (join 0 (codes "ssc-init.finding.v1" ∷ asset_id ∷ level_text level ∷ rule_ids))

  unfoldable pub policy_finding :
      Asset → ℕ → Action → Verdict → Severity → List Text → Option ActiveBundle → ℕ → Finding
  policy_finding asset level action verdict severity rules active now =
      let rule_ids = sorted_unique rules in
      record {
        id = finding_id asset.id level rule_ids;
        asset_id = asset.id;
        asset_type = asset.kind;
        version = asset.version;
        sha256 = to_lower asset.sha256;
        verdict = verdict;
        severity = severity;
        confidence = bundle_confidence active;
        level = level;
        rule_ids = rule_ids;
        intelligence_ids = [];
        evidence_ids = [];
        detected_at = now;
        action = action;
        bundles = references active;
        campaign_ids = [];
        attack_techniques = [];
      }

  -- What a violation of a known asset becomes: an exception, or a finding of level 5.
  unfoldable pub decide_violation : DecisionInput → Asset → List Exempt → List Violation → Finding
  decide_violation input asset exempts violations =
      let rules = violation_ids violations in
      let excused = matching_exceptions exempts rules in
      if is_empty excused
      then policy_finding asset 5 Action.advisory Verdict.needs_review Severity.medium rules none
          input.now
      else policy_finding asset 4 Action.excepted Verdict.needs_review Severity.low
          (rules ++ excused) input.policy input.now

  -- The ladder behind level 1, for an asset of the inventory.
  unfoldable pub decide_known :
      DecisionInput → Facts → Asset → Text → Option Finding → Option Finding
  decide_known input f asset id prior =
      let denied = get_all id f.rules.denies in
      let allowed = exact_allows (get_all id f.rules.allows) asset.sha256 in
      let violations = get_all id f.local in
      if not (is_empty denied)
      then some (
          policy_finding asset 2 Action.advisory Verdict.needs_review Severity.high denied
            input.policy input.now)
      else if not (is_empty allowed)
      then some (
          policy_finding asset 3 Action.allowed Verdict.no_finding Severity.informational allowed
            input.policy input.now)
      else if not (is_empty violations)
      then some (decide_violation input asset (get_all id f.rules.exceptions) violations)
      else prior

  -- Without an asset only a prior finding is left.
  unfoldable pub decide_rest :
      DecisionInput → Facts → Option Asset → Text → Option Finding → Option Finding
  decide_rest input f none id prior = prior
  decide_rest input f (some asset) id prior = decide_known input f asset id prior

  -- Level 1, in front of the rest of the ladder.
  unfoldable pub decide_prior :
      DecisionInput → Facts → Option Asset → Text → Option Finding → Option Finding
  decide_prior input f asset id none = decide_rest input f asset id none
  decide_prior input f asset id (some prior) =
      if is_known_malicious prior.verdict
      then some (confirmed prior)
      else decide_rest input f asset id (some prior)

  -- The body of the loop for one asset ID.
  unfoldable pub decide_one : DecisionInput → Facts → Text → Option Finding
  decide_one input f id = decide_prior input f (get id f.assets) id (get id f.existing)

  unfoldable pub decide_all : DecisionInput → Facts → List Text → List Finding
  decide_all input f [] = []
  decide_all input f (id ∷ ids) = appended (decide_one input f id) (decide_all input f ids)

  unfoldable pub decide : DecisionInput → List Finding
  decide input =
      sort_by (λ l r. compare_text l.id r.id)
        (decide_all input (facts rt input) (ordered_ids (facts rt input)))
