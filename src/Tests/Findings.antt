-- ===== src/Tests/Findings.antt =====
-- internal/finding: decisions at concrete inputs.
use ssc_init.Base.{
  inr, true, ◌≡◌, refl, arith, inl, none, some, [], ◌∷◌, All, Any, Text, codes, Pairs,
}
use ssc_init.Model.{Asset, Finding, known_malicious, critical, Confidence, Action, policy}
use ssc_init.Finding.Bundle.{ActiveBundle, fresh}
use ssc_init.Finding.Rules.{Runtime, DecisionInput}
use ssc_init.Finding.Decision.{decide}
use ssc_init.Finding.Decision.Malicious.{IsConfirmed, decide_keeps_malicious}
use ssc_init.Finding.Decision.Grounds.{AllowGrounds, decide_allows_on_grounds}
use ssc_init.Finding.Decision.Checked.{AreValid, decide-valid}
use ssc_init.Model.Validity.{valid}
use ssc_init.Finding.Decision.Unique.{Differ, decide-Pairs}

-- Stand-ins for the digest and the reader of times.
abbrev runtime : Runtime
runtime = record { sha256_hex = λ t. t; parse_time = λ t. some 0 }

abbrev left_pad : Text
left_pad = codes "pkg:npm/left-pad@1.0.0"

abbrev digest : Text
digest = codes "0123456789abcdef0123456789abcdef0123456789abcdef0123456789abcdef"

abbrev left_pad_asset : Asset
left_pad_asset = record {
  id = left_pad;
  kind = codes "package";
  name = codes "left-pad";
  version = codes "1.0.0";
  path = [];
  source = [];
  sha256 = digest;
  observed_at = 0;
  metadata = [];
  signature = none;
  provenance = none;
}

-- An organization policy that allows the left_pad_asset by its digest.
abbrev active : ActiveBundle
active = record {
  family = policy;
  sequence = 7;
  ti = none;
  policy = some (record {
    denies = [];
    allows = record { id = codes "allow-1"; asset_id = left_pad; sha256 = digest } ∷ [];
    exceptions = [];
    tests = [];
    retention = none;
  });
  digest = digest;
  freshness = fresh;
}

abbrev alert : Finding
alert = record {
  id = codes "finding-1";
  asset_id = left_pad;
  asset_type = codes "package";
  version = codes "1.0.0";
  sha256 = digest;
  verdict = known_malicious;
  severity = critical;
  confidence = Confidence.high;
  level = 1;
  rule_ids = codes "ti-1" ∷ [];
  intelligence_ids = [];
  evidence_ids = [];
  detected_at = 5;
  action = Action.advisory;
  bundles = [];
  campaign_ids = [];
  attack_techniques = [];
}

-- The left_pad_asset, the policy that allows it, and no finding.
abbrev quiet : DecisionInput
quiet = record {
  inventory = record { assets = left_pad_asset ∷ []; observations = []; evidence = [] };
  findings = [];
  policy = some active;
  local = [];
  now = 10;
}

-- The same with a finding that it is known to be malicious.
abbrev alarmed : DecisionInput
alarmed = record quiet { findings = alert ∷ [] }

decide_keeps_malicious_example :
    Any (λ x. (x.asset_id ≡ left_pad) × IsConfirmed x) (decide runtime alarmed)
    × All (λ x. x.asset_id ≡ left_pad → IsConfirmed x) (decide runtime alarmed)
decide_keeps_malicious_example =
    decide_keeps_malicious runtime alarmed left_pad (λ e. ground arith, tt)
      (inl (refl, (refl, refl)))

decide_allows_on_grounds_example :
    All (λ x. x.action ≡ Action.allowed → AllowGrounds quiet x) (decide runtime quiet)
decide_allows_on_grounds_example = decide_allows_on_grounds runtime quiet tt

decide-Pairs_example : Pairs Differ (decide runtime alarmed)
decide-Pairs_example = decide-Pairs runtime alarmed

alarmed-AreValid : AreValid alarmed
unfolding valid ssc_init.Model.Validity.valid_asset_type ssc_init.Model.Validity.finding_sha256
    ssc_init.Model.Validity.is_hex ssc_init.Model.Validity.valid_verdict
    ssc_init.Model.Validity.valid_severity ssc_init.Model.Validity.valid_confidence
    ssc_init.Model.Validity.valid_action ssc_init.Model.Validity.sorted_unique_values
    ssc_init.Model.Validity.ascends ssc_init.Base.text_eq
alarmed-AreValid = record {
  decidable = (record { named = refl; typed = refl; digested = inr refl }, tt);
  checked = (refl, tt);
  referable = (λ e. cc, refl);
  dated = λ e. cc;
}

decide-valid_example : All (λ x. valid x ≡ true) (decide runtime alarmed)
decide-valid_example = decide-valid runtime alarmed alarmed-AreValid
