-- ===== src/Tests/Policies.antt =====
-- internal/policy and internal/inventory: policies and deltas at concrete inputs.
use ssc_init.Base.{
  refl, inl, inr, text_eq, ℕ, ◌≡◌, ◌↔◌, true, none, some, List, [], ◌∷◌, All, Text, codes,
  IsSortedBy, Pairs,
}
use ssc_init.Model.{Asset, Inventory, Change, added, removed, asset}
use ssc_init.Inventory.Ladder.{classify}
use ssc_init.Inventory.Ladder.Removals.{IsReported, classify_reports_removals}
use ssc_init.Inventory.Ladder.Order.{IsBefore, classify-IsSortedBy}
use ssc_init.Inventory.Diff.{Encoders, diff}
use ssc_init.Inventory.Diff.Reported.{IsGone, classify-diff}
use ssc_init.Inventory.Diff.Rescanned.{rescanned, diff-rescanned}
use ssc_init.Policy.Document.{Match, Rule, shape, change, run, Exception, Document, Violation}
use ssc_init.Policy.Exception.{verify_exceptions, apply_exceptions}
use ssc_init.Policy.Exception.Effect.{
  IsAcceptable, verify_exceptions_iff, standing, apply_exceptions-kept,
}
use ssc_init.Policy.Evaluate.{Input, evaluate, compare_violations}
use ssc_init.Policy.Evaluate.Results.{IsReportable, evaluate_reports}

abbrev left_pad_asset : Text → Asset
left_pad_asset id = record {
  id = id;
  kind = codes "package";
  name = codes "left-pad";
  version = codes "1.0.0";
  path = [];
  source = [];
  sha256 = [];
  observed_at = 0;
  metadata = [];
  signature = none;
  provenance = none;
}

abbrev inventory : Inventory
inventory = record {
  assets = left_pad_asset (codes "pkg:npm/left-pad@1.0.0") ∷ [];
  observations = [];
  evidence = [];
}

abbrev delta : List Change
delta =
    record { kind = added; entity = asset; entity_id = codes "pkg:npm/left-pad@1.0.0" }
    ∷ record { kind = removed; entity = asset; entity_id = codes "pkg:npm/left-pad@0.9.0" }
    ∷ []

-- Two versions of one package are gone.
abbrev two_removals : List Change
two_removals =
    record { kind = removed; entity = asset; entity_id = codes "pkg:npm/left-pad@0.9.0" }
    ∷ record { kind = removed; entity = asset; entity_id = codes "pkg:npm/left-pad@0.8.0" }
    ∷ []

abbrev no_match : Match
no_match = record {
  asset_type = codes "package" ∷ [];
  asset_name = [];
  asset_version = [];
  host = [];
  observation_source = [];
  metadata_equals = [];
  metadata_contains = [];
  evidence_status = [];
  rungs = [];
}

abbrev rules : List Rule
rules =
    record { id = codes "shape"; family = shape; enabled = true; match = some no_match }
    ∷ record { id = codes "change"; family = change; enabled = true; match = some no_match }
    ∷ []

-- An exception for a whole run.
abbrev excuse : Text → ℕ → Exception
excuse rule expiry = record {
  rule_id = rule;
  scope = run;
  asset_id = [];
  digest = [];
  project_id = [];
  reason = codes "reviewed";
  expires_at = expiry;
}

abbrev document : Document
document = record { rules = rules; exceptions = excuse (codes "shape") 20 ∷ [] }

abbrev violation : Text → Violation
violation rule = record {
  rule_id = rule;
  level = 5;
  asset_id = codes "pkg:npm/left-pad@1.0.0";
  asset_type = codes "package";
  asset_name = codes "left-pad";
  host = [];
  standing = true;
}

classify-IsSortedBy_example : Pairs IsBefore (classify inventory delta)
classify-IsSortedBy_example = classify-IsSortedBy inventory delta

classify_reports_removals_example :
    IsReported (codes "pkg:npm/left-pad@0.8.0") two_removals (classify inventory two_removals)
classify_reports_removals_example =
    classify_reports_removals inventory two_removals (codes "pkg:npm/left-pad@0.8.0")
      (inr (inl (refl, refl, refl)))

verify_exceptions_iff_example :
    (verify_exceptions document none (some 10) ≡ none)
    ↔ All (IsAcceptable none 10) document.exceptions
verify_exceptions_iff_example = verify_exceptions_iff document none 10

apply_exceptions-kept_example :
    (apply_exceptions inventory 10 document.exceptions
      (excuse (codes "change") 5 ∷ [])
      (violation (codes "change") ∷ violation (codes "shape") ∷ [])).kept
    ≡ standing inventory 10
        (excuse (codes "shape") 20 ∷ excuse (codes "change") 5 ∷ [])
        (violation (codes "change") ∷ violation (codes "shape") ∷ [])
apply_exceptions-kept_example =
    apply_exceptions-kept inventory 10 document.exceptions (excuse (codes "change") 5 ∷ [])
      (violation (codes "change") ∷ violation (codes "shape") ∷ [])

abbrev input : Input
input = record {
  sources = record { intelligence = none; has_bundle = true; document = document };
  inventory = inventory;
  delta = delta;
  pins = [];
  exceptions = excuse (codes "change") 5 ∷ [];
  now = 10;
}

evaluate_reports_example :
    All (IsReportable input) (evaluate input).violations
    × IsSortedBy compare_violations (evaluate input).violations
evaluate_reports_example = evaluate_reports input

abbrev toy_encoders : Encoders
toy_encoders = record {
  encode_asset = λ a. a.version;
  encode_observation = λ o. o.host;
  encode_evidence = λ e. e.digest;
}

-- The same with version 0.9.0.
abbrev older : Inventory
older = record {
  assets = left_pad_asset (codes "pkg:npm/left-pad@0.9.0") ∷ [];
  observations = [];
  evidence = [];
}

older-IsGone : IsGone (codes "pkg:npm/left-pad@0.9.0") inventory.assets
unfolding text_eq
older-IsGone = (refl, tt)

classify-diff_example :
    IsReported
      (codes "pkg:npm/left-pad@0.9.0")
      (diff toy_encoders older inventory)
      (classify inventory (diff toy_encoders older inventory))
classify-diff_example =
    classify-diff toy_encoders inventory older inventory (codes "pkg:npm/left-pad@0.9.0") (inl refl)
      older-IsGone

-- Seen again at instant 7.
diff-rescanned_example :
    diff toy_encoders inventory
      (rescanned (λ a. 7) (λ a. codes "1970-01-01T00:00:07Z") (λ e. codes "hit") inventory)
    ≡ []
diff-rescanned_example =
    diff-rescanned toy_encoders (λ a. 7) (λ a. codes "1970-01-01T00:00:07Z") (λ e. codes "hit")
      inventory
