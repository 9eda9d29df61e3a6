-- ===== src/Collector/Coverage.antt =====
-- internal/collector/coverage.go: the contract between a collector and its targets.
pub mod Complete
use ssc_init.Base.{
  Ordering, Bool, true, false, not, ◌&&◌, ◌||◌, Option, none, some, List, [], ◌∷◌, ◌++◌, all, any,
  is_empty, if◌then◌else◌, ◌then◌, Text, codes, text_eq, compare_text, sort_by,
}
use ssc_init.Base.Integers.{is_negative, pos}
use ssc_init.Collector.{
  ObservationScope, TargetMethod, TargetStatus, CoverageStatus, failed, CoverageError, TargetSpec,
  TargetCoverage, CollectorResult,
}

unfoldable pub valid_scope : ObservationScope → Bool
valid_scope (ObservationScope.other t) = false
valid_scope _ = true

unfoldable pub valid_method : TargetMethod → Bool
valid_method (TargetMethod.other t) = false
valid_method _ = true

unfoldable pub valid_target_spec : Text → TargetSpec → Bool
valid_target_spec name spec =
    not (
      is_empty name
      || is_empty spec.id
      || not (text_eq spec.collector name)
      || not (text_eq spec.platform (codes "darwin")))
    && valid_scope spec.scope
    && valid_method spec.method

unfoldable pub valid_status : TargetStatus → Bool
valid_status (TargetStatus.other t) = false
valid_status _ = true

unfoldable pub valid_target_coverage : TargetCoverage → Bool
valid_target_coverage t =
    not (is_empty t.target_id || is_negative t.assets || is_negative t.observations)
    && valid_status t.status

-- The loop over the specs; `none` where the contract is violated.
unfoldable pub known_targets : Text → List Text → List TargetSpec → Option (List Text)
known_targets name known [] = some known
known_targets name known (spec ∷ rest) =
    let later = known_targets name (spec.id ∷ known) rest in
    if not (valid_target_spec name spec) || any (text_eq spec.id) known then none else later

abbrev pub same_instance : TargetCoverage → TargetCoverage → Bool
same_instance a b = text_eq a.target_id b.target_id && text_eq a.instance_ref b.instance_ref

-- The loop over the targets, with those that it has passed.
unfoldable pub reported_targets :
    List Text → List TargetCoverage → List TargetCoverage → Option (List TargetCoverage)
reported_targets known seen [] = some seen
reported_targets known seen (t ∷ rest) =
    let later = reported_targets known (t ∷ seen) rest in
    if not (any (text_eq t.target_id) known) || not (valid_target_coverage t)
    then none
    else if any (same_instance t) seen
    then none
    else later

abbrev pub not_reported : TargetSpec → TargetCoverage
not_reported spec = record {
  target_id = spec.id;
  instance_ref = [];
  status = TargetStatus.unsupported;
  assets = pos 0;
  observations = pos 0;
  errors =
      record {
        code = codes "target_not_reported";
        message = codes "target was not reported";
        path = [];
      }
      ∷ [];
}

abbrev pub is_reported : List TargetCoverage → TargetSpec → Bool
is_reported targets spec = any (λ t. text_eq t.target_id spec.id) targets

-- The loop that adds what was not reported.
unfoldable pub missing_targets : List TargetCoverage → List TargetSpec → List TargetCoverage
missing_targets targets [] = []
missing_targets targets (spec ∷ rest) =
    let later = missing_targets targets rest in
    if is_reported targets spec then later else not_reported spec ∷ later

unfoldable pub compare_targets : TargetCoverage → TargetCoverage → Ordering
compare_targets l r =
    compare_text l.target_id r.target_id then compare_text l.instance_ref r.instance_ref

unfoldable pub is_done : TargetStatus → Bool
is_done TargetStatus.complete = true
is_done TargetStatus.not_present = true
is_done _ = false

unfoldable pub is_skipped : TargetStatus → Bool
is_skipped TargetStatus.skipped = true
is_skipped _ = false

unfoldable pub is_unavailable : TargetStatus → Bool
is_unavailable TargetStatus.unavailable = true
is_unavailable _ = false

unfoldable pub aggregate_target_status : List TargetCoverage → CoverageStatus
aggregate_target_status targets =
    if is_empty targets
    then CoverageStatus.partial
    else if all (λ t. is_done t.status) targets
    then CoverageStatus.complete
    else if all (λ t. is_skipped t.status) targets
    then CoverageStatus.skipped
    else if all (λ t. is_unavailable t.status) targets
    then CoverageStatus.unavailable
    else CoverageStatus.partial

unfoldable pub failed_result : Text → Text → Text → CollectorResult
failed_result name code message = record {
  collector = name;
  status = failed;
  assets = [];
  errors = record { code = code; message = message; path = [] } ∷ [];
  targets = [];
  observations = [];
}

unfoldable pub target_contract_violation : Text → CollectorResult
target_contract_violation name =
    failed_result name (codes "coverage_contract_violation")
      (codes "collector violated target coverage contract")

abbrev pub is_failed : CoverageStatus → Bool
is_failed failed = true
is_failed _ = false

-- The targets of a result that keeps the contract.
unfoldable pub completed_targets : List TargetSpec → List TargetCoverage → List TargetCoverage
completed_targets specs targets = sort_by compare_targets (targets ++ missing_targets targets specs)

unfoldable pub accepted : Text → List TargetCoverage → CollectorResult → CollectorResult
accepted name targets result = record result {
  collector = name;
  status = if is_failed result.status then result.status else aggregate_target_status targets;
  targets = targets;
}

unfoldable pub apply_target_contract : Text → List TargetSpec → CollectorResult → CollectorResult
apply_target_contract name specs result =
    let sorted = sort_by (λ l r. compare_text l.id r.id) specs in
    elim (known_targets name [] sorted) [
      | none ↦ target_contract_violation name
      | some known ↦ elim (reported_targets known [] result.targets) [
        | none ↦ target_contract_violation name
        | some seen ↦ accepted name (completed_targets sorted result.targets) result
      ]
    ]
