-- ===== src/Tests/Collectors.antt =====
-- internal/collector: coverage at concrete inputs.
use ssc_init.Base.{
  refl, ◌≡◌, ◌≢◌, ◌↔◌, ◌⊎◌, true, false, All, Any, inl, inr, [], ◌∷◌, List, Text, codes, is_empty,
}
use ssc_init.Base.Integers.{pos}
use ssc_init.Collector.{
  user, directory, TargetStatus, CoverageStatus, TargetSpec, TargetCoverage, CollectorResult,
}
use ssc_init.Collector.Coverage.{aggregate_target_status, apply_target_contract}
use ssc_init.Collector.Coverage.Complete.{
  IsDone, IsSkipped, IsUnavailable, IsCompleted, aggregate_target_status_iff,
  complete_covers_targets,
}

abbrev target : Text → TargetSpec
target id = record {
  id = id;
  collector = codes "ide";
  host = [];
  scope = user;
  platform = codes "darwin";
  format = [];
  method = directory;
}

abbrev report : Text → TargetStatus → TargetCoverage
report id status = record {
  target_id = id;
  instance_ref = [];
  status = status;
  assets = pos 1;
  observations = pos 1;
  errors = [];
}

abbrev catalog : List TargetSpec
catalog = target (codes "b") ∷ target (codes "a") ∷ []

abbrev result : CollectorResult
result = record {
  collector = codes "ide";
  status = CoverageStatus.partial;
  assets = [];
  errors = [];
  targets =
      report (codes "a") TargetStatus.complete ∷ report (codes "b") TargetStatus.not_present ∷ [];
  observations = [];
}

aggregate_target_status_iff_example :
    ((aggregate_target_status result.targets ≡ CoverageStatus.complete)
      ↔ ((result.targets ≢ []) × All IsDone result.targets))
    × ((aggregate_target_status result.targets ≡ CoverageStatus.skipped)
        ↔ ((result.targets ≢ []) × All IsSkipped result.targets))
    × ((aggregate_target_status result.targets ≡ CoverageStatus.unavailable)
        ↔ ((result.targets ≢ []) × All IsUnavailable result.targets))
    × ((aggregate_target_status result.targets ≡ CoverageStatus.partial) ↔ (
        (result.targets ≡ [])
        ⊎ (Any (λ t. ¬ (IsDone t)) result.targets
            × Any (λ t. ¬ (IsSkipped t)) result.targets
            × Any (λ t. ¬ (IsUnavailable t)) result.targets)))
aggregate_target_status_iff_example = aggregate_target_status_iff result.targets

complete_covers_targets_example :
    IsCompleted (apply_target_contract (codes "ide") catalog result).targets (target (codes "a"))
unfolding apply_target_contract aggregate_target_status ssc_init.Base.Integers.is_negative
    ssc_init.Base.sort_by ssc_init.Base.insert_by ssc_init.Base.compare_text
    ssc_init.Base.compare_uint ssc_init.Base.text_eq ssc_init.Collector.Coverage.known_targets
    ssc_init.Collector.Coverage.valid_target_spec ssc_init.Collector.Coverage.valid_scope
    ssc_init.Collector.Coverage.valid_method ssc_init.Collector.Coverage.reported_targets
    ssc_init.Collector.Coverage.valid_target_coverage ssc_init.Collector.Coverage.valid_status
    ssc_init.Collector.Coverage.accepted ssc_init.Collector.Coverage.completed_targets
    ssc_init.Collector.Coverage.missing_targets ssc_init.Collector.Coverage.compare_targets
    ssc_init.Collector.Coverage.is_done
complete_covers_targets_example =
    complete_covers_targets (codes "ide") catalog result (target (codes "a")) (inr (inl refl)) refl
