-- ===== src/Collector.antt =====
-- internal/model/observation.go, scan.go and internal/collector: what a collector reports about its targets.
pub mod Coverage
use ssc_init.Base.{ℕ, Bool, true, false, List, Text}
use ssc_init.Base.Integers.{ℤ}
use ssc_init.Model.{Asset, Observation}

-- `other` stands for a string that is none of the constants.
pub data ObservationScope : Type 0 where
  user project ide_profile tool_environment system : ObservationScope
  other : Text → ObservationScope

pub data TargetMethod : Type 0 where
  file directory command dynamic_api service_api : TargetMethod
  other : Text → TargetMethod

pub data TargetStatus : Type 0 where
  complete not_present partial unavailable unsupported skipped : TargetStatus
  other : Text → TargetStatus

pub data CoverageStatus : Type 0 where
  complete partial skipped unavailable failed : CoverageStatus
  other : Text → CoverageStatus

pub record CoverageError : Type 0 where
  pub code : Text
  pub message : Text
  pub path : Text

pub record TargetSpec : Type 0 where
  pub id : Text
  pub collector : Text
  pub host : Text
  pub scope : ObservationScope
  pub platform : Text
  pub format : Text
  pub method : TargetMethod

pub record TargetCoverage : Type 0 where
  pub target_id : Text
  pub instance_ref : Text
  pub status : TargetStatus
  pub assets : ℤ
  pub observations : ℤ
  pub errors : List CoverageError

-- `CollectorResult`, without relationships and the inputs of the evidence engine, which live for one
-- run only.
pub record CollectorResult : Type 0 where
  pub collector : Text
  pub status : CoverageStatus
  pub assets : List Asset
  pub errors : List CoverageError
  pub targets : List TargetCoverage
  pub observations : List Observation
