-- ===== src/Model.antt =====
-- internal/model: the records that the components exchange. The fields that no modelled function
-- reads are left out where a record says so. Instants are counted from the zero time.
pub mod Validity
use ssc_init.Base.{ℕ, Bool, true, false, Option, List, Text, Dict, String, codes}

-- The string type of model.AssetType; its constants are in `Validity`.
abbrev pub AssetType : Type 0
AssetType = Text

-- `SignatureStatus` and `ProvenanceStatus`, which are strings.
abbrev pub SignatureStatus : Type 0
SignatureStatus = Text

abbrev pub ProvenanceStatus : Type 0
ProvenanceStatus = Text

pub record Signature : Type 0 where
  pub status : SignatureStatus
  pub identifier : Text
  pub team_id : Text

pub record Provenance : Type 0 where
  pub status : ProvenanceStatus
  pub ecosystem : Text
  pub source : Text
  pub integrity : Text

-- asset.go; the pointers may be nil.
pub record Asset : Type 0 where
  pub id : Text
  pub kind : AssetType  -- `Type`
  pub name : Text
  pub version : Text
  pub path : Text
  pub source : Text
  pub sha256 : Text
  pub observed_at : ℕ
  pub metadata : Dict Text
  pub signature : Option Signature
  pub provenance : Option Provenance

-- observation.go
pub record Observation : Type 0 where
  pub id : Text
  pub asset_id : Text
  pub host : Text
  pub project_id : Text
  pub source : Text
  pub metadata : Dict Text

-- The string type of model.EvidenceStatus.
abbrev pub EvidenceStatus : Type 0
EvidenceStatus = Text

abbrev pub evidence_complete : EvidenceStatus
evidence_complete = codes "complete"

abbrev pub evidence_unsupported : EvidenceStatus
evidence_unsupported = codes "unsupported"

-- evidence.go, without the counters and the errors.
pub record ContentEvidence : Type 0 where
  pub id : Text
  pub asset_id : Text
  pub observation_id : Text
  pub kind : Text
  pub subject : Text
  pub status : EvidenceStatus
  pub digest : Text
  pub metadata : Dict Text

-- scan.go: the parts of an inventory that are read here.
pub record Inventory : Type 0 where
  pub assets : List Asset
  pub observations : List Observation
  pub evidence : List ContentEvidence

-- finding.go. `other` stands for a string that is none of the constants.
pub data Verdict : Type 0 where
  known_malicious behavior_malicious suspicious needs_review no_finding : Verdict
  other : Text → Verdict

pub data Severity : Type 0 where
  critical high medium low informational : Severity
  other : Text → Severity

pub data Confidence : Type 0 where
  high medium low : Confidence
  other : Text → Confidence

pub data Action : Type 0 where
  advisory blocked paused excepted allowed : Action
  other : Text → Action

-- The two families of bundles.
pub data Family : Type 0 where
  ti policy : Family
  other : Text → Family

pub record BundleReference : Type 0 where
  pub family : Family
  pub sequence : ℕ
  pub digest : Text

pub record Finding : Type 0 where
  pub id : Text
  pub asset_id : Text
  pub asset_type : AssetType
  pub version : Text
  pub sha256 : Text
  pub verdict : Verdict
  pub severity : Severity
  pub confidence : Confidence
  pub level : ℕ
  pub rule_ids : List Text
  pub intelligence_ids : List Text
  pub evidence_ids : List Text
  pub detected_at : ℕ
  pub action : Action
  pub bundles : List BundleReference
  pub campaign_ids : List Text
  pub attack_techniques : List Text

-- scan.go: changes between two inventories.
pub data ChangeKind : Type 0 where
  added removed changed : ChangeKind

pub data ChangeEntity : Type 0 where
  asset evidence observation : ChangeEntity

pub record Change : Type 0 where
  pub kind : ChangeKind
  pub entity : ChangeEntity
  pub entity_id : Text
