-- ===== src/Finding/Bundle.antt =====
-- internal/bundle/model.go, active.go and status.go: what the findings read of a verified bundle.
use ssc_init.Base.{ℕ, Bool, Option, List, Text}
use ssc_init.Base.Integers.{ℤ}
use ssc_init.Model.{Family}

pub data Freshness : Type 0 where
  missing fresh stale expired unavailable : Freshness

-- `TIRecord`
pub record TiRecord : Type 0 where
  pub id : Text
  pub asset_id : Text
  pub version_range : Text
  pub sha256 : Text
  pub verdict : Text
  pub confidence : Text
  pub source_urls : List Text
  pub retrieved_at : Text
  pub valid_until : Text
  pub license : Text
  pub redistributable : Bool
  pub withdrawn : Bool
  pub campaign_ids : List Text
  pub attack_techniques : List Text

-- `PolicyRule`
pub record DenyRule : Type 0 where
  pub id : Text
  pub asset_id : Text

-- `PolicyAllow`
pub record AllowRule : Type 0 where
  pub id : Text
  pub asset_id : Text
  pub sha256 : Text

-- `PolicyException`
pub record ExceptionRule : Type 0 where
  pub id : Text
  pub rule_id : Text
  pub asset_id : Text
  pub approver : Text
  pub reason : Text
  pub ticket : Text
  pub expires_at : Text

pub record PolicyTest : Type 0 where
  pub name : Text
  pub asset_id : Text
  pub want_rule : Text

pub record Retention : Type 0 where
  pub snapshots_days : ℤ
  pub history_days : ℤ
  pub incidents_days : ℤ

pub record PolicyPayload : Type 0 where
  pub denies : List DenyRule
  pub allows : List AllowRule
  pub exceptions : List ExceptionRule
  pub tests : List PolicyTest
  pub retention : Option Retention

-- `ActiveBundle`: the envelope, the digest in hexadecimal, and the freshness of the status.
pub record ActiveBundle : Type 0 where
  pub family : Family
  pub sequence : ℕ
  pub ti : Option (List TiRecord)
  pub policy : Option PolicyPayload
  pub digest : Text
  pub freshness : Freshness
