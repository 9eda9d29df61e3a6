-- ===== src/Finding/Rules.antt =====
-- internal/finding/decision.go: the maps that `Decide` builds before its loop, `organizationRules` among them.
pub mod Index
pub mod Sources
use ssc_init.Base.{
  ℕ, ◌+◌, Bool, true, false, not, ◌&&◌, ◌||◌, Option, none, some, List, [], ◌∷◌, ◌++◌, map, any,
  is_empty, ltb, ◌==◌, if◌then◌else◌, Text, codes, text_eq, compare_text, to_lower, Dict, get, put,
  get_all, add, keys, sort_by, sorted_unique, set_of, sort_texts,
}
use ssc_init.Model.{
  Asset, Inventory, Verdict, Severity, Confidence, Action, Family, ti, policy, BundleReference,
  Finding,
}
use ssc_init.Finding.Bundle.{
  Freshness, stale, expired, DenyRule, AllowRule, ExceptionRule, PolicyPayload, ActiveBundle,
}
use ssc_init.Policy.Document.{Violation}
use ssc_init.Finding.Rank.{verdict_rank, equal_fold, join}

pub record DecisionInput : Type 0 where
  pub inventory : Inventory
  pub findings : List Finding
  pub policy : Option ActiveBundle
  pub local : List Violation
  pub now : ℕ

-- `allowRule` and `exceptionRule`
pub record Allow : Type 0 where
  pub id : Text
  pub digest : Text

pub record Exempt : Type 0 where
  pub id : Text
  pub rule_id : Text

-- The standard library's parts that are not computed here: SHA-256 in hexadecimal, and
-- `time.Parse` of RFC 3339.
pub record Runtime : Type 0 where
  pub sha256_hex : Text → Text
  pub parse_time : Text → Option ℕ

abbrev pub is_known_malicious : Verdict → Bool
is_known_malicious Verdict.known_malicious = true
is_known_malicious _ = false

unfoldable pub index_assets : Dict Asset → List Asset → Dict Asset
index_assets d [] = d
index_assets d (a ∷ rest) = index_assets (put a.id a d) rest

-- Whether a finding takes the place of the one that is held.
unfoldable pub outranks : Finding → Option Finding → Bool
outranks item none = true
outranks item (some current) =
    ltb item.level current.level
    || item.level == current.level && ltb (verdict_rank current.verdict) (verdict_rank item.verdict)

unfoldable pub index_findings : Dict Finding → List Finding → Dict Finding
index_findings d [] = d
index_findings d (item ∷ rest) =
    index_findings (if outranks item (get item.asset_id d) then put item.asset_id item d else d)
      rest

unfoldable pub index_violations : Dict (List Violation) → List Violation → Dict (List Violation)
index_violations d [] = d
index_violations d (v ∷ rest) = index_violations (add v.asset_id v d) rest

-- The three maps of `organizationRules`.
pub record Rules : Type 0 where
  pub denies : Dict (List Text)
  pub allows : Dict (List Allow)
  pub exceptions : Dict (List Exempt)

abbrev pub no_rules : Rules
no_rules = record { denies = []; allows = []; exceptions = [] }

unfoldable pub index_denies : Dict (List Text) → List DenyRule → Dict (List Text)
index_denies d [] = d
index_denies d (r ∷ rest) = index_denies (add r.asset_id r.id d) rest

unfoldable pub index_allows : Dict (List Allow) → List AllowRule → Dict (List Allow)
index_allows d [] = d
index_allows d (r ∷ rest) =
    index_allows (add r.asset_id (record { id = r.id; digest = to_lower r.sha256 }) d) rest

-- The maps that the loop reads.
pub record Facts : Type 0 where
  pub assets : Dict Asset
  pub existing : Dict Finding
  pub rules : Rules
  pub local : Dict (List Violation)

module _ (rt : Runtime) where
  -- Whether an exception has not expired; one whose expiry cannot be read counts as expired.
  unfoldable pub is_current : ℕ → ExceptionRule → Bool
  is_current now r = elim (rt.parse_time r.expires_at) [ none ↦ false | some t ↦ ltb now t ]

  unfoldable pub index_exceptions : ℕ → Dict (List Exempt) → List ExceptionRule → Dict (List Exempt)
  index_exceptions now d [] = d
  index_exceptions now d (r ∷ rest) =
      index_exceptions now
        (if is_current now r
          then add r.asset_id (record { id = r.id; rule_id = r.rule_id }) d
          else d)
        rest

  abbrev pub payload_rules : ℕ → PolicyPayload → Rules
  payload_rules now p = record {
    denies = index_denies [] p.denies;
    allows = index_allows [] p.allows;
    exceptions = index_exceptions now [] p.exceptions;
  }

  abbrev pub is_policy : Family → Bool
  is_policy policy = true
  is_policy _ = false

  unfoldable pub organization_rules : Option ActiveBundle → ℕ → Rules
  organization_rules none now = no_rules
  organization_rules (some active) now = elim active.policy [
    | none ↦ no_rules
    | some p ↦ if is_policy active.family then payload_rules now p else no_rules
  ]

  unfoldable pub facts : DecisionInput → Facts
  facts input = record {
    assets = index_assets [] input.inventory.assets;
    existing = index_findings [] input.findings;
    rules = organization_rules input.policy input.now;
    local = index_violations [] input.local;
  }
