-- ===== src/Policy/Document.antt =====
-- internal/policy/document.go, evaluate.go and precedence.go: documents, levels and violations.
use ssc_init.Base.{ℕ, Bool, true, false, Option, none, some, List, [], ◌∷◌, Text, codes, Dict}

-- `Family` and `Scope`; `other` stands for a string that is none of the constants.
pub data RuleFamily : Type 0 where
  shape change pin : RuleFamily
  other : Text → RuleFamily

pub data Scope : Type 0 where
  run asset project : Scope
  other : Text → Scope

pub record Match : Type 0 where
  pub asset_type : List Text
  pub asset_name : List Text
  pub asset_version : List Text
  pub host : List Text
  pub observation_source : List Text
  pub metadata_equals : Dict (List Text)
  pub metadata_contains : Dict (List Text)
  pub evidence_status : List Text
  pub rungs : List Text

pub record Rule : Type 0 where
  pub id : Text
  pub family : RuleFamily
  pub enabled : Bool
  pub match : Option Match

pub record Exception : Type 0 where
  pub rule_id : Text
  pub scope : Scope
  pub asset_id : Text
  pub digest : Text
  pub project_id : Text
  pub reason : Text
  pub expires_at : ℕ

pub record Document : Type 0 where
  pub rules : List Rule
  pub exceptions : List Exception

pub record Pin : Type 0 where
  pub asset_id : Text
  pub kind : Text
  pub subject : Text
  pub digest : Text

pub record Violation : Type 0 where
  pub rule_id : Text
  pub level : ℕ
  pub asset_id : Text
  pub asset_type : Text
  pub asset_name : Text
  pub host : Text
  pub standing : Bool

-- `MaliciousIndex`: an interface whose implementations the package does not have; a nil index is
-- `none`.
abbrev pub MaliciousIndex : Type 0
MaliciousIndex = Text → Text → Bool

pub record Sources : Type 0 where
  pub intelligence : Option MaliciousIndex
  pub has_bundle : Bool  -- `Bundle != nil`
  pub document : Document

-- `Level`
pub record Level : Type 0 where
  pub number : ℕ
  pub name : Text
  pub active : Bool
  pub reason : Text

unfoldable pub intelligence_level : Option MaliciousIndex → Level
intelligence_level none = record {
  number = 1;
  name = codes "known-malicious-evidence";
  active = false;
  reason = codes "no evidence available";
}
intelligence_level (some i) = record {
  number = 1;
  name = codes "known-malicious-evidence";
  active = true;
  reason = [];
}

unfoldable pub bundle_level : ℕ → Text → Bool → Level
bundle_level number name true = record { number = number; name = name; active = true; reason = [] }
bundle_level number name false = record {
  number = number;
  name = name;
  active = false;
  reason = codes "no bundle present";
}

unfoldable pub levels : Sources → List Level
levels s =
    intelligence_level s.intelligence
    ∷ bundle_level 2 (codes "organization-deny") s.has_bundle
    ∷ bundle_level 3 (codes "organization-allow") s.has_bundle
    ∷ record { number = 4; name = codes "user-exceptions"; active = true; reason = [] }
    ∷ record { number = 5; name = codes "default-product-policy"; active = true; reason = [] }
    ∷ []

-- `KnownMalicious`: the decision, and the reason where the level is inert.
unfoldable pub known_malicious : Sources → Text → Text → Bool × Text
known_malicious s asset_id digest = elim s.intelligence [
  | none ↦ (false, codes "no evidence available")
  | some index ↦ (index asset_id digest, [])
]
