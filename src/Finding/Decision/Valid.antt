-- ===== src/Finding/Decision/Valid.antt =====
-- internal/finding/decision.go: `policyFinding` and `Finding.Valid`.
use ssc_init.Base.{
  ℕ, ◌≡◌, ◌≢◌, refl, ◌≤◌, ◌⊎◌, inl, inr, Bool, true, false, not, ◌&&◌, Option, none, some, List, [],
  ◌∷◌, arith, all, is_empty, if◌then◌else◌, Text, byte_length, to_lower, sorted_unique,
  sorted_unique-IsAscending, sorted_unique-nonempty,
}
use ssc_init.Model.{Asset, Verdict, Severity, Confidence, Action}
use ssc_init.Model.Validity.{
  valid_asset_type, valid_verdict, valid_severity, valid_confidence, valid_action, valid_family,
  is_hex, finding_sha256, sorted_unique_values, sorted_unique_values_of, valid_reference, valid,
}
use ssc_init.Finding.Bundle.{ActiveBundle}
use ssc_init.Finding.Rules.{Runtime}
use ssc_init.Finding.Decision.{references, bundle_confidence, is_dated, finding_id, policy_finding}

to_lower-hex : (s : Text) → all is_hex s ≡ true → all is_hex (to_lower s) ≡ true
unfolding to_lower is_hex
to_lower-hex [] h = refl
to_lower-hex (c ∷ cs) h = ground (arith, to_lower-hex cs)

to_lower_length : (s : Text) → all is_hex s ≡ true → byte_length (to_lower s) ≡ byte_length s
unfolding to_lower is_hex
to_lower_length [] h = refl
to_lower_length (c ∷ cs) h = ground (arith, to_lower_length cs)

finding_sha256-to_lower : (s : Text) → finding_sha256 s ≡ true → finding_sha256 (to_lower s) ≡ true
unfolding finding_sha256
finding_sha256-to_lower s h = ground (arith, to_lower-hex s, to_lower_length s)

-- What a policy finding needs of its asset.
pub record IsDecidable (a : Asset) : Type 0 where
  pub named : is_empty a.id ≡ false
  pub typed : valid_asset_type a.kind ≡ true
  pub digested : (a.sha256 ≡ []) ⊎ (finding_sha256 a.sha256 ≡ true)

-- What it needs of the bundle that it refers to, if there is one.
abbrev pub IsReferable : Option ActiveBundle → Type 0
IsReferable none = Unit
IsReferable (some b) = (b.sequence ≢ 0) × (finding_sha256 b.digest ≡ true)

references-valid :
    (o : Option ActiveBundle) → IsReferable o → all valid_reference (references o) ≡ true
unfolding references valid_reference valid_family
references-valid none h = refl
references-valid (some b) h = ground arith

confidence-valid : (o : Option ActiveBundle) → valid_confidence (bundle_confidence o) ≡ true
unfolding bundle_confidence valid_confidence
confidence-valid none = refl
confidence-valid (some b) = either (is_dated b.freshness)
  where
    either : (d : Bool) → valid_confidence (if d then Confidence.medium else Confidence.high) ≡ true
    either true = refl
    either false = refl

digest-valid :
    (s : Text)
    → (s ≡ []) ⊎ (finding_sha256 s ≡ true)
    → (not (is_empty (to_lower s)) && not (finding_sha256 (to_lower s))) ≡ false
digest-valid s (inl e) = rw e (unfold to_lower in refl)
digest-valid s (inr h) = ground (arith, finding_sha256-to_lower s h)

ids-valid : (rules : List Text) → sorted_unique_values (sorted_unique rules) ≡ true
ids-valid rules =
    sorted_unique_values_of (sorted_unique rules) (sorted_unique-IsAscending rules)
      (sorted_unique-nonempty rules)

-- The finding of a policy passes `Finding.Valid`, for an asset with an ID, a type of the catalog and
-- either no digest or 32 bytes of it, a level from 1 to 5, a verdict, a severity and an action
-- of the constants, an instant after the zero time, and a bundle with a sequence and a digest, if there is one.
pub valid-policy_finding :
    (rt : Runtime) (a : Asset) (level : ℕ) (action : Action) (verdict : Verdict)
    (severity : Severity) (rules : List Text) (active : Option ActiveBundle) (now : ℕ)
    → IsDecidable a
    → (1 ≤ level) × (level ≤ 5)
    → (valid_action action ≡ true)
      × (valid_verdict verdict ≡ true)
      × (valid_severity severity ≡ true)
    → IsReferable active
    → now ≢ 0
    → valid (policy_finding rt a level action verdict severity rules active now) ≡ true
unfolding valid policy_finding finding_id sorted_unique_values
valid-policy_finding rt a level action verdict severity rules active now d l v r n = ground (
  arith,
  d.named,
  d.typed,
  digest-valid a.sha256 d.digested,
  references-valid active r,
  confidence-valid active,
  ids-valid rules,
)
