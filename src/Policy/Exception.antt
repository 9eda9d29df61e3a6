-- ===== src/Policy/Exception.antt =====
-- internal/policy/exception.go: exceptions, their validation and their effect.
pub mod Effect
use ssc_init.Base.{
  ℕ, ◌+◌, ◌*◌, Bool, true, false, not, ◌&&◌, ◌||◌, Option, none, some, List, [], ◌∷◌, ◌++◌, any,
  all, is_empty, ltb, leb, ◌==◌, if◌then◌else◌, Text, codes, text_eq, byte_length, trim_space,
}
use ssc_init.Model.{ContentEvidence, Observation, Inventory, evidence_complete}
use ssc_init.Inventory.AssetId.{parse_asset_id, versioned_types}
use ssc_init.Policy.Document.{
  Scope, run, asset, project, Rule, Exception, Document, Violation, MaliciousIndex,
}

-- `MaxLocalExpiry`: 90 days in nanoseconds.
abbrev pub max_local_expiry : ℕ
max_local_expiry = 90 * 24 * 3600 * 1000000000

unfoldable pub valid_policy_digest : Text → Bool
valid_policy_digest digest =
    byte_length digest == 64 && all (λ c. leb 48 c && leb c 57 || leb 97 c && leb c 102) digest

-- The errors of `validateExceptions` and `VerifyExceptions`.
pub data ExceptionError : Type 0 where
  unknown_rule missing_reason permanent incompatible_subject inexact_asset : ExceptionError
  all_versions inexact_project unsupported_scope too_long known_malicious : ExceptionError

unfoldable pub check_asset : Exception → Option ExceptionError
check_asset e =
    if is_empty e.asset_id || not (valid_policy_digest e.digest) || not (is_empty e.project_id)
    then some inexact_asset
    else if any (text_eq (parse_asset_id e.asset_id).kind) versioned_types
        && is_empty (parse_asset_id e.asset_id).version
    then some all_versions
    else none

unfoldable pub check_scope : Scope → Exception → Option ExceptionError
check_scope run e =
    if not (is_empty e.asset_id) || not (is_empty e.digest) || not (is_empty e.project_id)
    then some incompatible_subject
    else none
check_scope asset e = check_asset e
check_scope project e =
    if is_empty e.project_id || not (is_empty e.asset_id) || not (is_empty e.digest)
    then some inexact_project
    else none
check_scope (Scope.other t) e = some unsupported_scope

unfoldable pub check_exception : List Rule → Exception → Option ExceptionError
check_exception rules e =
    if not (any (λ r. text_eq r.id e.rule_id) rules)
    then some unknown_rule
    else if is_empty (trim_space e.reason)
    then some missing_reason
    else if e.expires_at == 0
    then some permanent
    else check_scope e.scope e

-- The first error, if there is one.
unfoldable pub first_error :
    (Exception → Option ExceptionError) → List Exception → Option ExceptionError
first_error check [] = none
first_error check (e ∷ rest) = elim (check e) [
  | some error ↦ some error
  | none ↦ first_error check rest
]

unfoldable pub validate_exceptions : Document → Option ExceptionError
validate_exceptions document = first_error (check_exception document.rules) document.exceptions

abbrev pub is_asset_scope : Scope → Bool
is_asset_scope asset = true
is_asset_scope _ = false

-- Whether intelligence knows the subject of an exception; a nil index knows nothing.
unfoldable pub knows : Option MaliciousIndex → Exception → Bool
knows none e = false
knows (some index) e = index e.asset_id e.digest

abbrev pub exceeds : Option ℕ → Exception → Bool
exceeds none e = false
exceeds (some now) e = ltb (now + max_local_expiry) e.expires_at

unfoldable pub verify_exception :
    Option MaliciousIndex → Option ℕ → Exception → Option ExceptionError
verify_exception intelligence now e =
    if exceeds now e
    then some too_long
    else if is_asset_scope e.scope && knows intelligence e
    then some known_malicious
    else none

unfoldable pub verify_exceptions :
    Document → Option MaliciousIndex → Option ℕ → Option ExceptionError
verify_exceptions document intelligence now =
    first_error (verify_exception intelligence now) document.exceptions

-- `Applied`
pub record Applied : Type 0 where
  pub rule_id : Text
  pub asset_id : Text

unfoldable pub matches_scope : Scope → Inventory → Exception → Violation → Bool
matches_scope run inventory e v = true
matches_scope asset inventory e v =
    text_eq e.asset_id v.asset_id
    && any
        (λ (item : ContentEvidence).
          text_eq item.asset_id v.asset_id
          && text_eq item.status evidence_complete
          && text_eq item.digest e.digest)
        inventory.evidence
matches_scope project inventory e v =
    any (λ (o : Observation). text_eq o.asset_id v.asset_id && text_eq o.project_id e.project_id)
      inventory.observations
matches_scope (Scope.other t) inventory e v = false

unfoldable pub exception_matches : Inventory → Exception → Violation → Bool
exception_matches inventory e v = matches_scope e.scope inventory e v

unfoldable pub append_unique_applied : List Applied → Applied → List Applied
append_unique_applied entries candidate =
    if any
      (λ (x : Applied).
        text_eq x.rule_id candidate.rule_id && text_eq x.asset_id candidate.asset_id)
      entries
    then entries
    else entries ++ candidate ∷ []

-- What the loop over the exceptions of one violation leaves: whether one suppressed it, and the lists.
pub record Scan : Type 0 where
  pub suppressed : Bool
  pub applied : List Applied
  pub expired : List Applied

unfoldable pub scan_exceptions :
    Inventory → ℕ → Violation → List Exception → List Applied → List Applied → Scan
scan_exceptions inventory now v [] applied expired = record {
  suppressed = false;
  applied = applied;
  expired = expired;
}
scan_exceptions inventory now v (e ∷ rest) applied expired =
    let entry : Applied = record { rule_id = v.rule_id; asset_id = v.asset_id } in
    let skipped = scan_exceptions inventory now v rest applied expired in
    let passed =
      scan_exceptions inventory now v rest applied (append_unique_applied expired entry) in
    if not (text_eq e.rule_id v.rule_id) || not (exception_matches inventory e v)
    then skipped
    else if not (ltb now e.expires_at)
    then passed
    else record {
      suppressed = true;
      applied = append_unique_applied applied entry;
      expired = expired;
    }

-- The three results of `applyExceptions`.
pub record Outcome : Type 0 where
  pub kept : List Violation
  pub applied : List Applied
  pub expired : List Applied

-- The body of the loop over the violations.
unfoldable pub apply_one : Inventory → ℕ → List Exception → Outcome → Violation → Outcome
apply_one inventory now exceptions o v =
    let s = scan_exceptions inventory now v exceptions o.applied o.expired in
    record {
      kept = if s.suppressed then o.kept else o.kept ++ v ∷ [];
      applied = s.applied;
      expired = s.expired;
    }

unfoldable pub apply_from : Inventory → ℕ → List Exception → Outcome → List Violation → Outcome
apply_from inventory now exceptions o [] = o
apply_from inventory now exceptions o (v ∷ rest) =
    apply_from inventory now exceptions (apply_one inventory now exceptions o v) rest

abbrev pub nothing : Outcome
nothing = record { kept = []; applied = []; expired = [] }

-- `applyExceptions`, over the exceptions of the document and of the call.
unfoldable pub apply_exceptions :
    Inventory → ℕ → List Exception → List Exception → List Violation → Outcome
apply_exceptions inventory now documented given violations =
    apply_from inventory now (documented ++ given) nothing violations
