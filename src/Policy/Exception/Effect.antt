-- ===== src/Policy/Exception/Effect.antt =====
-- internal/policy/exception.go: `VerifyExceptions` and `applyExceptions`.
use mathlib.Core.List.{append-nil, append_assoc}
use ssc_init.Base.{
  All-map, sym, ℕ, ◌+◌, ◌≡◌, ◌≤◌, ◌↔◌, ◌∙◌, refl, Bool, true, false, ◌&&◌, Option, none, some, List,
  [], ◌∷◌, ◌++◌, arith, All, any, ltb, if◌then◌else◌, Text, text_eq,
}
use ssc_init.Model.{Inventory}
use ssc_init.Policy.Document.{
  Scope, run, asset, project, Exception, Document, Violation, MaliciousIndex,
}
use ssc_init.Policy.Exception.{
  ExceptionError, first_error, is_asset_scope, knows, verify_exception, verify_exceptions,
  exception_matches, append_unique_applied, Applied, scan_exceptions, Outcome, apply_one,
  apply_from, apply_exceptions, nothing,
}

first_error-All :
    (check : Exception → Option ExceptionError) (es : List Exception)
    → first_error check es ≡ none
    → All (λ e. check e ≡ none) es
unfolding first_error
first_error-All check [] h = tt
first_error-All check (e ∷ rest) h = (ground arith, first_error-All check rest (ground arith))

All-first_error :
    (check : Exception → Option ExceptionError) (es : List Exception)
    → All (λ e. check e ≡ none) es
    → first_error check es ≡ none
unfolding first_error
All-first_error check [] h = refl
All-first_error check (e ∷ rest) h = ground (arith, All-first_error check rest h.1)

-- What is excused is an asset that intelligence, where there is any, does not know with this digest,
-- or it is no asset.
abbrev pub IsUnknown : Scope → Option MaliciousIndex → Text → Text → Type 0
IsUnknown asset (some index) asset_id digest = index asset_id digest ≡ false
IsUnknown asset none asset_id digest = Unit
IsUnknown run intelligence asset_id digest = Unit
IsUnknown project intelligence asset_id digest = Unit
IsUnknown (Scope.other name) intelligence asset_id digest = Unit

-- An exception that expires in time and does not trust what intelligence knows.
abbrev pub IsAcceptable : Option MaliciousIndex → ℕ → Exception → Type 0
IsAcceptable intelligence now e =
    (e.expires_at ≤ now + 7776000000000000) × IsUnknown e.scope intelligence e.asset_id e.digest

-- The test of the scope and of the index refuses exactly what is not unknown.
knows-IsUnknown :
    (scope : Scope) (intelligence : Option MaliciousIndex) (e : Exception)
    → ((is_asset_scope scope && knows intelligence e) ≡ false)
      ↔ IsUnknown scope intelligence e.asset_id e.digest
unfolding knows
knows-IsUnknown asset (some index) e = (λ h. h, λ h. h)
knows-IsUnknown asset none e = (λ h. tt, λ h. refl)
knows-IsUnknown run intelligence e = (λ h. tt, λ h. refl)
knows-IsUnknown project intelligence e = (λ h. tt, λ h. refl)
knows-IsUnknown (Scope.other name) intelligence e = (λ h. tt, λ h. refl)

verify_exception_iff :
    (intelligence : Option MaliciousIndex) (now : ℕ) (e : Exception)
    → (verify_exception intelligence (some now) e ≡ none) ↔ IsAcceptable intelligence now e
unfolding verify_exception
verify_exception_iff intelligence now e =
    let known = knows-IsUnknown e.scope intelligence e in
    (λ h. (ground arith, known.0 (ground arith)), λ h. ground (arith, known.1 h.1))

-- With a clock, `VerifyExceptions` accepts a document exactly when each of its exceptions expires
-- within 90 days, 7776000000000000 nanoseconds, and none with the scope of an asset is for an asset
-- and a digest that intelligence, where there is any, knows to be malicious.
pub verify_exceptions_iff :
    (document : Document) (intelligence : Option MaliciousIndex) (now : ℕ)
    → (verify_exceptions document intelligence (some now) ≡ none)
      ↔ All (IsAcceptable intelligence now) document.exceptions
unfolding verify_exceptions
verify_exceptions_iff document intelligence now = (
  λ h.
      All-map (λ e. verify_exception intelligence (some now) e ≡ none)
        (IsAcceptable intelligence now) document.exceptions
        (λ e. (verify_exception_iff intelligence now e).0)
        (first_error-All (verify_exception intelligence (some now)) document.exceptions h),
  λ h. All-first_error (verify_exception intelligence (some now)) document.exceptions (
      All-map (IsAcceptable intelligence now)
        (λ e. verify_exception intelligence (some now) e ≡ none) document.exceptions
        (λ e. (verify_exception_iff intelligence now e).1) h),
)

-- An exception that is in force for a violation: it names the rule, covers the subject and has not
-- expired.
abbrev pub in_force : Inventory → ℕ → Violation → Exception → Bool
in_force inventory now v e =
    text_eq e.rule_id v.rule_id && exception_matches inventory e v && ltb now e.expires_at

scan_suppressed :
    (inventory : Inventory) (now : ℕ) (v : Violation) (es : List Exception)
    (applied expired : List Applied)
    → (scan_exceptions inventory now v es applied expired).suppressed
      ≡ any (in_force inventory now v) es
unfolding scan_exceptions
scan_suppressed inventory now v [] applied expired = refl
scan_suppressed inventory now v (e ∷ rest) applied expired = ground (
  arith,
  scan_suppressed inventory now v rest applied expired,
  scan_suppressed inventory now v rest applied
      (append_unique_applied expired (record { rule_id = v.rule_id; asset_id = v.asset_id })),
)

-- The violations without an exception in force, in their order.
abbrev pub standing : Inventory → ℕ → List Exception → List Violation → List Violation
standing inventory now es [] = []
standing inventory now es (v ∷ rest) =
    if any (in_force inventory now v) es
    then standing inventory now es rest
    else v ∷ standing inventory now es rest

apply_from-kept :
    (inventory : Inventory) (now : ℕ) (es : List Exception) (o : Outcome) (vs : List Violation)
    → (apply_from inventory now es o vs).kept ≡ o.kept ++ standing inventory now es vs
unfolding apply_from apply_one
apply_from-kept inventory now es o [] = sym (append-nil o.kept)
apply_from-kept inventory now es o (v ∷ rest) =
    apply_from-kept inventory now es (apply_one inventory now es o v) rest
    ∙ rw (scan_suppressed inventory now v es o.applied o.expired)
        (join (any (in_force inventory now v) es))
  where
    join :
        (b : Bool)
        → (if b then o.kept else o.kept ++ v ∷ []) ++ standing inventory now es rest
          ≡ o.kept
            ++ (if b then standing inventory now es rest else v ∷ standing inventory now es rest)
    join true = refl
    join false = append_assoc o.kept (v ∷ []) (standing inventory now es rest)

-- `applyExceptions` keeps exactly the violations that no exception in force covers, in their order:
-- an expired exception, and one for another rule or subject, suppresses nothing.
pub apply_exceptions-kept :
    (inventory : Inventory) (now : ℕ) (documented given : List Exception) (vs : List Violation)
    → (apply_exceptions inventory now documented given vs).kept
      ≡ standing inventory now (documented ++ given) vs
unfolding apply_exceptions
apply_exceptions-kept inventory now documented given vs =
    apply_from-kept inventory now (documented ++ given) nothing vs
