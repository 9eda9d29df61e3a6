-- ===== src/Policy/Evaluate/Results.antt =====
-- internal/policy/evaluate.go: the violations that `Evaluate` reports.
use ssc_init.Base.{
  ◌≡◌, false, Bool-cases, inl, inr, List, [], ◌∷◌, ◌++◌, All, any, IsSortedBy, sort_by-All,
  sort_by-IsSortedBy, IsLawful, then-IsLawful, on-IsLawful, compare_text-IsLawful,
}
use ssc_init.Policy.Document.{Exception, Violation}
use ssc_init.Policy.Exception.Effect.{standing, in_force, apply_exceptions-kept}
use ssc_init.Policy.Evaluate.{Input, found, compare_violations, evaluate}
use ssc_init.Policy.Evaluate.Ruled.{IsRuled, found-IsRuled}

-- The exceptions of the document and of the call.
abbrev pub exceptions_of : Input → List Exception
exceptions_of input = input.sources.document.exceptions ++ input.exceptions

-- A violation that `Evaluate` may report: it names an enabled rule of the document, and no exception is
-- in force for it.
abbrev pub IsReportable : Input → Violation → Type 0
IsReportable input v =
    IsRuled input.sources.document.rules v
    × (any (in_force input.inventory input.now v) (exceptions_of input) ≡ false)

standing-All :
    (input : Input) (vs : List Violation)
    → All (IsRuled input.sources.document.rules) vs
    → All (IsReportable input) (standing input.inventory input.now (exceptions_of input) vs)
standing-All input [] h = tt
standing-All input (v ∷ rest) h =
    elim (Bool-cases (any (in_force input.inventory input.now v) (exceptions_of input))) [
      | inl t ↦ rw t (standing-All input rest h.1)
      | inr f ↦ rw f ((h.0, f), standing-All input rest h.1)
    ]

compare_violations-IsLawful : IsLawful compare_violations
unfolding compare_violations
compare_violations-IsLawful =
    then-IsLawful _ _ (on-IsLawful (λ (v : Violation). v.rule_id) compare_text-IsLawful)
      (on-IsLawful (λ (v : Violation). v.asset_id) compare_text-IsLawful)

-- Every violation that `Evaluate` reports names an enabled rule of the document and has no exception
-- in force, and the violations are in order of rule and asset.
pub evaluate_reports :
    (input : Input)
    → All (IsReportable input) (evaluate input).violations
      × IsSortedBy compare_violations (evaluate input).violations
unfolding evaluate
evaluate_reports input = (
  sort_by-All compare_violations (IsReportable input) _ (
      rw
        (apply_exceptions-kept input.inventory input.now input.sources.document.exceptions
          input.exceptions (found input))
        (standing-All input (found input) (found-IsRuled input))),
  sort_by-IsSortedBy compare_violations compare_violations-IsLawful _,
)
