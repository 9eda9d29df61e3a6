-- ===== src/Finding/Decision/Checked.antt =====
-- internal/finding/decision.go: `Decide` and `Finding.Valid`.
use ssc_init.Base.{
  ◌≡◌, ◌≢◌, refl, ◌⊎◌, inl, inr, Bool, true, false, Bool-cases, Option, Option-cases, none, some,
  List, [], ◌∷◌, ◌++◌, arith, All, All-Member, Member, is_empty, if◌then◌else◌, Text, compare_text,
  get, get_all, sort_by-All,
}
use ssc_init.Model.{Asset, Finding, Action, Verdict, Severity}
use ssc_init.Model.Validity.{valid, valid_action, valid_verdict, valid_severity}
use ssc_init.Policy.Document.{Violation}
use ssc_init.Finding.Rules.{Runtime, DecisionInput, Exempt, Facts, facts, is_known_malicious}
use ssc_init.Finding.Rules.Sources.{index_assets-Member, index_findings-All}
use ssc_init.Finding.Decision.{
  exact_allows, violation_ids, matching_exceptions, policy_finding, confirmed, decide_violation,
  decide_known, decide_rest, decide_prior, decide_one, decide_all, ordered_ids, decide,
}
use ssc_init.Finding.Decision.Valid.{IsDecidable, IsReferable, valid-policy_finding}

confirmed-valid : (p : Finding) → valid p ≡ true → valid (confirmed p) ≡ true
unfolding valid valid_action
confirmed-valid p h = ground arith

-- The facts that a decision takes over pass the check.
pub record AreValid (input : DecisionInput) : Type 0 where
  pub decidable : All IsDecidable input.inventory.assets
  pub checked : All (λ (x : Finding). valid x ≡ true) input.findings
  pub referable : IsReferable input.policy
  pub dated : input.now ≢ 0

module _ (rt : Runtime) (input : DecisionInput) (v : AreValid input) where
  violation-valid :
      (a : Asset) (exempts : List Exempt) (vs : List Violation)
      → IsDecidable a
      → valid (decide_violation rt input a exempts vs) ≡ true
  unfolding decide_violation valid_action valid_verdict valid_severity
  violation-valid a exempts vs d = either (is_empty excused)
    where
      ids : List Text
      ids = violation_ids vs

      excused : List Text
      excused = matching_exceptions exempts ids

      either :
          (b : Bool)
          → valid (
              if b
              then policy_finding rt a 5 Action.advisory Verdict.needs_review Severity.medium ids
                  none input.now
              else policy_finding rt a 4 Action.excepted Verdict.needs_review Severity.low
                  (ids ++ excused)
                  input.policy
                  input.now)
            ≡ true
      either true =
          valid-policy_finding rt a 5 Action.advisory Verdict.needs_review Severity.medium ids none
            input.now d (ground arith) (refl, refl, refl) tt v.dated
      either false =
          valid-policy_finding rt a 4 Action.excepted Verdict.needs_review Severity.low
            (ids ++ excused) input.policy input.now d (ground arith) (refl, refl, refl) v.referable
            v.dated

  known-valid :
      (f : Facts) (a : Asset) (id : Text) (prior : Option Finding) (x : Finding)
      → IsDecidable a
      → ((p : Finding) → prior ≡ some p → valid p ≡ true)
      → decide_known rt input f a id prior ≡ some x
      → valid x ≡ true
  unfolding decide_known valid_action valid_verdict valid_severity
  known-valid f a id prior x d p h = ground (
    arith,
    valid-policy_finding rt a 2 Action.advisory Verdict.needs_review Severity.high
        (get_all id f.rules.denies) input.policy input.now d (ground arith) (refl, refl, refl)
        v.referable v.dated,
    valid-policy_finding rt a 3 Action.allowed Verdict.no_finding Severity.informational
        (exact_allows (get_all id f.rules.allows) a.sha256) input.policy input.now d (ground arith)
        (refl, refl, refl) v.referable v.dated,
    violation-valid a (get_all id f.rules.exceptions) (get_all id f.local) d,
    p x,
  )

  prior-valid :
      (f : Facts) (o : Option Asset) (id : Text) (prior : Option Finding) (x : Finding)
      → ((a : Asset) → o ≡ some a → IsDecidable a)
      → ((p : Finding) → prior ≡ some p → valid p ≡ true)
      → decide_prior rt input f o id prior ≡ some x
      → valid x ≡ true
  unfolding decide_prior
  prior-valid f o id none x d p h = rest o d h
    where
      rest :
          (o : Option Asset)
          → ((a : Asset) → o ≡ some a → IsDecidable a)
          → decide_rest rt input f o id none ≡ some x
          → valid x ≡ true
      rest none d h = p x (unfold decide_rest in h)
      rest (some a) d h = known-valid f a id none x (d a refl) p (unfold decide_rest in h)
  prior-valid f o id (some y) x d p h = elim (Bool-cases (is_known_malicious y.verdict)) [
    | inl t ↦ ground (arith, confirmed-valid y (p y refl))
    | inr n ↦ rest o d (ground arith)
  ]
    where
      rest :
          (o : Option Asset)
          → ((a : Asset) → o ≡ some a → IsDecidable a)
          → decide_rest rt input f o id (some y) ≡ some x
          → valid x ≡ true
      rest none d h = p x (unfold decide_rest in h)
      rest (some a) d h = known-valid f a id (some y) x (d a refl) p (unfold decide_rest in h)

  one-valid :
      (id : Text) (x : Finding) → decide_one rt input (facts rt input) id ≡ some x → valid x ≡ true
  unfolding decide_one facts get
  one-valid id x h =
      prior-valid (facts rt input) (get id (facts rt input).assets) id
        (get id (facts rt input).existing) x
        (λ a e. known a (index_assets-Member [] input.inventory.assets id a e))
        (λ p e.
          index_findings-All (λ y. valid y ≡ true) [] input.findings id v.checked (λ c e. cc) p e)
        h
    where
      known : (a : Asset) → (get id [] ≡ some a) ⊎ Member a input.inventory.assets → IsDecidable a
      known a (inl e) = cc
      known a (inr m) = All-Member IsDecidable a input.inventory.assets v.decidable m

  all-valid :
      (ids : List Text)
      → All (λ (x : Finding). valid x ≡ true) (decide_all rt input (facts rt input) ids)
  unfolding decide_all
  all-valid [] = tt
  all-valid (id ∷ ids) = elim (Option-cases (decide_one rt input (facts rt input) id)) [
    | inl e ↦ rw e (all-valid ids)
    | inr (x, e) ↦ rw e (one-valid id x e, all-valid ids)
  ]

-- Where the assets have an ID, a type of the catalog and no digest or one of 32 bytes, the prior findings
-- pass `Finding.Valid`, the policy bundle has a sequence and a digest, and the instant is not the
-- zero time, every decision passes `Finding.Valid`.
pub decide-valid :
    (rt : Runtime) (input : DecisionInput)
    → AreValid input
    → All (λ (x : Finding). valid x ≡ true) (decide rt input)
unfolding decide
decide-valid rt input v =
    sort_by-All (λ l r. compare_text l.id r.id) (λ (x : Finding). valid x ≡ true)
      (decide_all rt input (facts rt input) (ordered_ids (facts rt input)))
      (all-valid rt input v (ordered_ids (facts rt input)))
