-- ===== src/Collector/Coverage/Complete.antt =====
-- internal/collector/coverage.go: the status complete of `ApplyTargetContract` and `AggregateTargetStatus`.
use ssc_init.Base.{
  Any-left, Any-right, Member, ◌≡◌, ◌≢◌, ◌↔◌, ◌⊎◌, refl, inl, inr, Bool, true, false, ◌&&◌,
  Bool-cases, Option, none, some, List, [], ◌∷◌, ◌++◌, arith, All, Any, all, if◌then◌else◌, Text,
  text_eq, text_eq→eq, compare_text, sort_by, sort_by-Any,
}
use ssc_init.Collector.{TargetStatus, CoverageStatus, TargetSpec, TargetCoverage, CollectorResult}
use ssc_init.Collector.Coverage.{
  known_targets, reported_targets, is_reported, not_reported, missing_targets, compare_targets,
  is_done, is_skipped, is_unavailable, aggregate_target_status, completed_targets, accepted,
  target_contract_violation, failed_result, apply_target_contract,
}

-- The target's status is complete or not present.
abbrev pub IsDone : TargetCoverage → Type 0
IsDone t = (t.status ≡ TargetStatus.complete) ⊎ (t.status ≡ TargetStatus.not_present)

abbrev pub IsSkipped : TargetCoverage → Type 0
IsSkipped t = t.status ≡ TargetStatus.skipped

abbrev pub IsUnavailable : TargetCoverage → Type 0
IsUnavailable t = t.status ≡ TargetStatus.unavailable

-- A test decides a predicate.
abbrev Decides : (TargetCoverage → Bool) → (TargetCoverage → Type 0) → Type 0
Decides test P = (t : TargetCoverage) → (test t ≡ true) ↔ P t

is_done_iff : Decides (λ t. is_done t.status) IsDone
is_done_iff t = by_status t.status
  where
    by_status :
        (s : TargetStatus)
        → (is_done s ≡ true) ↔ ((s ≡ TargetStatus.complete) ⊎ (s ≡ TargetStatus.not_present))
    by_status TargetStatus.complete = unfold is_done in (λ h. inl refl, λ h. refl)
    by_status TargetStatus.not_present = unfold is_done in (λ h. inr refl, λ h. refl)
    by_status s = unfold is_done in (λ h. ground arith, λ h. ground arith)

is_skipped_iff : Decides (λ t. is_skipped t.status) IsSkipped
unfolding is_skipped
is_skipped_iff t = (λ h. ground arith, λ h. ground arith)

is_unavailable_iff : Decides (λ t. is_unavailable t.status) IsUnavailable
unfolding is_unavailable
is_unavailable_iff t = (λ h. ground arith, λ h. ground arith)

module _ (test : TargetCoverage → Bool) (P : TargetCoverage → Type 0) (law : Decides test P) where
  all-All : (ts : List TargetCoverage) → all test ts ≡ true → All P ts
  all-All [] h = tt
  all-All (t ∷ ts) h = ((law t).0 (ground arith), all-All ts (ground arith))

  All-all : (ts : List TargetCoverage) → All P ts → all test ts ≡ true
  All-all [] h = refl
  All-all (t ∷ ts) h = ground (arith, (law t).1 h.0, All-all ts h.1)

  all-Any : (ts : List TargetCoverage) → all test ts ≡ false → Any (λ t. ¬ (P t)) ts
  all-Any [] h = cc
  all-Any (t ∷ ts) h = elim (Bool-cases (test t)) [
    | inl e ↦ inr (all-Any ts (ground arith))
    | inr f ↦ inl (λ p. let e : test t ≡ true = (law t).1 p in cc)
  ]

  Any-all : (ts : List TargetCoverage) → Any (λ t. ¬ (P t)) ts → all test ts ≡ false
  Any-all [] m = elim m [ ]
  Any-all (t ∷ ts) (inl n) = elim (Bool-cases (test t)) [
    | inl e ↦ absurd (n ((law t).0 e))
    | inr f ↦ rw f refl
  ]
  Any-all (t ∷ ts) (inr m) = ground (arith, Any-all ts m)

-- A status passes at most one of the tests.
alone :
    (s : TargetStatus)
    → ((is_skipped s && is_done s) ≡ false)
      × ((is_unavailable s && is_done s) ≡ false)
      × ((is_unavailable s && is_skipped s) ≡ false)
unfolding is_done is_skipped is_unavailable
alone TargetStatus.skipped = (refl, refl, refl)
alone s = (ground arith, ground arith, ground arith)

-- The status of targets is complete exactly when there is a target and each is complete or not
-- present, skipped exactly when there is one and each is skipped, unavailable exactly when there is
-- one and each is unavailable, and partial exactly when there is none, or one is neither complete nor
-- not present, one is not skipped and one is not unavailable.
pub aggregate_target_status_iff :
    (ts : List TargetCoverage)
    → ((aggregate_target_status ts ≡ CoverageStatus.complete) ↔ ((ts ≢ []) × All IsDone ts))
      × ((aggregate_target_status ts ≡ CoverageStatus.skipped) ↔ ((ts ≢ []) × All IsSkipped ts))
      × ((aggregate_target_status ts ≡ CoverageStatus.unavailable)
          ↔ ((ts ≢ []) × All IsUnavailable ts))
      × ((aggregate_target_status ts ≡ CoverageStatus.partial) ↔ (
          (ts ≡ [])
          ⊎ (Any (λ t. ¬ (IsDone t)) ts
              × Any (λ t. ¬ (IsSkipped t)) ts
              × Any (λ t. ¬ (IsUnavailable t)) ts)))
unfolding aggregate_target_status
aggregate_target_status_iff [] = (
  (λ h. cc, λ h. absurd (h.0 refl)),
  (λ h. cc, λ h. absurd (h.0 refl)),
  (λ h. cc, λ h. absurd (h.0 refl)),
  (λ h. inl refl, λ h. refl),
)
aggregate_target_status_iff (t ∷ ts) =
    let all_done = All-all (λ t. is_done t.status) IsDone is_done_iff (t ∷ ts) in
    let all_skipped = All-all (λ t. is_skipped t.status) IsSkipped is_skipped_iff (t ∷ ts) in
    let all_unavailable =
      All-all (λ t. is_unavailable t.status) IsUnavailable is_unavailable_iff (t ∷ ts) in
    (
      (
        λ h. (λ e. cc, all-All (λ t. is_done t.status) IsDone is_done_iff (t ∷ ts) (ground arith)),
        λ h. ground (arith, all_done h.1),
      ),
      (
        λ h. (
          λ e. cc,
          all-All (λ t. is_skipped t.status) IsSkipped is_skipped_iff (t ∷ ts) (ground arith),
        ),
        λ h. ground (arith, all_skipped h.1, alone t.status),
      ),
      (
        λ h. (
          λ e. cc,
          all-All (λ t. is_unavailable t.status) IsUnavailable is_unavailable_iff (t ∷ ts)
              (ground arith),
        ),
        λ h. ground (arith, all_unavailable h.1, alone t.status),
      ),
      (
        λ h. inr (
          all-Any (λ t. is_done t.status) IsDone is_done_iff (t ∷ ts) (ground arith),
          all-Any (λ t. is_skipped t.status) IsSkipped is_skipped_iff (t ∷ ts) (ground arith),
          all-Any (λ t. is_unavailable t.status) IsUnavailable is_unavailable_iff (t ∷ ts)
              (ground arith),
        ),
        λ h. elim h [
          | inl e ↦ cc
          | inr (d, k, u) ↦ ground (
            arith,
            Any-all (λ t. is_done t.status) IsDone is_done_iff (t ∷ ts) d,
            Any-all (λ t. is_skipped t.status) IsSkipped is_skipped_iff (t ∷ ts) k,
            Any-all (λ t. is_unavailable t.status) IsUnavailable is_unavailable_iff (t ∷ ts) u,
          )
        ],
      ),
    )

-- The target is among the reported ones.
abbrev pub IsCovered : List TargetCoverage → TargetSpec → Type 0
IsCovered ts spec = Any (λ t. t.target_id ≡ spec.id) ts

is_reported-IsCovered :
    (spec : TargetSpec) (ts : List TargetCoverage) → is_reported ts spec ≡ true → IsCovered ts spec
is_reported-IsCovered spec [] h = cc
is_reported-IsCovered spec (t ∷ ts) h = elim (Bool-cases (text_eq t.target_id spec.id)) [
  | inl e ↦ inl (text_eq→eq t.target_id spec.id e)
  | inr f ↦ inr (is_reported-IsCovered spec ts (ground arith))
]

missing_targets-IsCovered :
    (spec : TargetSpec) (ts : List TargetCoverage) (specs : List TargetSpec)
    → is_reported ts spec ≡ false
    → Member spec specs
    → IsCovered (missing_targets ts specs) spec
unfolding missing_targets
missing_targets-IsCovered spec ts [] f m = elim m [ ]
missing_targets-IsCovered spec ts (x ∷ specs) f (inl same) =
    let absent : is_reported ts x ≡ false = rw (← same) f in rw absent (inl (rw same refl))
missing_targets-IsCovered spec ts (x ∷ specs) f (inr m) =
    either (is_reported ts x) (missing_targets-IsCovered spec ts specs f m)
  where
    either :
        (b : Bool)
        → IsCovered (missing_targets ts specs) spec
        → IsCovered
            (if b then missing_targets ts specs else not_reported x ∷ missing_targets ts specs)
            spec
    either true c = c
    either false c = inr c

completed_targets-IsCovered :
    (spec : TargetSpec) (specs : List TargetSpec) (ts : List TargetCoverage)
    → Member spec specs
    → IsCovered (completed_targets specs ts) spec
unfolding completed_targets
completed_targets-IsCovered spec specs ts m =
    sort_by-Any compare_targets (λ t. t.target_id ≡ spec.id) (ts ++ missing_targets ts specs)
      (elim (Bool-cases (is_reported ts spec)) [
        | inl r ↦
            Any-left (λ t. t.target_id ≡ spec.id) ts (missing_targets ts specs)
              (is_reported-IsCovered spec ts r)
        | inr f ↦
            Any-right (λ t. t.target_id ≡ spec.id) ts (missing_targets ts specs)
              (missing_targets-IsCovered spec ts specs f m)
      ])

-- A target of the spec that is complete or not present.
abbrev pub IsCompleted : List TargetCoverage → TargetSpec → Type 0
IsCompleted ts spec = Any (λ t. (t.target_id ≡ spec.id) × IsDone t) ts

covered-IsCompleted :
    (spec : TargetSpec) (ts : List TargetCoverage)
    → IsCovered ts spec
    → All IsDone ts
    → IsCompleted ts spec
covered-IsCompleted spec [] c d = elim c [ ]
covered-IsCompleted spec (t ∷ ts) (inl e) d = inl (e, d.0)
covered-IsCompleted spec (t ∷ ts) (inr c) d = inr (covered-IsCompleted spec ts c d.1)

accepted-IsCompleted :
    (name : Text) (ts : List TargetCoverage) (result : CollectorResult) (spec : TargetSpec)
    → IsCovered ts spec
    → (accepted name ts result).status ≡ CoverageStatus.complete
    → IsCompleted (accepted name ts result).targets spec
unfolding accepted
accepted-IsCompleted name ts result spec c h =
    covered-IsCompleted spec ts c ((aggregate_target_status_iff ts).0.0 (ground arith)).1

-- A result that `ApplyTargetContract` gives the status complete has, for every target of the
-- collector's catalog, a report of the target that is complete or not present.
pub complete_covers_targets :
    (name : Text) (specs : List TargetSpec) (result : CollectorResult) (spec : TargetSpec)
    → Member spec specs
    → (apply_target_contract name specs result).status ≡ CoverageStatus.complete
    → IsCompleted (apply_target_contract name specs result).targets spec
unfolding apply_target_contract target_contract_violation failed_result
complete_covers_targets name specs result spec m h = known (known_targets name [] sorted) h
  where
    sorted : List TargetSpec
    sorted = sort_by (λ l r. compare_text l.id r.id) specs

    reported : Option (List TargetCoverage) → CollectorResult
    reported o = elim o [
      | none ↦ target_contract_violation name
      | some seen ↦ accepted name (completed_targets sorted result.targets) result
    ]

    by_report :
        (o : Option (List TargetCoverage))
        → (reported o).status ≡ CoverageStatus.complete
        → IsCompleted (reported o).targets spec
    by_report none e = cc
    by_report (some seen) e =
        accepted-IsCompleted name (completed_targets sorted result.targets) result spec
          (completed_targets-IsCovered spec sorted result.targets
            (sort_by-Any (λ l r. compare_text l.id r.id) (λ x. spec ≡ x) specs m))
          e

    outcome : Option (List Text) → CollectorResult
    outcome o = elim o [
      | none ↦ target_contract_violation name
      | some ids ↦ reported (reported_targets ids [] result.targets)
    ]

    known :
        (o : Option (List Text))
        → (outcome o).status ≡ CoverageStatus.complete
        → IsCompleted (outcome o).targets spec
    known none e = cc
    known (some ids) e = by_report (reported_targets ids [] result.targets) e
