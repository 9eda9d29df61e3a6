-- ===== src/Finding/Decision/Malicious.antt =====
-- internal/finding/decision.go: `Decide` on assets with a finding of known malice.
use ssc_init.Base.{
  ◌≡◌, ◌≤◌, refl, sym, ◌∙◌, inl, inr, Ordering, true, false, Bool-cases, Option-cases, some, List,
  [], ◌∷◌, ◌++◌, arith, All, Any, Text, text_eq_iff, compare_text, Dict, get, put, get-put, keys,
  sort_by-Any, sort_by-All, Member, Member-left, Member-right, sorted_set-Member,
}
use ssc_init.Model.{Finding, Action, known_malicious}
use ssc_init.Finding.Rank.{verdict_rank}
use ssc_init.Finding.Rules.{Runtime, DecisionInput, Facts, facts, outranks, index_findings}
use ssc_init.Finding.Rules.Index.{get-keys}
use ssc_init.Finding.Decision.{decide_prior, decide_one, decide_all, ordered_ids, decide, confirmed}
use ssc_init.Finding.Decision.Unique.{AreKeyed, facts-AreKeyed, decide_one_names}

-- A finding of level 1 that says that the asset is known to be malicious.
abbrev pub IsMalicious : Finding → Type 0
IsMalicious x = (x.level ≡ 1) × (x.verdict ≡ known_malicious)

-- The levels of the findings about an asset start at 1.
abbrev pub HasLevels : Text → List Finding → Type 0
HasLevels id items = All (λ x. x.asset_id ≡ id → 1 ≤ x.level) items

-- Nothing takes its place.
index_findings_keeps :
    (id : Text) (d : Dict Finding) (items : List Finding) (p : Finding)
    → HasLevels id items
    → IsMalicious p
    → get id d ≡ some p
    → get id (index_findings d items) ≡ some p
unfolding index_findings
index_findings_keeps id d [] p l m h = h
index_findings_keeps id d (x ∷ rest) p l m h = elim (Bool-cases (outranks x (get x.asset_id d))) [
  | inr f ↦ rw f (index_findings_keeps id d rest p l.1 m h)
  | inl t ↦ rw t (index_findings_keeps id (put x.asset_id x d) rest p l.1 m (kept t))
]
  where
    kept : outranks x (get x.asset_id d) ≡ true → get id (put x.asset_id x d) ≡ some p
    kept t =
        unfold outranks verdict_rank in
        ground (arith, get-put x.asset_id id x d, text_eq_iff x.asset_id id, l.0)

-- The levels of what a map holds about an asset start at 1.
abbrev HasLevel : Text → Dict Finding → Type 0
HasLevel id d = (c : Finding) → get id d ≡ some c → 1 ≤ c.level

put-HasLevel :
    (id : Text) (x : Finding) (d : Dict Finding)
    → (x.asset_id ≡ id → 1 ≤ x.level)
    → HasLevel id d
    → HasLevel id (put x.asset_id x d)
put-HasLevel id x d l h c e =
    ground (arith, get-put x.asset_id id x d, text_eq_iff x.asset_id id, h c, l)

-- A malicious finding of level 1 is held, or takes the place of the one that is held.
taken :
    (x : Finding) (d : Dict Finding)
    → IsMalicious x
    → HasLevel x.asset_id d
    → outranks x (get x.asset_id d) ≡ false
    → (p : Finding) × (get x.asset_id d ≡ some p) × IsMalicious p
unfolding outranks verdict_rank
taken x d m h f = elim (Option-cases (get x.asset_id d)) [
  | inl e ↦ absurd (ground arith)
  | inr (p, e) ↦ (p, e, ground (arith, h p e))
]

index_findings_finds :
    (id : Text) (d : Dict Finding) (items : List Finding)
    → HasLevels id items
    → HasLevel id d
    → Any (λ x. (x.asset_id ≡ id) × IsMalicious x) items
    → (p : Finding) × (get id (index_findings d items) ≡ some p) × IsMalicious p
unfolding index_findings
index_findings_finds id d [] l h m = elim m [ ]
index_findings_finds id d (x ∷ rest) l h (inl (same, m)) =
    elim (Bool-cases (outranks x (get x.asset_id d))) [
      | inl t ↦ (
        x,
        rw t (
            index_findings_keeps id (put x.asset_id x d) rest x l.1 m
              (ground (arith, get-put x.asset_id id x d, text_eq_iff x.asset_id id))),
        m,
      )
      | inr f ↦
          let (p, e, q) = taken x d m (λ c e. h c (rw (← same) e)) f in
          (p, rw f (index_findings_keeps id d rest p l.1 q (rw (← same) e)), q)
    ]
index_findings_finds id d (x ∷ rest) l h (inr later) =
    elim (Bool-cases (outranks x (get x.asset_id d))) [
      | inl t ↦
          let (p, e, q) =
            index_findings_finds id (put x.asset_id x d) rest l.1 (put-HasLevel id x d l.0 h)
              later in
          (p, rw t e, q)
      | inr f ↦ let (p, e, q) = index_findings_finds id d rest l.1 h later in (p, rw f e, q)
    ]

-- The decision for an asset that is known to be malicious.
abbrev pub IsConfirmed : Finding → Type 0
IsConfirmed x = IsMalicious x × (x.action ≡ Action.advisory)

module _ (rt : Runtime) (input : DecisionInput) (id : Text) where
  decide_one_confirms :
      (f : Facts) (p : Finding)
      → get id f.existing ≡ some p
      → IsMalicious p
      → decide_one rt input f id ≡ some (confirmed p)
  unfolding decide_one decide_prior
  decide_one_confirms f p e m = rw e (ground arith)

  module _ (f : Facts) (k : AreKeyed f) (p : Finding) (e : get id f.existing ≡ some p)
      (m : IsMalicious p) where
    one-IsConfirmed :
        (other : Text) (x : Finding)
        → decide_one rt input f other ≡ some x
        → x.asset_id ≡ id
        → IsConfirmed x
    one-IsConfirmed other x h same =
        let here : other ≡ id = sym (decide_one_names rt input f other x k h) ∙ same in
        let run : decide_one rt input f id ≡ some x = rw here at h in
        ground (arith, decide_one_confirms f p e m, run)

    all-IsConfirmed :
        (ids : List Text)
        → All (λ (x : Finding). x.asset_id ≡ id → IsConfirmed x) (decide_all rt input f ids)
    unfolding decide_all
    all-IsConfirmed [] = tt
    all-IsConfirmed (other ∷ ids) = elim (Option-cases (decide_one rt input f other)) [
      | inl n ↦ rw n (all-IsConfirmed ids)
      | inr (x, h) ↦ rw h (one-IsConfirmed other x h, all-IsConfirmed ids)
    ]

    found-IsConfirmed :
        (ids : List Text)
        → Member id ids
        → Any (λ (x : Finding). (x.asset_id ≡ id) × IsConfirmed x) (decide_all rt input f ids)
    unfolding decide_all
    found-IsConfirmed [] i = elim i [ ]
    found-IsConfirmed (other ∷ ids) (inl same) =
        let run : decide_one rt input f other ≡ some (confirmed p) =
          rw (← same) (decide_one_confirms f p e m) in
        rw run (
          inl
            (decide_one_names rt input f other (confirmed p) k run ∙ sym same, ((refl, m.1), refl)))
    found-IsConfirmed (other ∷ ids) (inr i) = elim (Option-cases (decide_one rt input f other)) [
      | inl n ↦ rw n (found-IsConfirmed ids i)
      | inr (x, h) ↦ rw h (inr (found-IsConfirmed ids i))
    ]

-- If some finding of level 1 says that an asset is known to be malicious, then `Decide` returns a
-- decision for the asset, and every decision that it returns for it says so, at level 1 and as advice,
-- whatever the organization and the local policy say. The levels of the findings start at 1.
pub decide_keeps_malicious :
    (rt : Runtime) (input : DecisionInput) (id : Text)
    → HasLevels id input.findings
    → Any (λ x. (x.asset_id ≡ id) × IsMalicious x) input.findings
    → Any (λ x. (x.asset_id ≡ id) × IsConfirmed x) (decide rt input)
      × All (λ x. x.asset_id ≡ id → IsConfirmed x) (decide rt input)
unfolding decide facts ordered_ids
decide_keeps_malicious rt input id l some_malicious =
    let f = facts rt input in
    let k : AreKeyed f = facts-AreKeyed rt input in
    let (p, e, m) =
      index_findings_finds id [] input.findings l (λ c e. absurd (unfold get in cc))
        some_malicious in
    let ids = ordered_ids f in
    let by_id : Finding → Finding → Ordering = λ l r. compare_text l.id r.id in
    (
      sort_by-Any by_id (λ x. (x.asset_id ≡ id) × IsConfirmed x) (decide_all rt input f ids)
          (found-IsConfirmed rt input id f k p e m ids (held f p e)),
      sort_by-All by_id (λ x. x.asset_id ≡ id → IsConfirmed x) (decide_all rt input f ids)
          (all-IsConfirmed rt input id f k p e m ids),
    )
  where
    held : (f : Facts) (p : Finding) → get id f.existing ≡ some p → Member id (ordered_ids f)
    held f p e = sorted_set-Member id (keys f.assets ++ keys f.existing ++ keys f.local) (
        Member-left id (keys f.assets ++ keys f.existing) (keys f.local)
          (Member-right id (keys f.assets) (keys f.existing) (get-keys id f.existing p e)))
