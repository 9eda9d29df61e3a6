-- ===== src/Finding/Decision/Unique.antt =====
-- internal/finding/decision.go: the assets that the decisions of `Decide` are about.
use ssc_init.Base.{
  ◌≡◌, ◌≢◌, refl, sym, ◌∙◌, ◌⊎◌, inl, inr, lt, Bool-cases, Option, Option-cases, none, some, List,
  [], ◌∷◌, arith, All, All-map, Text, compare_text, compare_text-IsLawful, get, Pairs,
  sort_by-Pairs, IsAscending, IsKeyed, empty-IsKeyed, sorted_set-IsAscending,
}
use ssc_init.Model.{Asset, Finding}
use ssc_init.Finding.Rules.{Runtime, DecisionInput, Facts, facts, is_known_malicious}
use ssc_init.Finding.Rules.Index.{index_assets-IsKeyed, index_findings-IsKeyed}
use ssc_init.Finding.Decision.{
  policy_finding, decide_violation, decide_known, decide_rest, decide_prior, decide_one, decide_all,
  ordered_ids, decide,
}

-- The assets and the prior findings are held under their own IDs.
pub record AreKeyed (f : Facts) : Type 0 where
  pub assets : IsKeyed (λ a. a.id) f.assets
  pub existing : IsKeyed (λ x. x.asset_id) f.existing

module _ (rt : Runtime) where
  pub facts-AreKeyed : (input : DecisionInput) → AreKeyed (facts rt input)
  unfolding facts
  facts-AreKeyed input = record {
    assets = index_assets-IsKeyed [] input.inventory.assets (empty-IsKeyed (λ (a : Asset). a.id));
    existing =
        index_findings-IsKeyed [] input.findings (empty-IsKeyed (λ (x : Finding). x.asset_id));
  }

  module _ (input : DecisionInput) where
    -- A decision for a known asset names the asset, or is the prior finding.
    decide_known_names :
        (f : Facts) (asset : Asset) (id : Text) (prior : Option Finding) (x : Finding)
        → decide_known rt input f asset id prior ≡ some x
        → (x.asset_id ≡ asset.id) ⊎ (prior ≡ some x)
    unfolding decide_known decide_violation policy_finding
    decide_known_names f asset id prior x h = ground arith

    rest_names :
        (f : Facts) (id : Text) (prior : Option Finding) (x : Finding) (o : Option Asset)
        → ((a : Asset) → o ≡ some a → a.id ≡ id)
        → decide_rest rt input f o id prior ≡ some x
        → (x.asset_id ≡ id) ⊎ (prior ≡ some x)
    unfolding decide_rest
    rest_names f id prior x none k h = inr h
    rest_names f id prior x (some a) k h = elim (decide_known_names f a id prior x h) [
      | inl e ↦ inl (e ∙ k a refl)
      | inr e ↦ inr e
    ]

    prior_names :
        (f : Facts) (id : Text) (x : Finding) (o : Option Asset) (p : Option Finding)
        → ((a : Asset) → o ≡ some a → a.id ≡ id)
        → ((y : Finding) → p ≡ some y → y.asset_id ≡ id)
        → decide_prior rt input f o id p ≡ some x
        → x.asset_id ≡ id
    unfolding decide_prior
    prior_names f id x o none k l h = elim (rest_names f id none x o k h) [ inl e ↦ e | inr e ↦ cc ]
    prior_names f id x o (some y) k l h = elim (Bool-cases (is_known_malicious y.verdict)) [
      | inl t ↦ ground (arith, l y refl)
      | inr n ↦ elim (rest_names f id (some y) x o k (ground arith)) [
        | inl e ↦ e
        | inr e ↦ ground (arith, l y refl)
      ]
    ]

    pub decide_one_names :
        (f : Facts) (id : Text) (x : Finding)
        → AreKeyed f
        → decide_one rt input f id ≡ some x
        → x.asset_id ≡ id
    unfolding decide_one
    decide_one_names f id x k h =
        prior_names f id x (get id f.assets) (get id f.existing) (k.assets id) (k.existing id) h

lt-ne : (a b : Text) → compare_text a b ≡ lt → a ≢ b
lt-ne a b h = λ e. ground (arith, compare_text-IsLawful.flip a a)

-- Two decisions about different assets.
abbrev pub Differ : Finding → Finding → Type 0
Differ x y = x.asset_id ≢ y.asset_id

module _ (rt : Runtime) (input : DecisionInput) (f : Facts) (k : AreKeyed f) where
  -- The decisions for IDs above a bound are about assets above it.
  decide_all-above :
      (b : Text) (ids : List Text)
      → All (λ y. compare_text b y ≡ lt) ids
      → All (λ (x : Finding). compare_text b x.asset_id ≡ lt) (decide_all rt input f ids)
  unfolding decide_all
  decide_all-above b [] h = tt
  decide_all-above b (id ∷ ids) h = elim (Option-cases (decide_one rt input f id)) [
    | inl e ↦ rw e (decide_all-above b ids h.1)
    | inr (x, e) ↦ rw e (rw (decide_one_names rt input f id x k e) h.0, decide_all-above b ids h.1)
  ]

  decide_all-Pairs : (ids : List Text) → IsAscending ids → Pairs Differ (decide_all rt input f ids)
  unfolding decide_all
  decide_all-Pairs [] h = tt
  decide_all-Pairs (id ∷ ids) h = elim (Option-cases (decide_one rt input f id)) [
    | inl e ↦ rw e (decide_all-Pairs ids h.1)
    | inr (x, e) ↦ rw e (
      All-map (λ (y : Finding). compare_text id y.asset_id ≡ lt) (Differ x)
          (decide_all rt input f ids)
          (λ y q. rw (decide_one_names rt input f id x k e) (lt-ne id y.asset_id q))
          (decide_all-above id ids h.0),
      decide_all-Pairs ids h.1,
    )
  ]

-- `Decide` returns at most one decision for each asset ID.
pub decide-Pairs : (rt : Runtime) (input : DecisionInput) → Pairs Differ (decide rt input)
unfolding decide ordered_ids
decide-Pairs rt input =
    sort_by-Pairs (λ l r. compare_text l.id r.id) Differ (λ a b ne e. ne (sym e))
      (decide_all rt input (facts rt input) (ordered_ids (facts rt input)))
      (decide_all-Pairs rt input (facts rt input) (facts-AreKeyed rt input)
        (ordered_ids (facts rt input)) (sorted_set-IsAscending _))
