-- ===== src/Finding/Decision/Grounds.antt =====
-- internal/finding/decision.go: the decisions of `Decide` that allow an asset.
use ssc_init.Base.{
  ◌≡◌, ◌≢◌, refl, sym, ◌∙◌, ◌⊎◌, inl, inr, true, false, Bool-cases, Option, Option-cases, none,
  some, List, [], ◌∷◌, arith, All, is_empty, Text, compare_text, get, get_all, sort_by-All, ap, Any,
  Member, sorted_unique, sorted_unique-empty,
}
use ssc_init.Model.{Asset, Finding, Action}
use ssc_init.Finding.Bundle.{ActiveBundle, PolicyPayload}
use ssc_init.Finding.Rank.{equal_fold}
use ssc_init.Finding.Rules.{
  Runtime, DecisionInput, Facts, Allow, facts, is_known_malicious, is_policy, organization_rules,
  no_rules, index_denies, index_allows,
}
use ssc_init.Finding.Rules.Sources.{
  Allows, index_allows-Any, index_denies-empty, index_assets-Member, index_findings-All,
}
use ssc_init.Finding.Decision.Unique.{facts-AreKeyed, decide_one_names}
use ssc_init.Finding.Decision.{
  matching_allows, exact_allows, policy_finding, decide_violation, decide_known, decide_rest,
  decide_prior, decide_one, decide_all, ordered_ids, decide,
}

-- What an allowance rests on: an asset of the inventory, and an organization policy that has no deny
-- rule for it and an allow rule for its digest.
pub record AllowGrounds (input : DecisionInput) (x : Finding) : Type 0 where
  pub asset : Asset
  pub listed : Member asset input.inventory.assets
  pub named : asset.id ≡ x.asset_id
  pub active : ActiveBundle
  pub payload : PolicyPayload
  pub is_active : input.policy ≡ some active
  pub is_payload : active.policy ≡ some payload
  pub not_denied : All (λ r. r.asset_id ≢ x.asset_id) payload.denies
  pub allowed : Any (Allows x.asset_id asset.sha256) payload.allows

matching_allows-Any :
    (rules : List Allow) (digest : Text)
    → matching_allows rules digest ≢ []
    → Any (λ (a : Allow). equal_fold a.digest digest ≡ true) rules
unfolding matching_allows
matching_allows-Any [] digest h = absurd (h refl)
matching_allows-Any (a ∷ rest) digest h = elim (Bool-cases (equal_fold a.digest digest)) [
  | inl t ↦ inl t
  | inr f ↦ inr (matching_allows-Any rest digest (λ e. h (ground arith)))
]

exact_allows-Any :
    (rules : List Allow) (digest : Text)
    → is_empty (exact_allows rules digest) ≡ false
    → Any (λ (a : Allow). equal_fold a.digest digest ≡ true) rules
unfolding exact_allows
exact_allows-Any rules digest h =
    matching_allows-Any rules digest (λ e. ground (arith, sorted_unique-empty, ap sorted_unique e))

-- The rules that the policy gives, as far as an allowance reads them.
record RuleGrounds (input : DecisionInput) (id digest : Text) : Type 0 where
  active : ActiveBundle
  payload : PolicyPayload
  is_active : input.policy ≡ some active
  is_payload : active.policy ≡ some payload
  not_denied : All (λ r. r.asset_id ≢ id) payload.denies
  allowed : Any (Allows id digest) payload.allows

module _ (rt : Runtime) (input : DecisionInput) where
  payload_grounds :
      (id digest : Text) (active : ActiveBundle) (payload : PolicyPayload)
      → input.policy ≡ some active
      → active.policy ≡ some payload
      → get_all id (index_denies [] payload.denies) ≡ []
      → is_empty (exact_allows (get_all id (index_allows [] payload.allows)) digest) ≡ false
      → RuleGrounds input id digest
  unfolding get
  payload_grounds id digest active payload a p d h = record {
    active = active;
    payload = payload;
    is_active = a;
    is_payload = p;
    not_denied = (index_denies-empty [] payload.denies id d).1;
    allowed =
        elim (index_allows-Any [] payload.allows id digest
          (exact_allows-Any (get_all id (index_allows [] payload.allows)) digest h)) [
            | inl nothing ↦ absurd nothing
            | inr found ↦ found
          ];
  }

  no_rules-allow :
      (id digest : Text) → is_empty (exact_allows (get_all id no_rules.allows) digest) ≡ true
  unfolding exact_allows matching_allows get
  no_rules-allow id digest = rw sorted_unique-empty

  active_grounds :
      (id digest : Text) (a : ActiveBundle) (p : Option PolicyPayload)
      → input.policy ≡ some a
      → a.policy ≡ p
      → get_all id (organization_rules rt (some a) input.now).denies ≡ []
      → is_empty
          (exact_allows (get_all id (organization_rules rt (some a) input.now).allows) digest)
        ≡ false
      → RuleGrounds input id digest
  unfolding organization_rules
  active_grounds id digest a none e q d h = absurd (ground (arith, no_rules-allow id digest))
  active_grounds id digest a (some p) e q d h = elim (Bool-cases (is_policy rt a.family)) [
    | inr f ↦ absurd (ground (arith, no_rules-allow id digest))
    | inl t ↦ payload_grounds id digest a p e q (ground arith) (ground arith)
  ]

  rule_grounds :
      (id digest : Text) (o : Option ActiveBundle)
      → input.policy ≡ o
      → get_all id (organization_rules rt o input.now).denies ≡ []
      → is_empty (exact_allows (get_all id (organization_rules rt o input.now).allows) digest)
        ≡ false
      → RuleGrounds input id digest
  rule_grounds id digest none e d h =
      absurd (unfold organization_rules in ground (arith, no_rules-allow id digest))
  rule_grounds id digest (some a) e d h = active_grounds id digest a a.policy e refl d h

  known_allowed :
      (f : Facts) (a : Asset) (id : Text) (prior : Option Finding) (x : Finding)
      → decide_known rt input f a id prior ≡ some x
      → x.action ≡ Action.allowed
      → (prior ≡ some x)
        ⊎ ((get_all id f.rules.denies ≡ [])
            × (is_empty (exact_allows (get_all id f.rules.allows) a.sha256) ≡ false))
  unfolding decide_known decide_violation policy_finding
  known_allowed f a id prior x h e = ground arith

  rest_allowed :
      (f : Facts) (id : Text) (o : Option Asset) (prior : Option Finding) (x : Finding)
      → decide_rest rt input f o id prior ≡ some x
      → x.action ≡ Action.allowed
      → (prior ≡ some x)
        ⊎ ((a : Asset) × (o ≡ some a)
            × (get_all id f.rules.denies ≡ [])
            × (is_empty (exact_allows (get_all id f.rules.allows) a.sha256) ≡ false))
  unfolding decide_rest
  rest_allowed f id none prior x h e = inl h
  rest_allowed f id (some a) prior x h e = elim (known_allowed f a id prior x h e) [
    | inl same ↦ inl same
    | inr (d, k) ↦ inr (a, refl, d, k)
  ]

  -- A decision that allows is a prior finding, or rests on the ladder's third level.
  prior_allowed :
      (f : Facts) (id : Text) (o : Option Asset) (prior : Option Finding) (x : Finding)
      → decide_prior rt input f o id prior ≡ some x
      → x.action ≡ Action.allowed
      → (prior ≡ some x)
        ⊎ ((a : Asset) × (o ≡ some a)
            × (get_all id f.rules.denies ≡ [])
            × (is_empty (exact_allows (get_all id f.rules.allows) a.sha256) ≡ false))
  unfolding decide_prior
  prior_allowed f id o none x h e = rest_allowed f id o none x h e
  prior_allowed f id o (some p) x h e = elim (Bool-cases (is_known_malicious p.verdict)) [
    | inl t ↦ absurd (ground arith)
    | inr n ↦ rest_allowed f id o (some p) x (ground arith) e
  ]

  -- No prior finding allows its asset.
  abbrev PriorsForbid : Type 0
  PriorsForbid = All (λ (x : Finding). x.action ≢ Action.allowed) input.findings

  one_grounds :
      (id : Text) (x : Finding)
      → PriorsForbid
      → decide_one rt input (facts rt input) id ≡ some x
      → x.action ≡ Action.allowed
      → AllowGrounds input x
  unfolding decide_one facts get
  one_grounds id x forbid h e =
      elim (prior_allowed (facts rt input) id (get id (facts rt input).assets)
        (get id (facts rt input).existing) x h e) [
          | inl same ↦ absurd (
              index_findings-All (λ y. y.action ≢ Action.allowed) [] input.findings id forbid
                (λ c e. cc) x same e)
          | inr (a, known, d, k) ↦
              let keyed = facts-AreKeyed rt input in
              let owner : x.asset_id ≡ id =
                decide_one_names rt input (facts rt input) id x keyed h in
              let r : RuleGrounds input id a.sha256 =
                rule_grounds id a.sha256 input.policy refl d k in
              record {
                asset = a;
                listed =
                    from_inventory a (index_assets-Member [] input.inventory.assets id a known);
                named = keyed.assets id a known ∙ sym owner;
                active = r.active;
                payload = r.payload;
                is_active = r.is_active;
                is_payload = r.is_payload;
                not_denied = rw owner r.not_denied;
                allowed = rw owner r.allowed;
              }
        ]
    where
      from_inventory :
          (a : Asset)
          → (get id [] ≡ some a) ⊎ Member a input.inventory.assets
          → Member a input.inventory.assets
      from_inventory a (inl e) = cc
      from_inventory a (inr m) = m

  all_grounds :
      (ids : List Text)
      → PriorsForbid
      → All
          (λ (x : Finding). x.action ≡ Action.allowed → AllowGrounds input x)
          (decide_all rt input (facts rt input) ids)
  unfolding decide_all
  all_grounds [] forbid = tt
  all_grounds (id ∷ ids) forbid = elim (Option-cases (decide_one rt input (facts rt input) id)) [
    | inl e ↦ rw e (all_grounds ids forbid)
    | inr (x, e) ↦ rw e (one_grounds id x forbid e, all_grounds ids forbid)
  ]

-- If no prior finding allows its asset, then every decision that allows an asset is about an asset of
-- the inventory, and the active organization policy has no deny rule for it and an allow rule whose
-- digest is the asset's, up to the case of letters.
pub decide_allows_on_grounds :
    (rt : Runtime) (input : DecisionInput)
    → All (λ (x : Finding). x.action ≢ Action.allowed) input.findings
    → All (λ (x : Finding). x.action ≡ Action.allowed → AllowGrounds input x) (decide rt input)
unfolding decide
decide_allows_on_grounds rt input forbid =
    sort_by-All (λ l r. compare_text l.id r.id)
      (λ (x : Finding). x.action ≡ Action.allowed → AllowGrounds input x)
      (decide_all rt input (facts rt input) (ordered_ids (facts rt input)))
      (all_grounds rt input (ordered_ids (facts rt input)) forbid)
