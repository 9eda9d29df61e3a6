-- ===== src/Policy/Evaluate/Ruled.antt =====
-- internal/policy/evaluate.go and pin.go: the rules that violations name.
use ssc_init.Base.{
  ◌≡◌, inl, inr, refl, true, not, ◌&&◌, ◌||◌, Bool-cases, Option, none, some, List, [], ◌∷◌, ◌++◌,
  arith, All, Any, if◌then◌else◌, Text, text_eq, text_eq→eq, get_all, Dict, All-map,
}
use ssc_init.Model.{Asset, Observation, ContentEvidence, Inventory}
use ssc_init.Inventory.Ladder.{classify}
use ssc_init.Inventory.Row.{Row}
use ssc_init.Policy.Document.{Match, Rule, Document, Pin, Violation}
use ssc_init.Policy.Pin.{
  is_pin, rule_enabled, mismatch_id, unpinned_id, broken_rule, approved, pin_of, pin_loop,
  pin_violation, evaluate_pins, index_assets,
}
use ssc_init.Policy.Evaluate.{
  Input, Maps, maps_of, first_match, shape_violation, shape_assets, shape_rule, row_violation,
  row_matches, change_rows, change_rule, is_shape, is_change, or_host, over_rules, found,
}

-- Some enabled rule of the list has the violation's identifier.
abbrev pub IsRuled : List Rule → Violation → Type 0
IsRuled rules v = Any (λ r. (r.enabled ≡ true) × (r.id ≡ v.rule_id)) rules

All-append :
    (P : Violation → Type 0) (xs ys : List Violation) → All P xs → All P ys → All P (xs ++ ys)
All-append P [] ys h k = k
All-append P (x ∷ xs) ys h k = (h.0, All-append P xs ys h.1 k)

-- Every violation of the list is by the rule, which is enabled.
abbrev IsBy : Rule → Violation → Type 0
IsBy r v = (r.enabled ≡ true) × (r.id ≡ v.rule_id)

shape_assets-IsBy :
    (maps : Maps) (rule : Rule) (m : Match) (assets : List Asset)
    → rule.enabled ≡ true
    → All (IsBy rule) (shape_assets maps rule m assets)
unfolding shape_assets shape_violation
shape_assets-IsBy maps rule m [] h = tt
shape_assets-IsBy maps rule m (a ∷ rest) h =
    either
      (first_match m a (get_all a.id maps.evidence) (or_host [] (get_all a.id maps.observations)))
      (shape_assets-IsBy maps rule m rest h)
  where
    either :
        (o : Option Observation)
        → All (IsBy rule) (shape_assets maps rule m rest)
        → All (IsBy rule) (elim o [
          | none ↦ shape_assets maps rule m rest
          | some x ↦ shape_violation rule a x.host ∷ shape_assets maps rule m rest
        ])
    either none later = later
    either (some x) later = ((h, refl), later)

shape_rule-IsBy :
    (maps : Maps) (assets : List Asset) (rule : Rule)
    → All (IsBy rule) (shape_rule maps assets rule)
unfolding shape_rule
shape_rule-IsBy maps assets rule = either rule.match
  where
    either :
        (o : Option Match)
        → All (IsBy rule) (elim o [
          | none ↦ []
          | some m ↦
              if not rule.enabled || not (is_shape rule.family)
              then []
              else shape_assets maps rule m assets
        ])
    either none = tt
    either (some m) = elim (Bool-cases (not rule.enabled || not (is_shape rule.family))) [
      | inl t ↦ rw t tt
      | inr f ↦ rw f (shape_assets-IsBy maps rule m assets (ground arith))
    ]

change_rows-IsBy :
    (maps : Maps) (rule : Rule) (m : Match) (rows : List Row)
    → rule.enabled ≡ true
    → All (IsBy rule) (change_rows maps rule m rows)
unfolding change_rows row_violation
change_rows-IsBy maps rule m [] h = tt
change_rows-IsBy maps rule m (row ∷ rest) h = elim (Bool-cases (row_matches maps m row)) [
  | inl t ↦ rw t ((h, refl), change_rows-IsBy maps rule m rest h)
  | inr f ↦ rw f (change_rows-IsBy maps rule m rest h)
]

change_rule-IsBy :
    (maps : Maps) (rows : List Row) (rule : Rule) → All (IsBy rule) (change_rule maps rows rule)
unfolding change_rule
change_rule-IsBy maps rows rule = either rule.match
  where
    either :
        (o : Option Match)
        → All (IsBy rule) (elim o [
          | none ↦ []
          | some m ↦
              if not rule.enabled || not (is_change rule.family)
              then []
              else change_rows maps rule m rows
        ])
    either none = tt
    either (some m) = elim (Bool-cases (not rule.enabled || not (is_change rule.family))) [
      | inl t ↦ rw t tt
      | inr f ↦ rw f (change_rows-IsBy maps rule m rows (ground arith))
    ]

over_rules-IsRuled :
    (check : Rule → List Violation) (rules : List Rule)
    → ((r : Rule) → All (IsBy r) (check r))
    → All (IsRuled rules) (over_rules check rules)
unfolding over_rules
over_rules-IsRuled check [] h = tt
over_rules-IsRuled check (r ∷ rest) h =
    All-append (IsRuled (r ∷ rest)) (check r) (over_rules check rest)
      (All-map (IsBy r) (IsRuled (r ∷ rest)) (check r) (λ v b. inl b) (h r))
      (All-map (IsRuled rest) (IsRuled (r ∷ rest)) (over_rules check rest) (λ v b. inr b)
        (over_rules-IsRuled check rest h))

rule_enabled-Any :
    (rules : List Rule) (id : Text)
    → rule_enabled rules id ≡ true
    → Any (λ r. (r.enabled ≡ true) × (r.id ≡ id)) rules
unfolding rule_enabled
rule_enabled-Any [] id h = cc
rule_enabled-Any (r ∷ rest) id h =
    elim (Bool-cases (r.enabled && is_pin r.family && text_eq r.id id)) [
      | inl t ↦ inl (ground arith, text_eq→eq r.id id (ground arith))
      | inr f ↦ inr (rule_enabled-Any rest id (ground arith))
    ]

broken_rule_enabled :
    (rules : List Rule) (o : Option Text) (digest id : Text)
    → broken_rule (rule_enabled rules mismatch_id) (rule_enabled rules unpinned_id) o digest
      ≡ some id
    → Any (λ r. (r.enabled ≡ true) × (r.id ≡ id)) rules
unfolding broken_rule
broken_rule_enabled rules (some want) digest id h =
    rw (the mismatch_id (ground arith)) (rule_enabled-Any rules mismatch_id (ground arith))
  where
    the : (x : Text) → id ≡ x → id ≡ x
    the x e = e
broken_rule_enabled rules none digest id h =
    rw (the unpinned_id (ground arith)) (rule_enabled-Any rules unpinned_id (ground arith))
  where
    the : (x : Text) → id ≡ x → id ≡ x
    the x e = e

pin_of_rule :
    (document : Document) (pins : List Pin) (assets : Dict Asset) (emitted : List (Text × Text))
    (e : ContentEvidence) (id : Text) (a : Asset)
    → pin_of document pins assets emitted e ≡ some (id, a)
    → broken_rule
        (rule_enabled document.rules mismatch_id)
        (rule_enabled document.rules unpinned_id)
        (approved none pins e)
        e.digest
      ≡ some id
unfolding pin_of
pin_of_rule document pins assets emitted e id a h = ground arith

pin_loop-IsRuled :
    (document : Document) (pins : List Pin) (assets : Dict Asset) (emitted : List (Text × Text))
    (es : List ContentEvidence)
    → All (IsRuled document.rules) (pin_loop document pins assets emitted es)
unfolding pin_loop pin_violation
pin_loop-IsRuled document pins assets emitted [] = tt
pin_loop-IsRuled document pins assets emitted (e ∷ rest) =
    either (pin_of document pins assets emitted e) refl
      (pin_loop-IsRuled document pins assets emitted rest)
      (λ more. pin_loop-IsRuled document pins assets more rest)
  where
    either :
        (o : Option (Text × Asset))
        → pin_of document pins assets emitted e ≡ o
        → All (IsRuled document.rules) (pin_loop document pins assets emitted rest)
        → ((more : List (Text × Text))
            → All (IsRuled document.rules) (pin_loop document pins assets more rest))
        → All (IsRuled document.rules) (elim o [
          | none ↦ pin_loop document pins assets emitted rest
          | some (rule, a) ↦
              pin_violation rule a
              ∷ pin_loop document pins assets ((rule, e.asset_id) ∷ emitted) rest
        ])
    either none q later all = later
    either (some (rule, a)) q later all = (
      broken_rule_enabled document.rules (approved none pins e) e.digest rule
          (pin_of_rule document pins assets emitted e rule a q),
      all ((rule, e.asset_id) ∷ emitted),
    )

evaluate_pins-IsRuled :
    (document : Document) (inventory : Inventory) (pins : List Pin)
    → All (IsRuled document.rules) (evaluate_pins document inventory pins)
unfolding evaluate_pins
evaluate_pins-IsRuled document inventory pins =
    elim (Bool-cases (
      not (rule_enabled document.rules mismatch_id)
      && not (rule_enabled document.rules unpinned_id))) [
        | inl t ↦ rw t tt
        | inr f ↦ rw f (
            pin_loop-IsRuled document pins (index_assets [] inventory.assets) [] inventory.evidence)
      ]

-- Before exceptions, every violation names an enabled rule of the document.
pub found-IsRuled : (input : Input) → All (IsRuled input.sources.document.rules) (found input)
unfolding found
found-IsRuled input =
    let maps = maps_of input.inventory in
    let rules = input.sources.document.rules in
    let rows = classify input.inventory input.delta in
    let shapes = over_rules (shape_rule maps input.inventory.assets) rules in
    let changes = over_rules (change_rule maps rows) rules in
    All-append (IsRuled rules) (shapes ++ changes)
      (evaluate_pins input.sources.document input.inventory input.pins)
      (All-append (IsRuled rules) shapes changes
        (over_rules-IsRuled (shape_rule maps input.inventory.assets) rules
          (shape_rule-IsBy maps input.inventory.assets))
        (over_rules-IsRuled (change_rule maps rows) rules (change_rule-IsBy maps rows)))
      (evaluate_pins-IsRuled input.sources.document input.inventory input.pins)
