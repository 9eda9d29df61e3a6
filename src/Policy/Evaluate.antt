-- ===== src/Policy/Evaluate.antt =====
-- internal/policy/evaluate.go: `Evaluate`.
pub mod Ruled
pub mod Results
use ssc_init.Base.{
  ℕ, Ordering, Bool, true, false, not, ◌&&◌, ◌||◌, Option, none, some, List, [], ◌∷◌, ◌++◌, any,
  is_empty, if◌then◌else◌, ◌then◌, Text, compare_text, Dict, get, put, add, get_all, sort_by,
}
use ssc_init.Model.{Asset, Observation, ContentEvidence, Inventory, Change}
use ssc_init.Inventory.Ladder.{classify}
use ssc_init.Inventory.Row.{Row, label}
use ssc_init.Policy.Document.{
  RuleFamily, shape, change, Match, Rule, Exception, Document, Pin, Violation, Level, Sources,
  levels,
}
use ssc_init.Policy.Shape.{matches_set, matches_shape}
use ssc_init.Policy.Exception.{Applied, Outcome, apply_exceptions}
use ssc_init.Policy.Pin.{index_assets, evaluate_pins}

pub record Input : Type 0 where
  pub sources : Sources
  pub inventory : Inventory
  pub delta : List Change
  pub pins : List Pin
  pub exceptions : List Exception
  pub now : ℕ

pub record Result : Type 0 where
  pub levels : List Level
  pub violations : List Violation
  pub applied : List Applied
  pub expired : List Applied

unfoldable pub index_observations :
    Dict (List Observation) → List Observation → Dict (List Observation)
index_observations d [] = d
index_observations d (o ∷ rest) = index_observations (add o.asset_id o d) rest

unfoldable pub index_evidence :
    Dict (List ContentEvidence) → List ContentEvidence → Dict (List ContentEvidence)
index_evidence d [] = d
index_evidence d (e ∷ rest) = index_evidence (add e.asset_id e d) rest

-- An observation with only a host.
abbrev pub only_host : Text → Observation
only_host host = record {
  id = [];
  asset_id = [];
  host = host;
  project_id = [];
  source = [];
  metadata = [];
}

-- The candidates, or one empty observation in place of none.
abbrev pub or_host : Text → List Observation → List Observation
or_host host [] = only_host host ∷ []
or_host host (o ∷ os) = o ∷ os

-- The first candidate that has the shape.
unfoldable pub first_match :
    Match → Asset → List ContentEvidence → List Observation → Option Observation
first_match m asset evidence [] = none
first_match m asset evidence (o ∷ rest) =
    let later = first_match m asset evidence rest in
    if matches_shape m asset o evidence then some o else later

-- The two maps of `Evaluate`.
pub record Maps : Type 0 where
  pub observations : Dict (List Observation)
  pub evidence : Dict (List ContentEvidence)
  pub assets : Dict Asset

unfoldable pub shape_violation : Rule → Asset → Text → Violation
shape_violation rule a host = record {
  rule_id = rule.id;
  level = 5;
  asset_id = a.id;
  asset_type = a.kind;
  asset_name = a.name;
  host = host;
  standing = false;
}

unfoldable pub shape_assets : Maps → Rule → Match → List Asset → List Violation
shape_assets maps rule m [] = []
shape_assets maps rule m (a ∷ rest) =
    let later = shape_assets maps rule m rest in
    elim (first_match m a (get_all a.id maps.evidence)
      (or_host [] (get_all a.id maps.observations))) [
        | none ↦ later
        | some o ↦ shape_violation rule a o.host ∷ later
      ]

abbrev pub is_shape : RuleFamily → Bool
is_shape shape = true
is_shape _ = false

abbrev pub is_change : RuleFamily → Bool
is_change change = true
is_change _ = false

unfoldable pub shape_rule : Maps → List Asset → Rule → List Violation
shape_rule maps assets rule = elim rule.match [
  | none ↦ []
  | some m ↦
      if not rule.enabled || not (is_shape rule.family) then [] else shape_assets maps rule m assets
]

-- The asset of a row; one that is gone is made up from the row.
abbrev pub asset_or_row : Row → Option Asset → Asset
asset_or_row row (some a) = a
asset_or_row row none = record {
  id = row.key;
  kind = row.kind;
  name = row.name;
  version = [];
  path = [];
  source = row.host;
  sha256 = [];
  observed_at = 0;
  metadata = [];
  signature = none;
  provenance = none;
}

unfoldable pub row_violation : Rule → Row → Violation
row_violation rule row = record {
  rule_id = rule.id;
  level = 5;
  asset_id = row.key;
  asset_type = row.kind;
  asset_name = row.name;
  host = row.host;
  standing = false;
}

unfoldable pub row_matches : Maps → Match → Row → Bool
row_matches maps m row =
    let a = asset_or_row row (get row.key maps.assets) in
    matches_set m.rungs (label row.rung)
    && any (λ o. matches_shape m a o (get_all a.id maps.evidence))
        (or_host row.host (get_all a.id maps.observations))

unfoldable pub change_rows : Maps → Rule → Match → List Row → List Violation
change_rows maps rule m [] = []
change_rows maps rule m (row ∷ rest) =
    let later = change_rows maps rule m rest in
    if row_matches maps m row then row_violation rule row ∷ later else later

unfoldable pub change_rule : Maps → List Row → Rule → List Violation
change_rule maps rows rule = elim rule.match [
  | none ↦ []
  | some m ↦
      if not rule.enabled || not (is_change rule.family) then [] else change_rows maps rule m rows
]

unfoldable pub over_rules : (Rule → List Violation) → List Rule → List Violation
over_rules check [] = []
over_rules check (rule ∷ rest) = check rule ++ over_rules check rest

unfoldable pub maps_of : Inventory → Maps
maps_of inventory = record {
  observations = index_observations [] inventory.observations;
  evidence = index_evidence [] inventory.evidence;
  assets = index_assets [] inventory.assets;
}

-- The violations before the exceptions.
unfoldable pub found : Input → List Violation
found input =
    let maps = maps_of input.inventory in
    let rules = input.sources.document.rules in
    over_rules (shape_rule maps input.inventory.assets) rules
    ++ over_rules (change_rule maps (classify input.inventory input.delta)) rules
    ++ evaluate_pins input.sources.document input.inventory input.pins

unfoldable pub compare_violations : Violation → Violation → Ordering
compare_violations l r = compare_text l.rule_id r.rule_id then compare_text l.asset_id r.asset_id

unfoldable pub evaluate : Input → Result
evaluate input =
    let o =
      apply_exceptions input.inventory input.now input.sources.document.exceptions input.exceptions
        (found input) in
    record {
      levels = levels input.sources;
      violations = sort_by compare_violations o.kept;
      applied = o.applied;
      expired = o.expired;
    }
