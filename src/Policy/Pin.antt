-- ===== src/Policy/Pin.antt =====
-- internal/policy/pin.go: evidence against the approved digests.
use ssc_init.Base.{
  Bool, true, false, not, ◌&&◌, ◌||◌, Option, none, some, List, [], ◌∷◌, any, is_empty,
  if◌then◌else◌, Text, codes, text_eq, Dict, get, put,
}
use ssc_init.Model.{Asset, ContentEvidence, Inventory, evidence_complete}
use ssc_init.Policy.Document.{RuleFamily, pin, Rule, Document, Pin, Violation}

abbrev pub is_pin : RuleFamily → Bool
is_pin pin = true
is_pin _ = false

unfoldable pub rule_enabled : List Rule → Text → Bool
rule_enabled rules id = any (λ r. r.enabled && is_pin r.family && text_eq r.id id) rules

-- The approved digest of a subject: the last pin for it counts.
unfoldable pub approved : Option Text → List Pin → ContentEvidence → Option Text
approved found [] e = found
approved found (p ∷ rest) e =
    approved
      (if text_eq p.asset_id e.asset_id && text_eq p.kind e.kind && text_eq p.subject e.subject
        then some p.digest
        else found)
      rest e

abbrev pub mismatch_id : Text
mismatch_id = codes "pin-mismatch"

abbrev pub unpinned_id : Text
unpinned_id = codes "unpinned"

-- The rule that a piece of complete evidence breaks.
unfoldable pub broken_rule : Bool → Bool → Option Text → Text → Option Text
broken_rule mismatch unpinned (some want) digest =
    if not (text_eq want digest) && mismatch then some mismatch_id else none
broken_rule mismatch unpinned none digest = if unpinned then some unpinned_id else none

unfoldable pub index_assets : Dict Asset → List Asset → Dict Asset
index_assets d [] = d
index_assets d (a ∷ rest) = index_assets (put a.id a d) rest

-- A rule and an asset for which a violation was emitted.
abbrev pub was_emitted : Text → Text → List (Text × Text) → Bool
was_emitted rule asset emitted = any (λ p. text_eq p.0 rule && text_eq p.1 asset) emitted

unfoldable pub pin_violation : Text → Asset → Violation
pin_violation rule a = record {
  rule_id = rule;
  level = 5;
  asset_id = a.id;
  asset_type = a.kind;
  asset_name = a.name;
  host = a.source;
  standing = false;
}

-- The violation of one piece of evidence, if there is one.
unfoldable pub pin_of :
    Document → List Pin → Dict Asset → List (Text × Text) → ContentEvidence → Option (Text × Asset)
pin_of document pins assets emitted e =
    if not (text_eq e.status evidence_complete) || is_empty e.digest
    then none
    else elim (broken_rule (rule_enabled document.rules mismatch_id)
        (rule_enabled document.rules unpinned_id) (approved none pins e) e.digest) [
          | none ↦ none
          | some rule ↦
              if was_emitted rule e.asset_id emitted
              then none
              else elim (get e.asset_id assets) [ none ↦ none | some a ↦ some (rule, a) ]
        ]

unfoldable pub pin_loop :
    Document → List Pin → Dict Asset → List (Text × Text) → List ContentEvidence → List Violation
pin_loop document pins assets emitted [] = []
pin_loop document pins assets emitted (e ∷ rest) =
    let skipped = pin_loop document pins assets emitted rest in
    elim (pin_of document pins assets emitted e) [
      | none ↦ skipped
      | some (rule, a) ↦
          pin_violation rule a ∷ pin_loop document pins assets ((rule, e.asset_id) ∷ emitted) rest
    ]

unfoldable pub evaluate_pins : Document → Inventory → List Pin → List Violation
evaluate_pins document inventory pins =
    if not (rule_enabled document.rules mismatch_id)
      && not (rule_enabled document.rules unpinned_id)
    then []
    else pin_loop document pins (index_assets [] inventory.assets) [] inventory.evidence
