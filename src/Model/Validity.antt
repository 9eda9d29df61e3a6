-- ===== src/Model/Validity.antt =====
-- internal/model/finding.go: `Finding.Valid`.
use ssc_init.Base.{
  ℕ, ◌≡◌, refl, lt, Bool, true, false, not, ◌&&◌, ◌||◌, List, [], ◌∷◌, arith, All, all, any,
  is_empty, ltb, leb, ◌==◌, Text, codes, text_eq, byte_length, compare_text, is_lt, IsAscending,
}
use ssc_init.Model.{
  AssetType, Verdict, Severity, Confidence, Action, Family, BundleReference, Finding,
}

-- The constants of `AssetType`.
abbrev pub asset_types : List AssetType
asset_types =
    codes "agent-plugin"
    ∷ codes "agent-skill"
    ∷ codes "mcp-server"
    ∷ codes "ide-extension"
    ∷ codes "package"
    ∷ codes "project"
    ∷ codes "tool"
    ∷ codes "shell-startup"
    ∷ codes "git-hook"
    ∷ codes "credential-helper"
    ∷ codes "launch-config"
    ∷ codes "process"
    ∷ codes "listening-endpoint"
    ∷ []

unfoldable pub valid_asset_type : AssetType → Bool
valid_asset_type value = any (text_eq value) asset_types

unfoldable pub valid_verdict : Verdict → Bool
valid_verdict (Verdict.other t) = false
valid_verdict _ = true

unfoldable pub valid_severity : Severity → Bool
valid_severity (Severity.other t) = false
valid_severity _ = true

unfoldable pub valid_confidence : Confidence → Bool
valid_confidence (Confidence.other t) = false
valid_confidence _ = true

unfoldable pub valid_action : Action → Bool
valid_action (Action.other t) = false
valid_action _ = true

unfoldable pub valid_family : Family → Bool
valid_family (Family.other t) = false
valid_family _ = true

unfoldable pub is_hex : ℕ → Bool
is_hex c = leb 48 c && leb c 57 || leb 65 c && leb c 70 || leb 97 c && leb c 102

-- `findingSHA256`: 32 bytes in hexadecimal.
unfoldable pub finding_sha256 : Text → Bool
finding_sha256 value = all is_hex value && byte_length value == 64

-- The loop of `sortedUniqueFindingValues` behind its first value.
unfoldable pub ascends : Text → List Text → Bool
ascends previous [] = true
ascends previous (value ∷ values) =
    not (is_empty value) && is_lt (compare_text previous value) && ascends value values

-- The loop; `sort.StringsAreSorted` behind it asks for less than the loop has checked.
unfoldable pub sorted_unique_values : List Text → Bool
sorted_unique_values [] = true
sorted_unique_values (value ∷ values) = not (is_empty value) && ascends value values

unfoldable pub valid_reference : BundleReference → Bool
valid_reference r =
    not (not (valid_family r.family) || r.sequence == 0 || not (finding_sha256 r.digest))

-- `Finding.Valid`
unfoldable pub valid : Finding → Bool
valid f =
    not (
      is_empty f.id
      || is_empty f.asset_id
      || not (valid_asset_type f.asset_type)
      || f.detected_at == 0
      || ltb f.level 1
      || ltb 5 f.level
      || not (valid_verdict f.verdict)
      || not (valid_severity f.severity)
      || not (valid_confidence f.confidence)
      || not (valid_action f.action)
      || not (is_empty f.sha256) && not (finding_sha256 f.sha256)
      || not (sorted_unique_values f.rule_ids)
      || not (sorted_unique_values f.intelligence_ids)
      || not (sorted_unique_values f.evidence_ids)
      || not (sorted_unique_values f.campaign_ids)
      || not (sorted_unique_values f.attack_techniques))
    && all valid_reference f.bundles

ascends_of :
    (x : Text) (xs : List Text)
    → All (λ y. compare_text x y ≡ lt) xs
    → IsAscending xs
    → All (λ y. is_empty y ≡ false) xs
    → ascends x xs ≡ true
unfolding ascends
ascends_of x [] h a n = refl
ascends_of x (y ∷ ys) h a n = ground (arith, ascends_of y ys a.0 a.1 n.1)

-- Ascending texts that are not empty pass the check.
pub sorted_unique_values_of :
    (xs : List Text)
    → IsAscending xs
    → All (λ y. is_empty y ≡ false) xs
    → sorted_unique_values xs ≡ true
unfolding sorted_unique_values
sorted_unique_values_of [] a n = refl
sorted_unique_values_of (x ∷ xs) a n = ground (arith, ascends_of x xs a.0 a.1 n.1)
