-- ===== src/Finding/Rank.antt =====
-- internal/finding/correlate.go: ranks, and the comparisons of digests.
use ssc_init.Base.{
  ℕ, ◌+◌, Bool, ◌&&◌, List, [], ◌∷◌, ◌++◌, map, leb, ◌==◌, if◌then◌else◌, Text, text_eq,
}
use ssc_init.Model.{
  Verdict, known_malicious, behavior_malicious, suspicious, needs_review, no_finding, Confidence,
  Severity,
}

unfoldable pub verdict_rank : Verdict → ℕ
verdict_rank known_malicious = 5
verdict_rank behavior_malicious = 4
verdict_rank suspicious = 3
verdict_rank needs_review = 2
verdict_rank no_finding = 1
verdict_rank (Verdict.other t) = 0

unfoldable pub confidence_rank : Confidence → ℕ
confidence_rank Confidence.high = 3
confidence_rank Confidence.medium = 2
confidence_rank Confidence.low = 1
confidence_rank (Confidence.other t) = 0

unfoldable pub severity_for : Verdict → Severity
severity_for known_malicious = Severity.critical
severity_for behavior_malicious = Severity.critical
severity_for suspicious = Severity.high
severity_for needs_review = Severity.medium
severity_for _ = Severity.informational

-- Unicode simple folding on the letters that fold to an ASCII one; others are left alone.
unfoldable pub fold : Text → Text
fold = map (λ c.
    if leb 65 c && leb c 90
    then c + 32
    else if c == 0x212a
    then 107
    else if c == 0x17f
    then 115
    else c)

-- `strings.EqualFold`
unfoldable pub equal_fold : Text → Text → Bool
equal_fold a b = text_eq (fold a) (fold b)

-- `strings.Join` with a separator of one code point.
unfoldable pub join : ℕ → List Text → Text
join sep [] = []
join sep (x ∷ []) = x
join sep (x ∷ y ∷ xs) = x ++ sep ∷ join sep (y ∷ xs)
