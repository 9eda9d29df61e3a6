-- ===== src/Version/Range/Alternatives.antt =====
-- internal/analyzer/version/range.go: the alternatives of an expression in `Match`.
use ssc_init.Base.{
  ◌≤◌, ◌≡◌, ◌↔◌, ◌⊎◌, inl, inr, refl, Bool, true, false, ◌||◌, Bool-cases, Option-cases, some, List,
  [], ◌∷◌, arith, All, Any, length, Text, split_pair,
}
use ssc_init.Version.Semver.{ParsedVersion, parse_version}
use ssc_init.Version.Range.{
  match_comparator, match_fields, comparators, match_alternative, match_alternatives, match_range,
}

-- Every comparator of the list is valid and holds.
abbrev pub Holds : ParsedVersion → List Text → Type 0
Holds v parts = All (λ part. match_comparator v part ≡ (true, true)) parts

match_fields-Holds :
    (v : ParsedVersion) (parts : List Text) → match_fields v parts ≡ (true, true) → Holds v parts
unfolding match_fields
match_fields-Holds v [] h = tt
match_fields-Holds v (part ∷ parts) h = (ground arith, match_fields-Holds v parts (ground arith))

Holds-match_fields :
    (v : ParsedVersion) (parts : List Text) → Holds v parts → match_fields v parts ≡ (true, true)
unfolding match_fields
Holds-match_fields v [] h = refl
Holds-match_fields v (part ∷ parts) h = ground (arith, Holds-match_fields v parts)

-- An alternative that can be read.
abbrev pub IsReadable : ParsedVersion → Text → Type 0
IsReadable v alternative = (match_alternative v alternative).1 ≡ true

match_alternative-Holds :
    (v : ParsedVersion) (a : Text) → match_alternative v a ≡ (true, true) → Holds v (comparators a)
unfolding match_alternative
match_alternative-Holds v a h = match_fields-Holds v (comparators a) (ground arith)

Holds-match_alternative :
    (v : ParsedVersion) (a : Text)
    → IsReadable v a
    → Holds v (comparators a)
    → match_alternative v a ≡ (true, true)
unfolding match_alternative
Holds-match_alternative v a r h = ground (arith, Holds-match_fields v (comparators a) h)

alternatives-All :
    (v : ParsedVersion) (m : Bool) (rest : List Text) (b : Bool)
    → match_alternatives v m rest ≡ (b, true)
    → All (IsReadable v) rest
unfolding match_alternatives
alternatives-All v m [] b h = tt
alternatives-All v m (a ∷ rest) b h =
    (ground arith, alternatives-All v (m || (match_alternative v a).0) rest b (ground arith))

alternatives-Any :
    (v : ParsedVersion) (m : Bool) (rest : List Text)
    → match_alternatives v m rest ≡ (true, true)
    → (m ≡ true) ⊎ Any (λ a. Holds v (comparators a)) rest
unfolding match_alternatives
alternatives-Any v m [] h = ground arith
alternatives-Any v m (a ∷ rest) h =
    elim (alternatives-Any v (m || (match_alternative v a).0) rest (ground arith)) [
      | inl e ↦ elim (Bool-cases m) [
        | inl t ↦ inl t
        | inr f ↦ inr (inl (match_alternative-Holds v a (ground arith)))
      ]
      | inr later ↦ inr (inr later)
    ]

-- A match that was found is kept, and the later alternatives are still read.
Any-alternatives :
    (v : ParsedVersion) (m : Bool) (rest : List Text)
    → All (IsReadable v) rest
    → (m ≡ true) ⊎ Any (λ a. Holds v (comparators a)) rest
    → match_alternatives v m rest ≡ (true, true)
unfolding match_alternatives
Any-alternatives v m [] r (inl e) = ground arith
Any-alternatives v m [] r (inr x) = elim x [ ]
Any-alternatives v m (a ∷ rest) r (inl e) =
    ground
      (arith, Any-alternatives v (m || (match_alternative v a).0) rest r.1 (inl (ground arith)))
Any-alternatives v m (a ∷ rest) r (inr (inl h)) = ground (
  arith,
  Holds-match_alternative v a r.0 h,
  Any-alternatives v (m || (match_alternative v a).0) rest r.1
      (inl (ground (arith, Holds-match_alternative v a r.0 h))),
)
Any-alternatives v m (a ∷ rest) r (inr (inr later)) =
    ground (arith, Any-alternatives v (m || (match_alternative v a).0) rest r.1 (inr later))

-- A version text is in a range exactly when it parses, the expression has at most four
-- alternatives, all of them can be read, and every comparator of one of them holds.
pub match_range_iff :
    (value expression : Text)
    → (match_range value expression ≡ (true, true)) ↔ (
        (v : ParsedVersion) × (parse_version value ≡ some v)
        × (length (split_pair b'|' expression) ≤ 4)
        × All (IsReadable v) (split_pair b'|' expression)
        × Any (λ a. Holds v (comparators a)) (split_pair b'|' expression))
unfolding match_range
match_range_iff value expression = (
  λ h. elim (Option-cases (parse_version value)) [
    | inl e ↦ absurd (ground arith)
    | inr (v, e) ↦
        let run : match_alternatives v false (split_pair b'|' expression) ≡ (true, true) =
          ground arith in
        (
          v,
          e,
          ground arith,
          alternatives-All v false (split_pair b'|' expression) true run,
          found v (alternatives-Any v false (split_pair b'|' expression) run),
        )
  ],
  λ h.
      ground
        (arith, h.1, h.2, Any-alternatives h.0 false (split_pair b'|' expression) h.3 (inr h.4)),
)
  where
    found :
        (v : ParsedVersion)
        → (false ≡ true) ⊎ Any (λ a. Holds v (comparators a)) (split_pair b'|' expression)
        → Any (λ a. Holds v (comparators a)) (split_pair b'|' expression)
    found v (inl e) = cc
    found v (inr x) = x
