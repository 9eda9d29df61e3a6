-- ===== src/Version/Match/Fields.antt =====
-- internal/analyzer/version/osv.go: what the fields of a selector say of a version.
use ssc_init.Base.{
  ◌≡◌, ◌≢◌, ◌↔◌, refl, sym, Ordering, lt, eq, gt, Bool, true, false, ◌||◌, Bool-cases, inl, inr,
  Option, Option-cases, none, some, List, [], ◌∷◌, ◌++◌, arith, all, All, is_empty, Text, codes,
  has_prefix, trim_prefix,
}
use ssc_init.Version.Range.{Operator, at_least, at_most, above, below, exactly, comparison_matches}
use ssc_init.Version.Osv.{
  Engines, Ecosystem, npm, pypi, go, cargo, unknown, Kind, semver, ecosystem, ecosystem_of,
  osv_comparator, compare_parsed, compare_in, compare_osv_version, valid_field, match_osv_fields,
}

-- A field spells an operator and a boundary: `>=`, `<=`, `>`, `<` or `=` in front of the boundary.
abbrev pub Spells : Text → Operator → Text → Type 0
Spells field at_least boundary = field ≡ codes ">=" ++ boundary
Spells field at_most boundary = field ≡ codes "<=" ++ boundary
Spells field above boundary =
    (field ≡ codes ">" ++ boundary) × (has_prefix boundary (codes "=") ≡ false)
Spells field below boundary =
    (field ≡ codes "<" ++ boundary) × (has_prefix boundary (codes "=") ≡ false)
Spells field exactly boundary = field ≡ codes "=" ++ boundary

-- The operator holds of a value that compares to the boundary in this way.
abbrev pub Relates : Operator → Ordering → Type 0
Relates at_least o = o ≢ lt
Relates at_most o = o ≢ gt
Relates above o = o ≡ gt
Relates below o = o ≡ lt
Relates exactly o = o ≡ eq

-- A version satisfies a field.
abbrev pub Satisfies : (Text → Text → Option Ordering) → Text → Text → Type 0
Satisfies compare value field =
    (op : Operator) × (boundary : Text) × (o : Ordering) × Spells field op boundary
    × (boundary ≢ [])
    × (compare value boundary ≡ some o)
    × Relates op o

Relates-iff : (op : Operator) (o : Ordering) → (comparison_matches o op ≡ true) ↔ Relates op o
unfolding comparison_matches
Relates-iff at_least o = (λ h. λ r. ground arith, λ h. ground arith)
Relates-iff at_most o = (λ h. λ r. ground arith, λ h. ground arith)
Relates-iff above o = (λ h. ground arith, λ h. ground arith)
Relates-iff below o = (λ h. ground arith, λ h. ground arith)
Relates-iff exactly o = (λ h. ground arith, λ h. ground arith)

-- The parser reads what a field spells.
osv_comparator-Spells :
    (field : Text) (op : Operator) (boundary : Text)
    → osv_comparator field ≡ some (op, boundary)
    → Spells field op boundary × (boundary ≢ [])
unfolding osv_comparator has_prefix trim_prefix
osv_comparator-Spells [] op boundary h = cc
osv_comparator-Spells (c ∷ []) at_least boundary h = (ground arith, λ n. ground arith)
osv_comparator-Spells (c ∷ []) at_most boundary h = (ground arith, λ n. ground arith)
osv_comparator-Spells (c ∷ []) above boundary h = ((ground arith, ground arith), λ n. ground arith)
osv_comparator-Spells (c ∷ []) below boundary h = ((ground arith, ground arith), λ n. ground arith)
osv_comparator-Spells (c ∷ []) exactly boundary h = (ground arith, λ n. ground arith)
osv_comparator-Spells (c ∷ d ∷ cs) at_least boundary h = (ground arith, λ n. ground arith)
osv_comparator-Spells (c ∷ d ∷ cs) at_most boundary h = (ground arith, λ n. ground arith)
osv_comparator-Spells (c ∷ d ∷ cs) above boundary h =
    ((ground arith, ground arith), λ n. ground arith)
osv_comparator-Spells (c ∷ d ∷ cs) below boundary h =
    ((ground arith, ground arith), λ n. ground arith)
osv_comparator-Spells (c ∷ d ∷ cs) exactly boundary h = (ground arith, λ n. ground arith)

Spells-osv_comparator :
    (field : Text) (op : Operator) (boundary : Text)
    → Spells field op boundary
    → boundary ≢ []
    → osv_comparator field ≡ some (op, boundary)
unfolding osv_comparator has_prefix trim_prefix
Spells-osv_comparator field op [] s n = absurd (n refl)
Spells-osv_comparator field at_least (c ∷ cs) s n = rw s refl
Spells-osv_comparator field at_most (c ∷ cs) s n = rw s refl
Spells-osv_comparator field above (c ∷ cs) s n = rw s.0 (ground arith)
Spells-osv_comparator field below (c ∷ cs) s n = rw s.0 (ground arith)
Spells-osv_comparator field exactly (c ∷ cs) s n = rw s refl

abbrev is_some : Option Ordering → Bool
is_some none = false
is_some (some o) = true

-- A boundary that can be compared with itself can be compared with just the values that can be.
compare_parsed-shared {ℓ} :
    {A : Type ℓ} (cmp : A → A → Ordering) (value boundary : Option A)
    → is_some (compare_parsed cmp boundary boundary) ≡ true
    → is_some (compare_parsed cmp value boundary) ≡ is_some (compare_parsed cmp value value)
compare_parsed-shared cmp (some v) (some b) h = refl
compare_parsed-shared cmp none (some b) h = refl
compare_parsed-shared cmp v none h = cc

module _ (e : Engines) where
  compare_in-shared :
      (asset : Ecosystem) (kind : Kind) (value boundary : Text)
      → is_some (compare_in e asset kind boundary boundary) ≡ true
      → is_some (compare_in e asset kind value boundary)
        ≡ is_some (compare_in e asset kind value value)
  unfolding compare_in
  compare_in-shared asset semver value boundary h = compare_parsed-shared _ _ _ h
  compare_in-shared npm ecosystem value boundary h = compare_parsed-shared _ _ _ h
  compare_in-shared cargo ecosystem value boundary h = compare_parsed-shared _ _ _ h
  compare_in-shared go ecosystem value boundary h = compare_parsed-shared _ _ _ h
  compare_in-shared pypi ecosystem value boundary h = compare_parsed-shared _ _ _ h
  compare_in-shared unknown ecosystem value boundary h = cc

  module _ (asset_id : Text) (kind : Kind) (value : Text) where
    -- What a valid field does.
    valid_field-cases :
        (field : Text)
        → valid_field e asset_id kind field ≡ true
        → (op : Operator) × (boundary : Text) × (osv_comparator field ≡ some (op, boundary))
          × (is_some (compare_osv_version e asset_id kind value boundary)
              ≡ is_some (compare_osv_version e asset_id kind value value))
    unfolding valid_field compare_osv_version
    valid_field-cases field h = by_comparator (osv_comparator field) refl h
      where
        by_boundary :
            (o : Option Ordering)
            → elim o [ none ↦ false | some o ↦ true ] ≡ true
            → is_some o ≡ true
        by_boundary none k = cc
        by_boundary (some o) k = refl

        by_comparator :
            (c : Option (Operator × Text))
            → osv_comparator field ≡ c
            → elim c [
              | none ↦ false
              | some (op, boundary) ↦ elim (compare_osv_version e asset_id kind boundary boundary) [
                | none ↦ false
                | some o ↦ true
              ]
            ]
              ≡ true
            → (op : Operator) × (boundary : Text) × (osv_comparator field ≡ some (op, boundary))
              × (is_some (compare_osv_version e asset_id kind value boundary)
                  ≡ is_some (compare_osv_version e asset_id kind value value))
        by_comparator none q k = cc
        by_comparator (some (op, boundary)) q k = (
          op,
          boundary,
          q,
          compare_in-shared (ecosystem_of asset_id) kind value boundary (by_boundary _ k),
        )

    abbrev compared : Text → Text → Option Ordering
    compared = compare_osv_version e asset_id kind

    -- A field is satisfied exactly when its operator holds of its comparison.
    field-Satisfies :
        (field : Text) (op : Operator) (boundary : Text) (o : Ordering)
        → osv_comparator field ≡ some (op, boundary)
        → compared value boundary ≡ some o
        → (comparison_matches o op ≡ true) ↔ Satisfies compared value field
    field-Satisfies field op boundary o q c = (
      λ h.
          let s = osv_comparator-Spells field op boundary q in
          (op, boundary, o, s.0, s.1, c, (Relates-iff op o).0 h),
      λ h.
          let (op', boundary', o', s, n, c', r) = h in
          let q' = Spells-osv_comparator field op' boundary' s n in
          let same_boundary : boundary' ≡ boundary = ground arith in
          let same_op : op' ≡ op = ground arith in
          let d : compared value boundary ≡ some o' = rw same_boundary at c' in
          let same : o' ≡ o = ground arith in (Relates-iff op o).1 (rw same at (rw same_op at r)),
    )

    field_unread :
        (field : Text) (op : Operator) (boundary : Text)
        → osv_comparator field ≡ some (op, boundary)
        → compared value boundary ≡ none
        → ¬ (Satisfies compared value field)
    field_unread field op boundary q c (op', boundary', o', s, n, c', r) =
        let q' = Spells-osv_comparator field op' boundary' s n in
        let same_boundary : boundary' ≡ boundary = ground arith in
        let d : compared value boundary ≡ some o' = rw same_boundary at c' in cc

    -- The loop matches exactly when every field is satisfied.
    pub fields-Satisfies :
        (fields : List Text)
        → all (valid_field e asset_id kind) fields ≡ true
        → ((match_osv_fields e asset_id kind value fields).0 ≡ true)
          ↔ All (Satisfies compared value) fields
    unfolding match_osv_fields osv_comparator compare_osv_version has_prefix compare_in
    fields-Satisfies [] v = (λ h. tt, λ h. refl)
    fields-Satisfies (field ∷ rest) v =
        let (op, boundary, q, shared) = valid_field-cases field (ground arith) in
        let later = fields-Satisfies rest (ground arith) in
        rw q (elim (Option-cases (compared value boundary)) [
          | inl c ↦ rw c (λ h. cc, λ h. absurd (field_unread field op boundary q c h.0))
          | inr (o, c) ↦
              let here = field-Satisfies field op boundary o q c in
              rw c (elim (Bool-cases (comparison_matches o op)) [
                | inl t ↦ rw t (λ h. (here.0 t, later.0 h), λ h. later.1 h.1)
                | inr f ↦ rw f (λ h. cc, λ h. let t = here.1 h.0 in cc)
              ])
        ])

    -- It can be read exactly when the version can be compared, unless there is no field.
    pub fields-read :
        (fields : List Text)
        → all (valid_field e asset_id kind) fields ≡ true
        → (match_osv_fields e asset_id kind value fields).1
          ≡ (is_empty fields || is_some (compared value value))
    unfolding match_osv_fields osv_comparator compare_osv_version has_prefix compare_in
    fields-read [] v = refl
    fields-read (field ∷ rest) v =
        let (op, boundary, q, shared) = valid_field-cases field (ground arith) in
        let later = fields-read rest (ground arith) in
        rw q (elim (Option-cases (compared value boundary)) [
          | inl c ↦ rw c (ground arith)
          | inr (o, c) ↦
              let known : is_some (compared value value) ≡ true = rw c at (sym shared) in
              rw c (elim (Bool-cases (comparison_matches o op)) [
                | inl t ↦ rw t (ground arith)
                | inr f ↦ rw f (ground arith)
              ])
        ])

    is_some_iff : (c : Option Ordering) → (is_some c ≡ true) ↔ ((o : Ordering) × (c ≡ some o))
    is_some_iff none = (λ h. cc, λ h. cc h.1)
    is_some_iff (some o) = (λ h. (o, refl), λ h. refl)

    -- Of a valid selector, which has a field, the version alone decides whether it can be read.
    pub fields-read_iff :
        (fields : List Text)
        → all (valid_field e asset_id kind) fields ≡ true
        → is_empty fields ≡ false
        → ((match_osv_fields e asset_id kind value fields).1 ≡ true)
          ↔ ((o : Ordering) × (compared value value ≡ some o))
    fields-read_iff fields v n =
        let read = fields-read fields v in
        let known = is_some_iff (compared value value) in
        (λ h. known.0 (ground arith), λ h. let k = known.1 h in ground arith)
