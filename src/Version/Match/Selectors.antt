-- ===== src/Version/Match/Selectors.antt =====
-- internal/analyzer/version/osv.go: selectors as they are written and as `Match` reads them.
use ssc_init.Base.{
  ◌≡◌, ◌↔◌, ◌∙◌, Ordering, List, [], ◌∷◌, all, All, length, is_empty, ◌==◌, refl, true, false,
  Bool-cases, inl, inr, none, some, ◌++◌, arith, if◌then◌else◌, Text, codes, text_eq, text_eq→eq,
  has_prefix, trim_prefix, contains, cut, fields, to_lower,
}
use ssc_init.Version.Osv.{
  Engines, Kind, semver, ecosystem, kind_text, kind_of, open_start, osv_prefix, osv_expression,
  osv_open_start, osv_exact, valid_osv_comparators, valid_exact_version, compare_osv_version,
  match_osv_exact, match_osv_fields, match_kind, match_osv_expression, valid_field,
}
use ssc_init.Version.Match.{is_refused, match}
use ssc_init.Version.Match.Fields.{Satisfies, fields-Satisfies, fields-read_iff}

-- The tagged form of a selector.
abbrev encode : Kind → Text → Text
encode kind expression = osv_prefix ++ kind_text kind ++ codes ":" ++ expression

module _ (e : Engines) (asset_id value : Text) where
  -- A tagged selector is taken apart into its kind and its expression.
  match-encode :
      (kind : Kind) (expression : Text)
      → is_refused asset_id value (encode kind expression) ≡ false
      → match e asset_id value (encode kind expression)
        ≡ match_kind e asset_id value kind expression
  unfolding match match_osv_expression has_prefix trim_prefix cut text_eq kind_of
  match-encode semver expression h = rw h
  match-encode ecosystem expression h = rw h

  match-exact :
      (listed : Text)
      → is_refused asset_id value (osv_prefix ++ codes "exact:" ++ listed) ≡ false
      → match e asset_id value (osv_prefix ++ codes "exact:" ++ listed)
        ≡ match_osv_exact e asset_id value listed
  unfolding match match_osv_expression has_prefix trim_prefix cut text_eq
  match-exact listed h = rw h

  -- The open start is no valid list of comparators.
  not_open_start :
      (kind : Kind) (expression : Text)
      → valid_osv_comparators e asset_id kind expression ≡ true
      → text_eq expression open_start ≡ false
  unfolding valid_osv_comparators
  not_open_start kind expression h = elim (Bool-cases (text_eq expression open_start)) [
    | inr f ↦ f
    | inl t ↦
        let same : expression ≡ open_start = text_eq→eq expression open_start t in
        let found : contains expression open_start ≡ true =
          rw same (unfold contains has_prefix in refl) in
        ground arith
  ]

  -- A valid list of comparators has a field, and each field is valid.
  valid_fields :
      (kind : Kind) (expression : Text)
      → valid_osv_comparators e asset_id kind expression ≡ true
      → (all (valid_field e asset_id kind) (fields expression) ≡ true)
        × (is_empty (fields expression) ≡ false)
  unfolding valid_osv_comparators
  valid_fields kind expression h = (ground arith, nonempty (fields expression) (ground arith))
    where
      nonempty : (fs : List Text) → (length fs == 0) ≡ false → is_empty fs ≡ false
      nonempty [] k = cc
      nonempty (f ∷ fs) k = refl

  -- A selector that `OSVExpression` wrote for the asset, and that `Match` does not refuse, matches a
  -- version exactly when the version satisfies each field: behind the operator `>=`, `<=`, `>`, `<`
  -- or `=` stands a boundary to which the version compares so in the asset's ecosystem. It can be
  -- read exactly when the version can be compared with itself there.
  pub match-osv_expression :
      (range_type expression encoded : Text) (kind : Kind)
      → kind_of (to_lower range_type) ≡ some kind
      → osv_expression e asset_id range_type expression ≡ some encoded
      → is_refused asset_id value encoded ≡ false
      → (((match e asset_id value encoded).0 ≡ true)
          ↔ All (Satisfies (compare_osv_version e asset_id kind) value) (fields expression))
        × (((match e asset_id value encoded).1 ≡ true)
            ↔ ((o : Ordering) × (compare_osv_version e asset_id kind value value ≡ some o)))
  match-osv_expression range_type expression encoded kind k h r =
      let (same, valid) = written in
      let (each, some_field) = valid_fields kind expression valid in
      let read : match e asset_id value encoded
          ≡ match_osv_fields e asset_id kind value (fields expression) =
        rw same (
          match-encode kind expression (rw (← same) r)
          ∙ unfold match_kind in ground (arith, not_open_start kind expression valid)) in
      rw read (
        fields-Satisfies e asset_id kind value (fields expression) each,
        fields-read_iff e asset_id kind value (fields expression) each some_field,
      )
    where
      written :
          (encoded ≡ encode kind expression)
          × (valid_osv_comparators e asset_id kind expression ≡ true)
      written = unfold osv_expression in ground arith

  -- The selector that `OSVOpenStart` wrote matches every version that can be compared, and no other.
  pub match-osv_open_start :
      (range_type encoded : Text) (kind : Kind)
      → kind_of (to_lower range_type) ≡ some kind
      → osv_open_start e asset_id range_type ≡ some encoded
      → is_refused asset_id value encoded ≡ false
      → match e asset_id value encoded ≡ elim (compare_osv_version e asset_id kind value value) [
        | none ↦ (false, false)
        | some o ↦ (true, true)
      ]
  match-osv_open_start range_type encoded kind k h r =
      rw same (match-encode kind open_start (rw (← same) r) ∙ unfold match_kind text_eq in refl)
    where
      same : encoded ≡ encode kind open_start
      same = unfold osv_open_start in ground arith

  -- The selector that `OSVExact` wrote matches exactly the listed spelling, of the versions that are
  -- valid in the asset's ecosystem.
  pub match-osv_exact :
      (listed encoded : Text)
      → osv_exact e asset_id listed ≡ some encoded
      → is_refused asset_id value encoded ≡ false
      → match e asset_id value encoded ≡ (
          if valid_exact_version e asset_id value
          then (text_eq value listed, true)
          else (false, false))
  match-osv_exact listed encoded h r =
      let (same, valid) = written in
      rw same (match-exact listed (rw (← same) r) ∙ unfold match_osv_exact in ground (arith, valid))
    where
      written :
          (encoded ≡ osv_prefix ++ codes "exact:" ++ listed)
          × (valid_exact_version e asset_id listed ≡ true)
      written = unfold osv_exact in ground arith
