-- ===== src/Version/Osv/Order.antt =====
-- internal/analyzer/version/osv.go: `compareOSVVersion` as an order.
use ssc_init.Base.{◌≡◌, refl, Ordering, lt, eq, Option, none, some, arith, Text, opposite, IsLawful}
use ssc_init.Version.Strict.{parse_strict_semver}
use ssc_init.Version.Semver.Order.{compare-IsLawful}
use ssc_init.Version.Pep440.{parse_pep440}
use ssc_init.Version.Pep440.Order.{compare_pep440-IsLawful}
use ssc_init.Version.Osv.{
  Engines, Ecosystem, npm, pypi, go, cargo, unknown, Kind, semver, ecosystem, semver_for,
  compare_parsed, go_parse, compare_in, compare_osv_version, ecosystem_of,
}

-- A partial comparison is lawful where it gives results.
pub record IsLawfulWhere (cmp : Text → Text → Option Ordering) : Type 0 where
  pub flip : (a b : Text) (o : Ordering) → cmp a b ≡ some o → cmp b a ≡ some (opposite o)
  pub trans : (a b c : Text) → cmp a b ≡ some lt → cmp b c ≡ some lt → cmp a c ≡ some lt
  pub same : (a b c : Text) → cmp a b ≡ some eq → cmp a c ≡ cmp b c

module _ {ℓ} {A : Type ℓ} (parse : Text → Option A) {cmp : A → A → Ordering}
    (law : IsLawful cmp) where
  abbrev parsed : Text → Text → Option Ordering
  parsed l r = compare_parsed cmp (parse l) (parse r)

  flips :
      (l r : Option A) (o : Ordering)
      → compare_parsed cmp l r ≡ some o
      → compare_parsed cmp r l ≡ some (opposite o)
  flips (some x) (some y) o h = ground (arith, law.flip x y)
  flips (some x) none o h = cc
  flips none r o h = cc

  transits :
      (l m r : Option A)
      → compare_parsed cmp l m ≡ some lt
      → compare_parsed cmp m r ≡ some lt
      → compare_parsed cmp l r ≡ some lt
  transits (some x) (some y) (some z) h k = ground (arith, law.trans x y z)
  transits (some x) (some y) none h k = cc
  transits (some x) none r h k = cc
  transits none m r h k = cc

  sames :
      (l m r : Option A)
      → compare_parsed cmp l m ≡ some eq
      → compare_parsed cmp l r ≡ compare_parsed cmp m r
  sames (some x) (some y) (some z) h = ground (arith, law.same x y z)
  sames (some x) (some y) none h = refl
  sames (some x) none r h = cc
  sames none m r h = cc

  parsed-IsLawfulWhere : IsLawfulWhere parsed
  parsed-IsLawfulWhere = record {
    flip = λ a b. flips (parse a) (parse b);
    trans = λ a b c. transits (parse a) (parse b) (parse c);
    same = λ a b c. sames (parse a) (parse b) (parse c);
  }

module _ (e : Engines) (law : IsLawful e.go_compare) where
  compare_in-IsLawfulWhere :
      (asset : Ecosystem) (kind : Kind) → IsLawfulWhere (compare_in e asset kind)
  unfolding compare_in
  compare_in-IsLawfulWhere asset semver =
      parsed-IsLawfulWhere (λ v. parse_strict_semver (semver_for asset v)) compare-IsLawful
  compare_in-IsLawfulWhere npm ecosystem = parsed-IsLawfulWhere parse_strict_semver compare-IsLawful
  compare_in-IsLawfulWhere cargo ecosystem =
      parsed-IsLawfulWhere parse_strict_semver compare-IsLawful
  compare_in-IsLawfulWhere go ecosystem = parsed-IsLawfulWhere (go_parse e) law
  compare_in-IsLawfulWhere pypi ecosystem =
      parsed-IsLawfulWhere (parse_pep440 e.pep440_find) compare_pep440-IsLawful
  compare_in-IsLawfulWhere unknown ecosystem = record {
    flip = λ a b o h. cc;
    trans = λ a b c h k. cc;
    same = λ a b c h. cc;
  }

  -- For every asset and both kinds of range, the versions that can be compared are in a total
  -- preorder, if `semver.Compare` is one.
  pub compare_osv_version-IsLawfulWhere :
      (asset_id : Text) (kind : Kind) → IsLawfulWhere (compare_osv_version e asset_id kind)
  unfolding compare_osv_version
  compare_osv_version-IsLawfulWhere asset_id kind =
      compare_in-IsLawfulWhere (ecosystem_of asset_id) kind
