-- ===== src/Base/Maps.antt =====
-- A Go map with string keys: an association list in which a later write to a key replaces the
-- earlier one.
use mathlib.Core.Path.{◌≡◌, refl}
use mathlib.Core.Option.{Option, none, some}
use mathlib.Core.List.{List, [], ◌∷◌, ◌++◌}
use native.Mathlib.Omega.{arith}
use mathlib.Core.Logic.{inl, inr}
use mathlib.Core.Bool.{false}
use ssc_init.Base.Tests.{if◌then◌else◌, Bool-cases}
use ssc_init.Base.Lists.{All, Any}
use ssc_init.Base.Strings.{Text, text_eq, text_eq_refl, text_eq_iff, text_eq→eq}

abbrev pub Dict {ℓ} : Type ℓ → Type ℓ
Dict V = List (Text × V)

module _ {ℓ} {V : Type ℓ} where
  -- `value, present := d[key]`
  unfoldable pub get : Text → Dict V → Option V
  get key [] = none
  get key ((k, v) ∷ d) = if text_eq k key then some v else get key d

  -- `d[key] = value`
  unfoldable pub put : Text → V → Dict V → Dict V
  put key value [] = (key, value) ∷ []
  put key value ((k, v) ∷ d) =
      let rest = put key value d in if text_eq k key then (k, value) ∷ d else (k, v) ∷ rest

  abbrev pub keys : Dict V → List Text
  keys [] = []
  keys ((k, v) ∷ d) = k ∷ keys d

  pub get-put :
      (key other : Text) (value : V) (d : Dict V)
      → get other (put key value d) ≡ (if text_eq key other then some value else get other d)
  unfolding get put
  get-put key other value [] = refl
  get-put key other value ((k, v) ∷ d) = ground (
    arith,
    text_eq_iff k key,
    text_eq_iff k other,
    text_eq_iff key other,
    text_eq_refl key,
    get-put key other value d,
  )

module _ {ℓ} {V : Type ℓ} where
  abbrev pub or_empty : Option (List V) → List V
  or_empty none = []
  or_empty (some vs) = vs

  -- `d[key]` of a map to slices: the zero value is the empty slice.
  abbrev pub get_all : Text → Dict (List V) → List V
  get_all key d = or_empty (get key d)

  -- `d[key] = append(d[key], value)`
  unfoldable pub add : Text → V → Dict (List V) → Dict (List V)
  add key value d = put key (get_all key d ++ value ∷ []) d

  pub get_all-add :
      (key other : Text) (value : V) (d : Dict (List V))
      → get_all other (add key value d)
        ≡ (if text_eq key other then get_all key d ++ value ∷ [] else get_all other d)
  unfolding add
  get_all-add key other value d = ground (arith, get-put key other (get_all key d ++ value ∷ []) d)

module _ {ℓ} {V : Type ℓ} where
  -- `delete(d, key)`
  unfoldable pub remove : Text → Dict V → Dict V
  remove key [] = []
  remove key ((k, v) ∷ d) = let rest = remove key d in if text_eq k key then rest else (k, v) ∷ rest

  -- The values, in the order of the list.
  abbrev pub values : Dict V → List V
  values [] = []
  values ((k, v) ∷ d) = v ∷ values d

module _ {V : Type 0} where
  -- Every value is held under the key that it names.
  abbrev pub IsKeyed : (V → Text) → Dict V → Type 0
  IsKeyed name d = (key : Text) (v : V) → get key d ≡ some v → name v ≡ key

  pub empty-IsKeyed : (name : V → Text) → IsKeyed name []
  unfolding get
  empty-IsKeyed name key v h = cc

  pub put-IsKeyed :
      (name : V → Text) (v : V) (d : Dict V) → IsKeyed name d → IsKeyed name (put (name v) v d)
  put-IsKeyed name v d h key w e =
      ground (arith, get-put (name v) key v d, text_eq_iff (name v) key, h key w)

  -- What holds of every entry holds after a write whose entry it holds of.
  pub put-All :
      (P : Text × V → Type 0) (key : Text) (value : V) (d : Dict V)
      → P (key, value)
      → All P d
      → All P (put key value d)
  unfolding put
  put-All P key value [] p h = (p, tt)
  put-All P key value ((k, v) ∷ d) p h = elim (Bool-cases (text_eq k key)) [
    | inl t ↦ rw t (rw (text_eq→eq k key t) p, h.1)
    | inr f ↦ rw f (h.0, put-All P key value d p h.1)
  ]

  -- A value that is read belongs to an entry under its key.
  pub get-All :
      (P : Text × V → Type 0) (key : Text) (value : V) (d : Dict V)
      → All P d
      → get key d ≡ some value
      → P (key, value)
  unfolding get
  get-All P key value [] h e = cc
  get-All P key value ((k, v) ∷ d) h e = elim (Bool-cases (text_eq k key)) [
    | inl t ↦ let same : v ≡ value = ground arith in rw (← text_eq→eq k key t) (rw (← same) h.0)
    | inr f ↦ get-All P key value d h.1 (ground arith)
  ]

  -- A value that is read is one of the values.
  pub get-values :
      (P : V → Type 0) (key : Text) (value : V) (d : Dict V)
      → get key d ≡ some value
      → P value
      → Any P (values d)
  unfolding get
  get-values P key value [] e p = cc
  get-values P key value ((k, v) ∷ d) e p = elim (Bool-cases (text_eq k key)) [
    | inl t ↦ let same : v ≡ value = ground arith in inl (rw same p)
    | inr f ↦ inr (get-values P key value d (ground arith) p)
  ]

  pub get-remove :
      (key other : Text) (d : Dict V)
      → text_eq key other ≡ false
      → get other (remove key d) ≡ get other d
  unfolding get remove
  get-remove key other [] f = refl
  get-remove key other ((k, v) ∷ d) f = ground (
    arith,
    text_eq_iff k key,
    text_eq_iff k other,
    text_eq_iff key other,
    get-remove key other d f,
  )

  pub get-remove_self : (key : Text) (d : Dict V) → get key (remove key d) ≡ none
  unfolding get remove
  get-remove_self key [] = refl
  get-remove_self key ((k, v) ∷ d) = ground (arith, get-remove_self key d)

  -- A deletion forgets what was written under its key.
  pub remove-put :
      (key : Text) (value : V) (d : Dict V) → remove key (put key value d) ≡ remove key d
  unfolding remove put
  remove-put key value [] = rw (text_eq_refl key) refl
  remove-put key value ((k, v) ∷ d) = ground (arith, text_eq_refl key, remove-put key value d)

  -- No key has two entries.
  abbrev pub IsUnique : Dict V → Type 0
  IsUnique [] = Unit
  IsUnique ((k, v) ∷ d) = (get k d ≡ none) × IsUnique d

  pub put-IsUnique : (key : Text) (value : V) (d : Dict V) → IsUnique d → IsUnique (put key value d)
  unfolding put get
  put-IsUnique key value [] u = (refl, tt)
  put-IsUnique key value ((k, v) ∷ d) u = elim (Bool-cases (text_eq k key)) [
    | inl t ↦ rw t u
    | inr f ↦ rw f (
      ground (arith, get-put key k value d, text_eq_iff k key, text_eq_iff key k, u.0),
      put-IsUnique key value d u.1,
    )
  ]

  -- A key that is absent is the key of no entry.
  pub absent-All :
      (key : Text) (d : Dict V) → get key d ≡ none → All (λ entry. text_eq entry.0 key ≡ false) d
  unfolding get
  absent-All key [] h = tt
  absent-All key ((k, v) ∷ d) h = (ground arith, absent-All key d (ground arith))
