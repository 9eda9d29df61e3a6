-- ===== src/Base/Compare/Lex.antt =====
-- The laws of a three-way comparison, and the lexicographic combinations that keep them.
use Prim.Native.Nat.{ℕ, Ordering, lt, eq, gt}
use mathlib.Core.Path.{◌≡◌, refl}
use mathlib.Core.List.{List, [], ◌∷◌}
use native.Mathlib.Omega.{arith}
use ssc_init.Base.Tests.{ltb, if◌then◌else◌}

-- The sign change `-x`.
abbrev pub opposite : Ordering → Ordering
opposite lt = gt
opposite eq = eq
opposite gt = lt

-- `if compared := a; compared != 0 { return compared }; return b`
infixr 40 ◌then◌
abbrev pub ◌then◌ : Ordering → Ordering → Ordering
lt then o = lt
eq then o = o
gt then o = gt

-- A comparison is lawful if it is a total preorder: it is antisymmetric in its sign, `lt` is
-- transitive, and values that compare equal compare alike with every other value.
pub record IsLawful {ℓ} {A : Type ℓ} (cmp : A → A → Ordering) : Type ℓ where
  pub flip : (a b : A) → cmp b a ≡ opposite (cmp a b)
  pub trans : (a b c : A) → cmp a b ≡ lt → cmp b c ≡ lt → cmp a c ≡ lt
  pub same : (a b c : A) → cmp a b ≡ eq → cmp a c ≡ cmp b c

-- `compareUint` and `compareInt`
unfoldable pub compare_uint : ℕ → ℕ → Ordering
compare_uint a b = if ltb a b then lt else if ltb b a then gt else eq

pub compare_uint-IsLawful : IsLawful compare_uint
unfolding compare_uint
compare_uint-IsLawful = record {
  flip = λ a b. ground arith;
  trans = λ a b c p q. ground arith;
  same = λ a b c p. ground arith;
}

module _ {ℓ κ} {A : Type ℓ} {B : Type κ} (f : A → B) {cmp : B → B → Ordering} where
  pub on-IsLawful : IsLawful cmp → IsLawful (λ (a b : A). cmp (f a) (f b))
  on-IsLawful law = record {
    flip = λ a b. law.flip (f a) (f b);
    trans = λ a b c. law.trans (f a) (f b) (f c);
    same = λ a b c. law.same (f a) (f b) (f c);
  }

module _ {ℓ} {A : Type ℓ} (first second : A → A → Ordering) where
  pub then-IsLawful :
      IsLawful first → IsLawful second → IsLawful (λ (a b : A). first a b then second a b)
  then-IsLawful p q = record {
    flip = λ a b. ground (arith, p.flip a b, q.flip a b);
    trans = λ a b c h k. ground (
      arith,
      p.trans a b c,
      q.trans a b c,
      p.same a b c,
      p.same b c a,
      p.flip a b,
      p.flip b c,
      p.flip a c,
      q.flip a b,
    );
    same = λ a b c h. ground (arith, p.same a b c, q.same a b c);
  }

module _ {ℓ} {A : Type ℓ} (cmp : A → A → Ordering) where
  -- Item by item; of two lists with equal items the shorter is less.
  abbrev pub lex : List A → List A → Ordering
  lex [] [] = eq
  lex [] (y ∷ ys) = lt
  lex (x ∷ xs) [] = gt
  lex (x ∷ xs) (y ∷ ys) = cmp x y then lex xs ys

  lex-flip : IsLawful cmp → (xs ys : List A) → lex ys xs ≡ opposite (lex xs ys)
  lex-flip law [] [] = refl
  lex-flip law [] (y ∷ ys) = refl
  lex-flip law (x ∷ xs) [] = refl
  lex-flip law (x ∷ xs) (y ∷ ys) = ground (arith, law.flip x y, lex-flip law xs ys)

  lex-same : IsLawful cmp → (xs ys zs : List A) → lex xs ys ≡ eq → lex xs zs ≡ lex ys zs
  lex-same law [] [] zs h = refl
  lex-same law [] (y ∷ ys) zs h = ground arith
  lex-same law (x ∷ xs) [] zs h = ground arith
  lex-same law (x ∷ xs) (y ∷ ys) [] h = refl
  lex-same law (x ∷ xs) (y ∷ ys) (z ∷ zs) h = ground (arith, law.same x y z, lex-same law xs ys zs)

  lex_trans : IsLawful cmp → (xs ys zs : List A) → lex xs ys ≡ lt → lex ys zs ≡ lt → lex xs zs ≡ lt
  lex_trans law [] ys [] h k = ground arith
  lex_trans law [] ys (z ∷ zs) h k = refl
  lex_trans law (x ∷ xs) [] zs h k = ground arith
  lex_trans law (x ∷ xs) (y ∷ ys) [] h k = ground arith
  lex_trans law (x ∷ xs) (y ∷ ys) (z ∷ zs) h k = ground (
    arith,
    law.trans x y z,
    lex_trans law xs ys zs,
    law.same x y z,
    law.same y z x,
    law.flip x y,
    law.flip y z,
    law.flip x z,
  )

  pub lex-IsLawful : IsLawful cmp → IsLawful lex
  lex-IsLawful law = record { flip = lex-flip law; trans = lex_trans law; same = lex-same law }
