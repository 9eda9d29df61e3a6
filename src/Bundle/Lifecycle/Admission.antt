-- ===== src/Bundle/Lifecycle/Admission.antt =====
-- internal/bundle/lifecycle.go: the admission of a bundle, and the high-water mark.
use ssc_init.Base.{
  ℕ, ◌≤◌, ◌<◌, Bool, true, false, Option, none, some, ◌≡◌, refl, inl, inr, Text, Dict, parse_uint,
  decimal, ltb, ◌==◌, u64, Bool-cases, arith, parse_uint-decimal,
}
use ssc_init.Bundle.Library.{Library, Bytes}
use ssc_init.Bundle.Envelope.{Verified, verify, same_family, max_bundle_bytes}
use ssc_init.Bundle.Disk.{World, sequence_text, now}
use ssc_init.Bundle.Lifecycle.Monad.{Error, pure, lift, require, check_context, install_failed}
use ssc_init.Bundle.Lifecycle.{
  Manager, read_regular_bounded, within, sequence_of, family_of, or_zero, admit, check_same,
  compare_high_water,
}
use ssc_init.Bundle.Lifecycle.Stable.{now-Stable}
use ssc_init.Bundle.Lifecycle.Methods.{check_context-Stable, require-Stable, check_same-Stable}
use ssc_init.Bundle.Lifecycle.Yields.{line}
use ssc_init.Bundle.Lifecycle.Ends.{
  Ends, next-Ends, weaken-Ends, always-Ends, some_or-Ends, sequence_text-line,
}
use ssc_init.Bundle.Lifecycle.Pointers.{Knows, Readable, rest-Readable}

-- The sequence that a pointer's contents stand for, and 0 where they stand for none.
abbrev pub sequence_or_zero : Option Text → ℕ
sequence_or_zero none = 0
sequence_or_zero (some text) = or_zero (parse_uint text)

unfoldable pub mark_of : Option Text → ℕ
mark_of contents = sequence_or_zero (sequence_text contents)

pub mark_of-line : (n : ℕ) → 0 < n → n < u64 → mark_of (some (line (decimal n))) ≡ n
unfolding mark_of
mark_of-line n positive small =
    rw (sequence_text-line n positive small) (rw (parse_uint-decimal n small) refl)

module _ (lib : Library) (m : Manager) (bundle_path signature_path : Text) where
  -- A bundle at the paths, verified at some instant.
  abbrev pub IsOffered : Bytes → Bytes → ℕ → Verified → Type 0
  IsOffered raw signature t v =
      (m.host bundle_path ≡ some raw)
      × (m.host signature_path ≡ some signature)
      × (verify lib m.keys raw signature t ≡ some v)
      × (same_family (family_of v) m.family ≡ true)

  within-some :
      (maximum : ℕ) (o : Option Bytes) (contents : Bytes)
      → within maximum o ≡ some contents
      → o ≡ some contents
  within-some maximum none contents h = cc
  within-some maximum (some c) contents h = ground arith

  module _ (J : Dict Text → Dict (Dict Bytes) → Type 0) where
    pub require-Ends :
        (b : Bool) (e : Error) (w : World)
        → Knows J w
        → Ends (λ u w'. Knows J w' × (b ≡ true)) (Knows J) (require b e w)
    unfolding Ends
    require-Ends true e w k = (k, refl)
    require-Ends false e w k = k

    -- What is known when the bundle has been admitted.
    abbrev pub Admitted : Bytes × Bytes × Verified → World → Type 0
    Admitted (raw, signature, v) w = Knows J w × ((t : ℕ) × IsOffered raw signature t v)

    pub admit-Ends :
        (w : World) → Knows J w → Ends Admitted (Knows J) (admit lib m bundle_path signature_path w)
    unfolding admit read_regular_bounded
    admit-Ends w k =
        next-Ends _ _ _ _ _ _
          (always-Ends (Knows J) (check_context w)
            (check_context-Stable J Readable rest-Readable w k))
          (λ w' i. i)
          (λ _ w1 k1.
            next-Ends _ _ _ _ _ _
              (always-Ends (Knows J) (require _ install_failed w1)
                (require-Stable J Readable rest-Readable _ install_failed w1 k1))
              (λ w' i. i)
              (λ _ w2 k2.
                next-Ends _ _ _ _ _ _ (some_or-Ends (Knows J) _ install_failed w2 k2) (λ w' i. i)
                  (λ raw w3 k3.
                    next-Ends _ _ _ _ _ _ (some_or-Ends (Knows J) _ install_failed w3 k3.0)
                      (λ w' i. i)
                      (λ signature w4 k4.
                        next-Ends _ _ _ _ _ _
                          (always-Ends (Knows J) (lift now w4)
                            (now-Stable J Readable rest-Readable w4 k4.0))
                          (λ w' i. i)
                          (λ t w5 k5.
                            next-Ends _ _ _ _ _ _ (some_or-Ends (Knows J) _ install_failed w5 k5)
                              (λ w' i. i)
                              (λ v w6 k6.
                                next-Ends _ _ _ _ _ _ (require-Ends _ install_failed w6 k6.0)
                                  (λ w' i. i)
                                  (λ _ w7 k7.
                                    next-Ends _ _ _ _ _ _
                                      (always-Ends (Knows J) (check_context w7)
                                        (check_context-Stable J Readable rest-Readable w7 k7.0))
                                      (λ w' i. i)
                                      (λ _ w8 k8. admitted raw signature t v w8 k8 (
                                        within-some max_bundle_bytes (m.host bundle_path) raw k3.1,
                                        within-some 1024 (m.host signature_path) signature k4.1,
                                        k6.1,
                                        k7.1,
                                      )))))))))
      where
        admitted :
            (raw signature : Bytes) (t : ℕ) (v : Verified) (w8 : World)
            → Knows J w8
            → IsOffered raw signature t v
            → Ends Admitted (Knows J) (pure (raw, signature, v) w8)
        admitted raw signature t v w8 k8 o = unfold Ends in (k8, (t, o))

    pub compare-Ends :
        (v : Verified) (o : Option Text) (w : World)
        → Knows J w
        → Ends
            (λ u w'. Knows J w' × (sequence_or_zero o ≤ sequence_of v))
            (Knows J)
            (compare_high_water lib m v o w)
    unfolding compare_high_water Ends
    compare-Ends v none w k = (k, omega arith)
    compare-Ends v (some mark) w k =
        elim (Bool-cases (ltb (sequence_of v) (or_zero (parse_uint mark)))) [
          | inl t ↦ rw t k
          | inr f ↦ elim (Bool-cases (sequence_of v == or_zero (parse_uint mark))) [
            | inl e ↦ rw f (
                rw e (
                  weaken-Ends (λ u w'. Knows J w')
                    (λ u w'. Knows J w' × (or_zero (parse_uint mark) ≤ sequence_of v)) (Knows J)
                    (Knows J) (check_same lib m v w)
                    (always-Ends (Knows J) (check_same lib m v w)
                      (check_same-Stable J Readable rest-Readable lib m v w k))
                    (λ u w' k'. (k', ground arith)) (λ w' k'. k')))
            | inr ne ↦ rw f (rw ne (k, ground arith))
          ]
        ]
