-- ===== src/Bundle/Lifecycle/Install.antt =====
-- internal/bundle/lifecycle.go: `Install`, by how it returns.
use ssc_init.Base.{ℕ, ◌≤◌, Option, some, ◌≡◌, ◌⊎◌, inl, inr, Text, Dict, get, decimal}
use ssc_init.Bundle.Library.{Library, Bytes}
use ssc_init.Bundle.Envelope.{Verified}
use ssc_init.Bundle.Disk.{World, sequence_text, open_bundle_root}
use ssc_init.Bundle.Lifecycle.Monad.{pure, must, ◌>>=◌, install_failed}
use ssc_init.Bundle.Lifecycle.{
  Manager, highest_file, current_file, staging_path, version_path, sequence_of, compare_high_water,
  check_high_water, point_to, place, install,
}
use ssc_init.Bundle.Lifecycle.Stable.{Holds, Ignores, open_bundle_root-Stable}
use ssc_init.Bundle.Lifecycle.Methods.{must-Stable}
use ssc_init.Bundle.Lifecycle.Yields.{HoldsText, line}
use ssc_init.Bundle.Lifecycle.Ends.{Ends, next-Ends, always-Ends}
use ssc_init.Bundle.Lifecycle.Pointers.{
  Knows, Readable, rest-Readable, Pointed, previous_after, point_to-Ends, read_pointer-Ends,
}
use ssc_init.Bundle.Lifecycle.Staged.{HasFiles}
use ssc_init.Bundle.Lifecycle.Placed.{stage-Ends}
use ssc_init.Bundle.Lifecycle.Steps.{bundle_files}
use ssc_init.Bundle.Lifecycle.Admission.{mark_of, IsOffered, Admitted, admit-Ends, compare-Ends}

module _ (lib : Library) (m : Manager) (bundle_path signature_path : Text) where
  module _ (D : Dict (Dict Bytes) → Type 0) (h c p : Option Text) where
    abbrev Before : World → Type 0
    Before w = Knows (Pointed D h c p) w

    check_high_water-Ends :
        (v : Verified) (w : World)
        → Before w
        → Ends (λ u w'. Before w' × (mark_of h ≤ sequence_of v)) Before (check_high_water lib m v w)
    unfolding check_high_water
    check_high_water-Ends v w k =
        next-Ends _ _ _ _ _ _
          (read_pointer-Ends (Pointed D h c p) highest_file h (λ f d q. q.0) w k) (λ w' i. i)
          (λ o w1 k1. compared o w1 k1)
      where
        compared :
            (o : Option Text) (w1 : World)
            → (o ≡ sequence_text h) × Before w1
            → Ends
                (λ u w'. Before w' × (mark_of h ≤ sequence_of v))
                Before
                (compare_high_water lib m v o w1)
        compared o w1 (e, k1) =
            unfold mark_of in
            rw (← e) (compare-Ends lib m bundle_path signature_path (Pointed D h c p) v o w1 k1)

    -- The disk after `Install` has returned a bundle: it is in its place, and the pointers lead there.
    abbrev pub Installed : Verified → World → Type 0
    Installed v w =
        (raw : Bytes) × (signature : Bytes) × (t : ℕ) × IsOffered lib m bundle_path signature_path
          raw signature t v
        × (mark_of h ≤ sequence_of v)
        × Knows
            (Pointed
              (λ d.
                D d
                × (get (version_path (decimal (sequence_of v))) d
                    ≡ some (bundle_files raw signature)))
              (some (line (decimal (sequence_of v)))) (some (line (decimal (sequence_of v))))
              (previous_after (decimal (sequence_of v)) (sequence_text c) p))
            w

    -- The disk after `Install` has returned an error: the current pointer is as before, and the highest
    -- one as before or as it would be.
    abbrev pub Failed : World → Type 0
    Failed w =
        HoldsText current_file c w.disk
        × D w.disk.directories
        × (HoldsText highest_file h w.disk
            ⊎ ((v : Verified) × (raw : Bytes) × (signature : Bytes) × (t : ℕ) × IsOffered lib m
                  bundle_path signature_path raw signature t v
                × (mark_of h ≤ sequence_of v)
                × HoldsText highest_file (some (line (decimal (sequence_of v)))) w.disk))

    Before-Failed : (w : World) → Before w → Failed w
    unfolding Holds
    Before-Failed w ((eh, ec, ep, d), r) = (ec, d, inl eh)

    pub install-Ends :
        ((raw signature : Bytes) (t : ℕ) (v : Verified)
          → IsOffered lib m bundle_path signature_path raw signature t v
          → Ignores
              (Pointed D h c p)
              Readable
              rest-Readable
              (staging_path (decimal (sequence_of v)))
            × Ignores
                (Pointed D h c p)
                Readable
                rest-Readable
                (version_path (decimal (sequence_of v))))
        → (w : World) → Before w
        → Ends Installed Failed (install lib m bundle_path signature_path w)
    unfolding install
    install-Ends ig w k =
        next-Ends _ _ _ _ _ _ (admit-Ends lib m bundle_path signature_path (Pointed D h c p) w k)
          Before-Failed (λ a w1 k1. placed a w1 k1)
      where
        pointed :
            (raw signature : Bytes) (t : ℕ) (v staged : Verified) (w4 : World)
            → IsOffered lib m bundle_path signature_path raw signature t v
            → mark_of h ≤ sequence_of v
            → staged ≡ v
            → HasFiles
                (version_path (decimal (sequence_of v)))
                (some (bundle_files raw signature))
                w4.disk
            → Before w4
            → Ends Installed Failed ((point_to (decimal (sequence_of v)) >>= λ _. pure staged) w4)
        pointed raw signature t v staged w4 o le e g k4 =
            next-Ends _ _ _ _ _ _
              (point_to-Ends
                (λ d.
                  D d
                  × (get (version_path (decimal (sequence_of v))) d
                      ≡ some (bundle_files raw signature)))
                h c p (decimal (sequence_of v)) w4 (unfold Holds in known w4 g k4))
              (λ w' i. (i.0, i.1.0, interrupted w' i.2))
              (λ _ w5 k5. unfold Ends in rw e (raw, signature, t, o, le, k5))
          where
            known :
                (w' : World)
                → HasFiles
                    (version_path (decimal (sequence_of v)))
                    (some (bundle_files raw signature))
                    w'.disk
                → Before w'
                → Knows
                    (Pointed
                      (λ d.
                        D d
                        × (get (version_path (decimal (sequence_of v))) d
                            ≡ some (bundle_files raw signature)))
                      h
                      c
                      p)
                    w'
            known w' g' k' =
                unfold Holds in
                let q : Pointed D h c p w'.disk.files w'.disk.directories
                    × Readable w'.read_faults =
                  unfold Holds in k' in
                ((q.0.0, q.0.1, q.0.2, (q.0.3, g')), q.1)

            interrupted :
                (w' : World)
                → HoldsText highest_file h w'.disk
                  ⊎ HoldsText highest_file (some (line (decimal (sequence_of v)))) w'.disk
                → HoldsText highest_file h w'.disk
                  ⊎ ((v : Verified) × (raw : Bytes) × (signature : Bytes) × (t : ℕ) × IsOffered lib
                        m bundle_path signature_path raw signature t v
                      × (mark_of h ≤ sequence_of v)
                      × HoldsText highest_file (some (line (decimal (sequence_of v)))) w'.disk)
            interrupted w' (inl same) = inl same
            interrupted w' (inr new) = inr (v, raw, signature, t, o, le, new)

        placed :
            (a : Bytes × Bytes × Verified) (w1 : World)
            → Admitted lib m bundle_path signature_path (Pointed D h c p) a w1
            → Ends Installed Failed (place lib m a w1)
        placed (raw, signature, v) w1 (k1, (t, o)) =
            unfold place in
            let i = ig raw signature t v o in
            next-Ends _ _ _ _ _ _
              (always-Ends Before (must open_bundle_root install_failed w1) (
                must-Stable (Pointed D h c p) Readable rest-Readable open_bundle_root install_failed
                  (open_bundle_root-Stable (Pointed D h c p) Readable rest-Readable) w1 k1))
              Before-Failed
              (λ _ w2 k2.
                next-Ends _ _ _ _ _ _ (check_high_water-Ends v w2 k2) Before-Failed (λ _ w3 k3.
                  next-Ends _ _ _ _ _ _
                    (stage-Ends lib m (Pointed D h c p) (decimal (sequence_of v)) raw signature t v
                      i.0 i.1 o.2 w3 k3.0)
                    Before-Failed
                    (λ staged w4 k4.
                      pointed raw signature t v staged w4 o k3.1 k4.0 k4.1.0 k4.1.1)))
