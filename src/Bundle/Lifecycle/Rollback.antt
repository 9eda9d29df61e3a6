-- ===== src/Bundle/Lifecycle/Rollback.antt =====
-- internal/bundle/lifecycle.go: `Rollback`, by how it returns.
use ssc_init.Base.{Option, none, some, ◌≡◌, refl, sym, ◌∙◌, Text, text_eq, Dict, get, arith}
use ssc_init.Bundle.Library.{Library, Bytes}
use ssc_init.Bundle.Disk.{World, sequence_text, now, open_bundle_root, write_pointer}
use ssc_init.Bundle.Lifecycle.Monad.{Result, lift, require, must, check_context, rollback_refused}
use ssc_init.Bundle.Lifecycle.{
  Manager, highest_file, current_file, previous_file, version_path, two_versions, read_bundle,
  exchange, rollback,
}
use ssc_init.Bundle.Lifecycle.Stable.{Holds, now-Stable, open_bundle_root-Stable}
use ssc_init.Bundle.Lifecycle.Methods.{
  check_context-Stable, require-Stable, must-Stable, read_bundle-Stable,
}
use ssc_init.Bundle.Lifecycle.Yields.{HoldsText, line}
use ssc_init.Bundle.Lifecycle.Ends.{Ends, next-Ends, weaken-Ends, always-Ends, some_or-Ends}
use ssc_init.Bundle.Lifecycle.Pointers.{
  Knows, Readable, rest-Readable, Pointed, write-Ends, read_pointer-Ends,
}

two_versions-some :
    (o o' : Option Text) (x y : Text)
    → two_versions o o' ≡ some (x, y)
    → (o ≡ some x) × (o' ≡ some y)
two_versions-some none o' x y h = cc
two_versions-some (some a) none x y h = cc
two_versions-some (some a) (some b) x y h = ground arith

module _ (D : Dict (Dict Bytes) → Type 0) (h c p : Option Text) where
  abbrev Before : World → Type 0
  Before w = Knows (Pointed D h c p) w

  -- An error leaves the highest and the current pointer.
  abbrev pub Refused : World → Type 0
  Refused w = HoldsText highest_file h w.disk × HoldsText current_file c w.disk

  Before-Refused : (w : World) → Before w → Refused w
  unfolding Holds
  Before-Refused w ((eh, ec, ep, d), r) = (eh, ec)

  -- The current and the previous pointer are exchanged.
  abbrev pub Exchanged : World → Type 0
  Exchanged w =
      (x : Text) × (y : Text) × (sequence_text c ≡ some x)
      × (sequence_text p ≡ some y)
      × Knows (Pointed D h (some (line y)) (some (line x))) w

  ButPrevious : Dict Text → Dict (Dict Bytes) → Type 0
  ButPrevious f d = (get highest_file f ≡ h) × (get current_file f ≡ c) × D d

  ButCurrent : Option Text → Dict Text → Dict (Dict Bytes) → Type 0
  ButCurrent z f d = (get highest_file f ≡ h) × (get previous_file f ≡ z) × D d

  write_previous-Ends :
      (x : Text) (w : World)
      → Before w
      → Ends
          (λ u w'. Knows (Pointed D h c (some (line x))) w')
          Refused
          (must (write_pointer previous_file x) rollback_refused w)
  unfolding Holds ButPrevious text_eq
  write_previous-Ends x w ((eh, ec, ep, d), r) =
      weaken-Ends _ _ _ _ _
        (write-Ends ButPrevious previous_file p x rollback_refused refl
          (λ f f' dirs same j. (same highest_file refl ∙ j.0, same current_file refl ∙ j.1, j.2))
          (λ f f' dirs same j. (same highest_file refl ∙ j.0, same current_file refl ∙ j.1, j.2)) w
          ep ((eh, ec, d), r))
        (λ u w' q. ((q.1.0.0, q.1.0.1, q.0, q.1.0.2), q.1.1)) (λ w' q. (q.1.0.0, q.1.0.1))

  write_current-Ends :
      (z : Option Text) (y : Text) (w : World)
      → Knows (Pointed D h c z) w
      → Ends
          (λ u w'. Knows (Pointed D h (some (line y)) z) w')
          Refused
          (must (write_pointer current_file y) rollback_refused w)
  unfolding Holds ButCurrent text_eq
  write_current-Ends z y w ((eh, ec, ep, d), r) =
      weaken-Ends _ _ _ _ _
        (write-Ends (ButCurrent z) current_file c y rollback_refused refl
          (λ f f' dirs same j. (same highest_file refl ∙ j.0, same previous_file refl ∙ j.1, j.2))
          (λ f f' dirs same j. (same highest_file refl ∙ j.0, same previous_file refl ∙ j.1, j.2)) w
          ec ((eh, ep, d), r))
        (λ u w' q. ((q.1.0.0, q.0, q.1.0.1, q.1.0.2), q.1.1)) (λ w' q. (q.1.0.0, q.0))

  module _ (lib : Library) (m : Manager) where
    always : {A : Type 0} (r : Result A × World) → Before r.1 → Ends (λ a w. Before w) Before r
    always r b = always-Ends Before r b

    pub rollback-Ends :
        (w : World) → Before w → Ends (λ u w'. Exchanged w') Refused (rollback lib m w)
    unfolding rollback
    rollback-Ends w k =
        next-Ends _ _ _ _ _ _
          (always (check_context w)
            (check_context-Stable (Pointed D h c p) Readable rest-Readable w k))
          Before-Refused
          (λ _ w1 k1.
            next-Ends _ _ _ _ _ _
              (always (require _ rollback_refused w1)
                (require-Stable (Pointed D h c p) Readable rest-Readable _ rollback_refused w1 k1))
              Before-Refused
              (λ _ w2 k2.
                next-Ends _ _ _ _ _ _
                  (always (must open_bundle_root rollback_refused w2) (
                    must-Stable (Pointed D h c p) Readable rest-Readable open_bundle_root
                      rollback_refused
                      (open_bundle_root-Stable (Pointed D h c p) Readable rest-Readable) w2 k2))
                  Before-Refused
                  (λ _ w3 k3.
                    next-Ends _ _ _ _ _ _
                      (read_pointer-Ends (Pointed D h c p) current_file c (λ f d q. q.1) w3 k3)
                      Before-Refused
                      (λ o w4 k4.
                        next-Ends _ _ _ _ _ _
                          (read_pointer-Ends (Pointed D h c p) previous_file p (λ f d q. q.2) w4
                            k4.1)
                          Before-Refused
                          (λ o' w5 k5.
                            next-Ends _ _ _ _ _ _ (some_or-Ends Before _ rollback_refused w5 k5.1)
                              Before-Refused (λ a w6 k6. chosen o o' k4.0 k5.0 a w6 k6))))))
      where
        chosen :
            (o o' : Option Text)
            → o ≡ sequence_text c
            → o' ≡ sequence_text p
            → (a : Text × Text) (w6 : World) → Before w6 × (two_versions o o' ≡ some a)
            → Ends (λ u w'. Exchanged w') Refused (exchange lib m a w6)
        chosen o o' e e' (x, y) w6 (k6, s) =
            unfold exchange in
            let q = two_versions-some o o' x y s in
            next-Ends _ _ _ _ _ _
              (always (lift (read_bundle (version_path y)) w6) (
                read_bundle-Stable (Pointed D h c p) Readable rest-Readable (version_path y) w6 k6))
              Before-Refused
              (λ files w7 k7.
                next-Ends _ _ _ _ _ _
                  (always (lift now w7) (now-Stable (Pointed D h c p) Readable rest-Readable w7 k7))
                  Before-Refused
                  (λ t w8 k8.
                    next-Ends _ _ _ _ _ _
                      (always (require _ rollback_refused w8) (
                        require-Stable (Pointed D h c p) Readable rest-Readable _ rollback_refused
                          w8 k8))
                      Before-Refused
                      (λ _ w9 k9.
                        next-Ends _ _ _ _ _ _
                          (always (check_context w9)
                            (check_context-Stable (Pointed D h c p) Readable rest-Readable w9 k9))
                          Before-Refused
                          (λ _ wa ka.
                            next-Ends _ _ _ _ _ _ (write_previous-Ends x wa ka) (λ w' i. i)
                              (λ _ wb kb.
                                weaken-Ends _ _ _ _ _ (write_current-Ends (some (line x)) y wb kb)
                                  (λ u w' k'. (x, y, sym e ∙ q.0, sym e' ∙ q.1, k'))
                                  (λ w' i. i))))))
