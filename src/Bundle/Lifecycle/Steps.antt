-- ===== src/Bundle/Lifecycle/Steps.antt =====
-- internal/bundle/lifecycle.go: one step of the staging, and what the disk holds behind it.
use ssc_init.Base.{
  Bool, true, false, Option, none, some, [], ◌∷◌, ◌≡◌, refl, ◌∙◌, if◌then◌else◌, Text, text_eq,
  Dict, get,
}
use ssc_init.Bundle.Library.{Bytes}
use ssc_init.Bundle.Disk.{Disk, World, Effect, now, is_cancelled, read, read_file}
use ssc_init.Bundle.Lifecycle.Monad.{ok, Error, pure, lift, require, must, continue, cancelled}
use ssc_init.Bundle.Lifecycle.{
  bundle_file, signature_file, read_bundle, discard, kept, must_or_discard,
}
use ssc_init.Bundle.Lifecycle.Stable.{Holds, Ignores}
use ssc_init.Bundle.Lifecycle.Methods.{discard-Stable, read_bundle-Stable}
use ssc_init.Bundle.Lifecycle.Yields.{Yields}
use ssc_init.Bundle.Lifecycle.Ends.{Ends}
use ssc_init.Bundle.Lifecycle.Pointers.{Knows, Readable, rest-Readable}
use ssc_init.Bundle.Lifecycle.Staged.{HasFiles, AnyDisk, read_bundle-HasFiles}

-- A bundle and its signature, as a version directory holds them.
abbrev pub bundle_files : Bytes → Bytes → Dict Bytes
bundle_files raw signature = (bundle_file, raw) ∷ (signature_file, signature) ∷ []

module _ (J : Dict Text → Dict (Dict Bytes) → Type 0) where
  abbrev pub With : (Disk → Type 0) → World → Type 0
  With G w = G w.disk × Knows J w

  -- An effect that succeeds, or after which the method returns.
  pub must-Ends-With :
      (G : Disk → Type 0) (m : Effect Bool) (e : Error) (w : World)
      → Yields G AnyDisk (m w)
      → Knows J (m w).1
      → Ends (λ u w'. With G w') (Knows J) (must m e w)
  unfolding Ends continue
  must-Ends-With G m e w y k = branch (m w) y k
    where
      branch :
          (r : Bool × World)
          → Yields G AnyDisk r
          → Knows J r.1
          → Ends {A = Unit}
              (λ u w'. With G w')
              (Knows J)
              (continue (λ good. require good e) (ok r.0, r.1))
      branch (true, w') y k = (y, k)
      branch (false, w') y k = k

  pub must_or_discard-Ends :
      (path : Text)
      → Ignores J Readable rest-Readable path
      → (G : Disk → Type 0) (m : Effect Bool) (e : Error) (w : World) → Yields G AnyDisk (m w)
      → Knows J (m w).1
      → Ends (λ u w'. With G w') (Knows J) (must_or_discard path m e w)
  unfolding Ends continue
  must_or_discard-Ends path ig G m e w y k = branch (m w) y k
    where
      branch :
          (r : Bool × World)
          → Yields G AnyDisk r
          → Knows J r.1
          → Ends {A = Unit}
              (λ u w'. With G w')
              (Knows J)
              (continue (λ good. if good then pure tt else discard path e) (ok r.0, r.1))
      branch (true, w') y k = (y, k)
      branch (false, w') y k =
          unfold discard in discard-Stable J Readable rest-Readable Unit path e ig w' k

  pub discard_if-Ends :
      (gone : Bool) (path : Text)
      → Ignores J Readable rest-Readable path
      → (G : Disk → Type 0) (w : World) → With G w
      → Ends {A = Unit}
          (λ u w'. With G w')
          (Knows J)
          ((if gone then discard path cancelled else pure tt) w)
  unfolding Ends discard
  discard_if-Ends true path ig G w (g, k) =
      discard-Stable J Readable rest-Readable Unit path cancelled ig w k
  discard_if-Ends false path ig G w (g, k) = (g, k)

  pub kept-Ends :
      {A : Type 0} (o : Option A) (path : Text) (e : Error)
      → Ignores J Readable rest-Readable path
      → (G : Disk → Type 0) (w : World) → With G w
      → Ends (λ a w'. (o ≡ some a) × With G w') (Knows J) (kept path o e w)
  unfolding Ends discard
  kept-Ends none path e ig G w (g, k) = discard-Stable J Readable rest-Readable Unit path e ig w k
  kept-Ends (some a) path e ig G w h = (refl, h)

  pub now-Ends :
      (G : Disk → Type 0) (w : World) → With G w → Ends (λ t w'. With G w') (Knows J) (lift now w)
  unfolding Ends now Holds
  now-Ends G w (g, k) = (g, k)

  pub cancelled-Ends :
      (G : Disk → Type 0) (w : World)
      → With G w
      → Ends (λ t w'. With G w') (Knows J) (lift is_cancelled w)
  unfolding Ends is_cancelled Holds
  cancelled-Ends G w (g, k) = (g, k)

  pub read_bundle-Ends :
      (path : Text) (raw signature : Bytes) (w : World)
      → With (HasFiles path (some (bundle_files raw signature))) w
      → Ends
          (λ o w'.
            (o ≡ some (raw, signature))
            × With (HasFiles path (some (bundle_files raw signature))) w')
          (Knows J)
          (lift (read_bundle path) w)
  unfolding Ends
  read_bundle-Ends path raw signature w (g, k) =
      let read_ok =
        read_bundle-HasFiles path (bundle_files raw signature) w (unfold Holds in k.1) g in
      (
        read_ok ∙ (unfold get text_eq in refl),
        (
          (unfold read_bundle read_file read in g),
          read_bundle-Stable J Readable rest-Readable path w k,
        ),
      )
