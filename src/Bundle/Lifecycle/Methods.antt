-- ===== src/Bundle/Lifecycle/Methods.antt =====
-- internal/bundle/lifecycle.go: the steps of `Install` and `Rollback` that leave the pointers alone.
use ssc_init.Base.{
  Bool, true, false, Option, none, some, List, inl, inr, if◌then◌else◌, Text, Dict, get, Bool-cases,
  ltb, ◌==◌, parse_uint, decimal,
}
use ssc_init.Bundle.Library.{Library, Bytes}
use ssc_init.Bundle.Envelope.{Verified}
use ssc_init.Bundle.Disk.{
  World, Effect, rest_of, remove_all, make_directory, write_file, rename_directory, read_file,
  read_pointer, ◌>>?◌, read_in, sequence_text, sequence_text,
}
use ssc_init.Bundle.Lifecycle.Monad.{
  Io, Result, ok, err, Error, pure, raise, lift, some_or, require, must, check_context, continue,
  cancelled, install_failed,
}
use ssc_init.Bundle.Lifecycle.{
  Manager, must_or_discard, kept, discard, read_bundle, admit, check_same, compare_high_water,
  check_high_water, stage, version_path, staging_path, sequence_of, bundle_file, signature_file,
  highest_file, or_zero,
}
use ssc_init.Bundle.Lifecycle.Stable.{
  Stable, Ignores, Holds, read-Stable, now-Stable, cancelled-Stable, then-Stable, remove_all-Stable,
  make_directory-Stable, write_file-Stable, rename_directory-Stable,
}

module _ (J : Dict Text → Dict (Dict Bytes) → Type 0) (C : List Bool → Type 0)
    (rest : (l : List Bool) → C l → C (rest_of l)) where
  abbrev Steady : {A : Type 0} → (World → A × World) → Type 0
  Steady m = Stable J C rest m

  module _ {A : Type 0} where
    pub pure-Stable : (a : A) → Steady (pure a)
    pure-Stable a w h = h

    pub lift-Stable : (m : Effect A) → Steady m → Steady (lift m)
    lift-Stable m h = h

    pub some_or-Stable : (o : Option A) (e : Error) → Steady (some_or o e)
    some_or-Stable none e w h = h
    some_or-Stable (some a) e w h = h

  pub discard-Stable :
      (A : Type 0) (path : Text) (e : Error)
      → Ignores J C rest path
      → Steady {A = Result A} (discard path e)
  unfolding discard
  discard-Stable A path e ig w h = remove_all-Stable J C rest path ig w h

  pub kept-Stable :
      {A : Type 0} (path : Text) (o : Option A) (e : Error)
      → Ignores J C rest path
      → Steady (kept path o e)
  kept-Stable path none e ig w h = discard-Stable _ path e ig w h
  kept-Stable path (some a) e ig w h = h

  pub require-Stable : (b : Bool) (e : Error) → Steady (require b e)
  require-Stable true e w h = h
  require-Stable false e w h = h

  -- What follows a step keeps what the step kept.
  pub next-Stable :
      {A B : Type 0} (f : A → Io B) (r : Result A × World)
      → Holds J C rest r.1
      → ((a : A) (w : World) → Holds J C rest w → Holds J C rest (f a w).1)
      → Holds J C rest (continue f r).1
  unfolding continue
  next-Stable f (ok a, w) h k = k a w h
  next-Stable f (err e, w) h k = h

  pub must-Stable : (m : Effect Bool) (e : Error) → Steady m → Steady (must m e)
  must-Stable m e hm w h = next-Stable _ _ (hm w h) (λ good. require-Stable good e)

  test-Stable : (gone : Bool) → Steady {A = Result Unit} (if gone then raise cancelled else pure tt)
  test-Stable true w h = h
  test-Stable false w h = h

  pub check_context-Stable : Steady check_context
  check_context-Stable w h = next-Stable _ _ (cancelled-Stable J C rest w h) test-Stable

  else_discard-Stable :
      (good : Bool) (path : Text) (e : Error)
      → Ignores J C rest path
      → Steady {A = Result Unit} (if good then pure tt else discard path e)
  else_discard-Stable true path e ig w h = h
  else_discard-Stable false path e ig w h = discard-Stable Unit path e ig w h

  pub must_or_discard-Stable :
      (path : Text) (m : Effect Bool) (e : Error)
      → Ignores J C rest path
      → Steady m
      → Steady (must_or_discard path m e)
  must_or_discard-Stable path m e ig hm w h =
      next-Stable _ _ (hm w h) (λ good. else_discard-Stable good path e ig)

  discard_if-Stable :
      (gone : Bool) (path : Text)
      → Ignores J C rest path
      → Steady {A = Result Unit} (if gone then discard path cancelled else pure tt)
  discard_if-Stable true path ig w h = discard-Stable Unit path cancelled ig w h
  discard_if-Stable false path ig w h = h

  read_file-Stable : (path name : Text) → Steady (read_file path name)
  unfolding read_file
  read_file-Stable path name = read-Stable J C rest (λ d. read_in name (get path d.directories))

  pub read_pointer-Stable : (name : Text) → Steady (read_pointer name)
  unfolding read_pointer
  read_pointer-Stable name = read-Stable J C rest (λ d. sequence_text (get name d.files))

  pub read_bundle-Stable : (path : Text) → Steady (read_bundle path)
  unfolding read_bundle
  read_bundle-Stable path w h =
      read_file-Stable path signature_file (read_file path bundle_file w).1
        (read_file-Stable path bundle_file w h)

  module _ (lib : Library) (m : Manager) where
    pub admit-Stable :
        (bundle_path signature_path : Text) → Steady (admit lib m bundle_path signature_path)
    unfolding admit
    admit-Stable bundle_path signature_path w h =
        next-Stable _ _ (check_context-Stable w h) (λ _ w1 h1.
          next-Stable _ _ (require-Stable _ _ w1 h1) (λ _ w2 h2.
            next-Stable _ _ (some_or-Stable _ _ w2 h2) (λ raw w3 h3.
              next-Stable _ _ (some_or-Stable _ _ w3 h3) (λ signature w4 h4.
                next-Stable _ _ (now-Stable J C rest w4 h4) (λ t w5 h5.
                  next-Stable _ _ (some_or-Stable _ _ w5 h5) (λ verified w6 h6.
                    next-Stable _ _ (require-Stable _ _ w6 h6) (λ _ w7 h7.
                      next-Stable _ _ (check_context-Stable w7 h7) (λ _ w8 h8. h8))))))))

    pub check_same-Stable : (v : Verified) → Steady (check_same lib m v)
    unfolding check_same
    check_same-Stable v w h =
        let path = version_path (decimal (sequence_of v)) in
        next-Stable _ _ (read_bundle-Stable path w h) (λ files w1 h1.
          next-Stable _ _ (now-Stable J C rest w1 h1)
            (λ t w2 h2. next-Stable _ _ (some_or-Stable _ _ w2 h2) (λ _ w3 h3. h3)))

    compare_high_water-Stable :
        (v : Verified) (o : Option Text) → Steady (compare_high_water lib m v o)
    unfolding compare_high_water
    compare_high_water-Stable v none w h = h
    compare_high_water-Stable v (some mark) w h =
        elim (Bool-cases (ltb (sequence_of v) (or_zero (parse_uint mark)))) [
          | inl t ↦ rw t h
          | inr f ↦ elim (Bool-cases (sequence_of v == or_zero (parse_uint mark))) [
            | inl e ↦ rw f (rw e (check_same-Stable v w h))
            | inr ne ↦ rw f (rw ne h)
          ]
        ]

    pub check_high_water-Stable : (v : Verified) → Steady (check_high_water lib m v)
    unfolding check_high_water
    check_high_water-Stable v w h =
        next-Stable _ _ (read_pointer-Stable highest_file w h) (compare_high_water-Stable v)

    pub stage-Stable :
        (sequence : Text) (raw signature : Bytes) (v : Verified)
        → Ignores J C rest (staging_path sequence)
        → Ignores J C rest (version_path sequence)
        → Steady (stage lib m sequence raw signature v)
    unfolding stage
    stage-Stable sequence raw signature v ig_staging ig_installed w h =
        let staging = staging_path sequence in
        let installed = version_path sequence in
        let prepared =
          then-Stable J C rest (remove_all staging) (make_directory staging)
            (remove_all-Stable J C rest staging ig_staging)
            (make_directory-Stable J C rest staging ig_staging) in
        let moved =
          then-Stable J C rest (remove_all installed) (rename_directory staging installed)
            (remove_all-Stable J C rest installed ig_installed)
            (rename_directory-Stable J C rest staging installed ig_staging ig_installed) in
        next-Stable _ _
          (must-Stable (remove_all staging >>? make_directory staging) install_failed prepared w h)
          (λ _ w1 h1.
            next-Stable _ _
              (must_or_discard-Stable staging (write_file staging bundle_file raw) install_failed
                ig_staging (write_file-Stable J C rest staging ig_staging bundle_file raw) w1 h1)
              (λ _ w2 h2.
                next-Stable _ _
                  (must_or_discard-Stable staging (write_file staging signature_file signature)
                    install_failed ig_staging
                    (write_file-Stable J C rest staging ig_staging signature_file signature) w2 h2)
                  (λ _ w3 h3. next-Stable _ _ (read_bundle-Stable staging w3 h3) (λ files w4 h4.
                    next-Stable _ _ (now-Stable J C rest w4 h4) (λ t w5 h5.
                      next-Stable _ _ (kept-Stable staging _ install_failed ig_staging w5 h5)
                        (λ staged w6 h6.
                          next-Stable _ _ (cancelled-Stable J C rest w6 h6) (λ gone w7 h7.
                            next-Stable _ _ (discard_if-Stable gone staging ig_staging w7 h7)
                              (λ _ w8 h8.
                                next-Stable _ _
                                  (must_or_discard-Stable staging
                                    (remove_all installed >>? rename_directory staging installed)
                                    install_failed ig_staging moved w8 h8)
                                  (λ _ w9 h9. h9)))))))))
