-- ===== src/Bundle/Lifecycle/Placed.antt =====
-- internal/bundle/lifecycle.go: the steps of `Install` that stage a bundle and move it to its place.
use ssc_init.Base.{
  ℕ, Option, none, some, [], ◌≡◌, refl, ap, sym, ◌∙◌, inl, inr, Text, text_eq, Dict, put,
  get-remove, Option-cases, arith,
}
use ssc_init.Bundle.Library.{Library, Bytes}
use ssc_init.Bundle.Envelope.{Verified, verify}
use ssc_init.Bundle.Envelope.Loaded.{verify_stored-verify}
use ssc_init.Bundle.Disk.{
  Disk, World, without_directory, in_directory, without_first, remove_all, make_directory,
  write_file, rename_directory, ◌>>?◌,
}
use ssc_init.Bundle.Lifecycle.Monad.{pure, must, install_failed}
use ssc_init.Bundle.Lifecycle.{
  Manager, staging_path, version_path, bundle_file, signature_file, must_or_discard, with_digest,
  verify_pair, stage,
}
use ssc_init.Bundle.Lifecycle.Stable.{
  Ignores, then-Stable, remove_all-Stable, make_directory-Stable, write_file-Stable,
  rename_directory-Stable,
}
use ssc_init.Bundle.Lifecycle.Yields.{Yields, then-Yields, change-Yields}
use ssc_init.Bundle.Lifecycle.Ends.{Ends, next-Ends}
use ssc_init.Bundle.Lifecycle.Pointers.{Knows, Readable, rest-Readable}
use ssc_init.Bundle.Lifecycle.Staged.{
  HasFiles, AnyDisk, remove_all-Yields, make_directory-Yields, write_file-Yields,
  rename_directory-Yields,
}
use ssc_init.Bundle.Lifecycle.Steps.{
  bundle_files, With, must-Ends-With, must_or_discard-Ends, discard_if-Ends, kept-Ends, now-Ends,
  cancelled-Ends, read_bundle-Ends,
}

module _ (lib : Library) (m : Manager) where
  -- What is verified again is what was verified, at whatever instants.
  with_digest_same :
      (raw signature : Bytes) (t t' : ℕ) (v staged : Verified)
      → verify lib m.keys raw signature t ≡ some v
      → with_digest v.digest (verify_pair lib m (some (raw, signature)) t') ≡ some staged
      → staged ≡ v
  unfolding with_digest
  with_digest_same raw signature t t' v staged h e =
      elim (Option-cases (verify lib m.keys raw signature t')) [
        | inl n ↦ ground arith
        | inr (v', e') ↦
            let first = verify_stored-verify lib m.keys raw signature t v h in
            let second = verify_stored-verify lib m.keys raw signature t' v' e' in ground arith
      ]

  module _ (J : Dict Text → Dict (Dict Bytes) → Type 0) (sequence : Text) (raw signature : Bytes)
      (t : ℕ) (v : Verified) (ig_staging : Ignores J Readable rest-Readable (staging_path sequence))
      (ig_installed : Ignores J Readable rest-Readable (version_path sequence))
      (verified : verify lib m.keys raw signature t ≡ some v) where
    -- What the staging directory holds on the way.
    abbrev Stage : Dict Bytes → Disk → Type 0
    Stage files = HasFiles (staging_path sequence) (some files)

    prepared-Ends :
        (w : World)
        → Knows J w
        → Ends
            (λ u w'. With J (Stage []) w')
            (Knows J)
            (must
              (remove_all (staging_path sequence) >>? make_directory (staging_path sequence))
              install_failed
              w)
    prepared-Ends w k =
        let s = staging_path sequence in
        must-Ends-With J (Stage []) (remove_all s >>? make_directory s) install_failed w
          (then-Yields (Stage []) AnyDisk (HasFiles s none) (remove_all s) (make_directory s) w
            (remove_all-Yields s w) (make_directory-Yields s))
          (then-Stable J Readable rest-Readable (remove_all s) (make_directory s)
            (remove_all-Stable J Readable rest-Readable s ig_staging)
            (make_directory-Stable J Readable rest-Readable s ig_staging) w k)

    written-Ends :
        (name : Text) (contents : Bytes) (files : Dict Bytes) (w : World)
        → With J (Stage files) w
        → Ends
            (λ u w'. With J (Stage (put name contents files)) w')
            (Knows J)
            (must_or_discard
              (staging_path sequence)
              (write_file (staging_path sequence) name contents)
              install_failed
              w)
    written-Ends name contents files w (g, k) =
        let s = staging_path sequence in
        must_or_discard-Ends J s ig_staging (Stage (put name contents files))
          (write_file s name contents) install_failed w
          (write_file-Yields s name contents files w g)
          (write_file-Stable J Readable rest-Readable s ig_staging name contents w k)

    moved-Ends :
        (files : Dict Bytes) (w : World)
        → With J (Stage files) w
        → Ends
            (λ u w'. With J (HasFiles (version_path sequence) (some files)) w')
            (Knows J)
            (must_or_discard
              (staging_path sequence)
              (remove_all (version_path sequence)
                >>? rename_directory (staging_path sequence) (version_path sequence))
              install_failed
              w)
    moved-Ends files w (g, k) =
        let s = staging_path sequence in
        let i = version_path sequence in
        must_or_discard-Ends J s ig_staging (HasFiles i (some files))
          (remove_all i >>? rename_directory s i) install_failed w
          (then-Yields (HasFiles i (some files)) AnyDisk (Stage files) (remove_all i)
            (rename_directory s i) w (kept_staging w g) (rename_directory-Yields s i files))
          (then-Stable J Readable rest-Readable (remove_all i) (rename_directory s i)
            (remove_all-Stable J Readable rest-Readable i ig_installed)
            (rename_directory-Stable J Readable rest-Readable s i ig_staging ig_installed) w k)
      where
        kept_staging :
            (w1 : World)
            → Stage files w1.disk
            → Yields (Stage files) AnyDisk (remove_all (version_path sequence) w1)
        kept_staging w1 g1 =
            unfold remove_all in
            change-Yields (Stage files) AnyDisk (without_directory (version_path sequence))
              (λ n. in_directory (version_path sequence) (without_first n)) w1
              (unfold without_directory in
                get-remove (version_path sequence) (staging_path sequence) w1.disk.directories
                  (unfold text_eq in refl)
                ∙ g1)
              (λ n. tt)

    -- The bundle that is staged is the one that was verified, and its files are in their place.
    pub stage-Ends :
        (w : World)
        → Knows J w
        → Ends
            (λ staged w'.
              (staged ≡ v)
              × With J (HasFiles (version_path sequence) (some (bundle_files raw signature))) w')
            (Knows J)
            (stage lib m sequence raw signature v w)
    unfolding stage
    stage-Ends w k =
        let Files = Stage (bundle_files raw signature) in
        next-Ends _ _ _ _ _ _ (prepared-Ends w k) (λ w' i. i)
          (λ _ w1 h1.
            next-Ends _ _ _ _ _ _ (written-Ends bundle_file raw [] w1 h1) (λ w' i. i)
              (λ _ w2 h2.
                next-Ends _ _ _ _ _ _
                  (written-Ends signature_file signature (put bundle_file raw []) w2 h2) (λ w' i. i)
                  (λ _ w3 h3.
                    next-Ends _ _ _ _ _ _
                      (read_bundle-Ends J (staging_path sequence) raw signature w3
                        (both_files w3 h3))
                      (λ w' i. i)
                      (λ files w4 h4.
                        next-Ends _ _ _ _ _ _ (now-Ends J Files w4 h4.1) (λ w' i. i)
                          (λ t' w5 h5.
                            next-Ends _ _ _ _ _ _
                              (kept-Ends J _ (staging_path sequence) install_failed ig_staging Files
                                w5 h5)
                              (λ w' i. i)
                              (λ staged w6 h6.
                                next-Ends _ _ _ _ _ _ (cancelled-Ends J Files w6 h6.1) (λ w' i. i)
                                  (λ gone w7 h7.
                                    next-Ends _ _ _ _ _ _
                                      (discard_if-Ends J gone (staging_path sequence) ig_staging
                                        Files w7 h7)
                                      (λ w' i. i)
                                      (λ _ w8 h8.
                                        next-Ends _ _ _ _ _ _
                                          (moved-Ends (bundle_files raw signature) w8 h8)
                                          (λ w' i. i)
                                          (λ _ w9 h9.
                                            placed files t' staged w9 h4.0 h6.0 h9)))))))))
      where
        both_files :
            (w3 : World)
            → With J (Stage (put signature_file signature (put bundle_file raw []))) w3
            → With J (Stage (bundle_files raw signature)) w3
        both_files w3 h3 = unfold put text_eq in h3

        placed :
            (files : Option (Bytes × Bytes)) (t' : ℕ) (staged : Verified) (w9 : World)
            → files ≡ some (raw, signature)
            → with_digest v.digest (verify_pair lib m files t') ≡ some staged
            → With J (HasFiles (version_path sequence) (some (bundle_files raw signature))) w9
            → Ends
                (λ staged w'.
                  (staged ≡ v)
                  × With J
                      (HasFiles (version_path sequence) (some (bundle_files raw signature)))
                      w')
                (Knows J)
                (pure staged w9)
        placed files t' staged w9 e d h9 =
            unfold Ends in
            (
              with_digest_same raw signature t t' v staged verified
                  (ap (λ o. with_digest v.digest (verify_pair lib m o t')) (sym e) ∙ d),
              h9,
            )
