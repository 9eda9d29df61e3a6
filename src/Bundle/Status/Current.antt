-- ===== src/Bundle/Status/Current.antt =====
-- internal/bundle/status.go: the current bundle after an installation.
use ssc_init.Base.{
  ℕ, false, Option, none, some, ◌≡◌, refl, ap, ◌∙◌, Text, text_eq, Dict, get, parse_uint, decimal,
  arith, parse_uint-decimal,
}
use ssc_init.Bundle.Library.{Library, Bytes}
use ssc_init.Bundle.Envelope.{Verified}
use ssc_init.Bundle.Envelope.Loaded.{
  IsBounded, verify-positive, verify-bounded, verify_stored-verify,
}
use ssc_init.Bundle.Disk.{Disk, World, read, read_pointer, sequence_text}
use ssc_init.Bundle.Lifecycle.{
  Manager, ok, err, Error, highest_file, current_file, previous_file, version_path, sequence_of,
  install,
}
use ssc_init.Bundle.Lifecycle.Stable.{Holds}
use ssc_init.Bundle.Lifecycle.Yields.{line}
use ssc_init.Bundle.Lifecycle.Ends.{sequence_text-line}
use ssc_init.Bundle.Lifecycle.Pointers.{
  Readable, rest-Readable, Pointed, previous_after, read_readable,
}
use ssc_init.Bundle.Lifecycle.Steps.{bundle_files}
use ssc_init.Bundle.Lifecycle.Staged.{files_in, read_bundle-files_in}
use ssc_init.Bundle.Lifecycle.Admission.{IsOffered}
use ssc_init.Bundle.Lifecycle.Install.{Installed, install-Ends}
use ssc_init.Bundle.Lifecycle.Returned.{Ends-ok, Ends-err, plain-Ends}
use ssc_init.Bundle.Status.{stored, of_sequence, follow, read_current}
use ssc_init.Bundle.Status.View.{view, publish, previous_view}

-- The bundle that a disk serves: the one that its current pointer leads to, verified.
module _ (lib : Library) (m : Manager) where
  unfoldable pub served_at : Option Text → Dict (Dict Bytes) → Option Verified
  served_at none d = none
  served_at (some x) d =
      of_sequence lib m (parse_uint x) (stored lib m (files_in (get (version_path x) d)))

  unfoldable pub served : Disk → Option Verified
  served d = served_at (sequence_text (get current_file d.files)) d.directories

  follow-served_at :
      (o : Option Text) (w : World)
      → Readable w.read_faults
      → (follow lib m o w).0 ≡ served_at o w.disk.directories
  unfolding follow served_at
  follow-served_at none w r = refl
  follow-served_at (some x) w r =
      ap (λ files. of_sequence lib m (parse_uint x) (stored lib m files))
        (read_bundle-files_in (version_path x) w r)

  -- Where no read fails, what is read is what the disk serves.
  pub read_current-served :
      (w : World) → Readable w.read_faults → (read_current lib m w).0 ≡ served w.disk
  unfolding read_current served read_pointer
  read_current-served w r =
      let pointer = read_readable (λ d. sequence_text (get current_file d.files)) w r in
      let w1 = (read (λ d. sequence_text (get current_file d.files)) w).1 in
      let r1 : Readable w1.read_faults = unfold read in rest-Readable w.read_faults r in
      let same : w1.disk ≡ w.disk = unfold read in refl in
      follow-served_at (read (λ d. sequence_text (get current_file d.files)) w).0 w1 r1
      ∙ rw pointer (rw same refl)

module _ (lib : Library) (m : Manager) (bundle_path signature_path : Text) (w : World)
    (readable : Readable w.read_faults) where
  -- Where the reads of the root do not fail and a sequence fits 64 bits, an installation that returns
  -- a bundle does to the three pointers what `publish` says, for the bundle's sequence.
  pub install-publish :
      (v : Verified)
      → IsBounded lib
      → (install lib m bundle_path signature_path w).0 ≡ ok v
      → view (install lib m bundle_path signature_path w).1.disk
        ≡ publish (decimal (sequence_of v)) (view w.disk)
  unfolding view publish
  install-publish v bounded e = published (install lib m bundle_path signature_path w).1 (
      Ends-ok _ _ (install lib m bundle_path signature_path w) v
        (plain-Ends lib m bundle_path signature_path w readable) e)
    where
      published :
          (w' : World)
          → Installed lib m bundle_path signature_path
              (λ d. Unit)
              (get highest_file w.disk.files)
              (get current_file w.disk.files)
              (get previous_file w.disk.files)
              v
              w'
          → view w'.disk ≡ publish (decimal (sequence_of v)) (view w.disk)
      published w' (raw, signature, t, o, le, k) =
          let q : Pointed
                (λ d.
                  Unit
                  × (get (version_path (decimal (sequence_of v))) d
                      ≡ some (bundle_files raw signature)))
                (some (line (decimal (sequence_of v)))) (some (line (decimal (sequence_of v))))
                (previous_after (decimal (sequence_of v))
                  (sequence_text (get current_file w.disk.files)) (get previous_file w.disk.files))
                w'.disk.files w'.disk.directories
              × Readable w'.read_faults =
            unfold Holds in k in
          let written =
            sequence_text-line (sequence_of v) (verify-positive lib m.keys raw signature t v o.2)
              (verify-bounded lib m.keys raw signature t v o.2 bounded) in
          rw q.0.0 (
            rw q.0.1 (
              rw q.0.2 (
                rw written (
                  rw
                    (previous_view (decimal (sequence_of v)) (get current_file w.disk.files)
                      (get previous_file w.disk.files))
                    refl))))

  -- Where the reads of the root do not fail and a sequence fits 64 bits, the bundle that an
  -- installation returns is the one that the root serves after it.
  pub install-served :
      (v : Verified)
      → IsBounded lib
      → (install lib m bundle_path signature_path w).0 ≡ ok v
      → served lib m (install lib m bundle_path signature_path w).1.disk ≡ some v
  unfolding served
  install-served v bounded e = serves (install lib m bundle_path signature_path w).1 (
      Ends-ok _ _ (install lib m bundle_path signature_path w) v
        (plain-Ends lib m bundle_path signature_path w readable) e)
    where
      serves :
          (w' : World)
          → Installed lib m bundle_path signature_path
              (λ d. Unit)
              (get highest_file w.disk.files)
              (get current_file w.disk.files)
              (get previous_file w.disk.files)
              v
              w'
          → served_at lib m (sequence_text (get current_file w'.disk.files)) w'.disk.directories
            ≡ some v
      serves w' (raw, signature, t, o, le, k) =
          let q : Pointed
                (λ d.
                  Unit
                  × (get (version_path (decimal (sequence_of v))) d
                      ≡ some (bundle_files raw signature)))
                (some (line (decimal (sequence_of v)))) (some (line (decimal (sequence_of v))))
                (previous_after (decimal (sequence_of v))
                  (sequence_text (get current_file w.disk.files)) (get previous_file w.disk.files))
                w'.disk.files w'.disk.directories
              × Readable w'.read_faults =
            unfold Holds in k in
          let small = verify-bounded lib m.keys raw signature t v o.2 bounded in
          let written =
            sequence_text-line (sequence_of v) (verify-positive lib m.keys raw signature t v o.2)
              small in
          let verified = verify_stored-verify lib m.keys raw signature t v o.2 in
          let files : files_in (some (bundle_files raw signature)) ≡ some (raw, signature) =
            unfold get text_eq in refl in
          rw q.0.1 (
            rw written (
              unfold served_at in
              rw q.0.3.1 (
                rw (parse_uint-decimal (sequence_of v) small)
                  (unfold stored of_sequence in rw files (rw verified (rw o.3 (ground arith)))))))

  -- Where the reads of the root do not fail, an installation that returns an error leaves the bundle
  -- that the root serves, if the bundle at the given path has another sequence than the current one.
  pub install_error-served :
      (x : Text) (e : Error)
      → sequence_text (get current_file w.disk.files) ≡ some x
      → ((raw signature : Bytes) (t : ℕ) (v : Verified)
          → IsOffered lib m bundle_path signature_path raw signature t v
          → text_eq (decimal (sequence_of v)) x ≡ false)
      → (install lib m bundle_path signature_path w).0 ≡ err e
      → served lib m (install lib m bundle_path signature_path w).1.disk ≡ served lib m w.disk
  unfolding served text_eq
  install_error-served x e current other failed =
      let D : Dict (Dict Bytes) → Type 0 =
        λ d. get (version_path x) d ≡ get (version_path x) w.disk.directories in
      let kept =
        Ends-err _ _ (install lib m bundle_path signature_path w) e
          (install-Ends lib m bundle_path signature_path D (get highest_file w.disk.files)
            (get current_file w.disk.files) (get previous_file w.disk.files)
            (λ raw signature t v o. (
              (λ f d d' same j. (j.0, j.1, j.2, same (version_path x) refl ∙ j.3)),
              (λ f d d' same j.
                  (j.0, j.1, j.2, same (version_path x) (other raw signature t v o) ∙ j.3)),
            ))
            w (unfold Holds in ((refl, refl, refl, refl), readable)))
          failed in
      rw kept.0 (rw current (unfold served_at in rw kept.1 refl))
