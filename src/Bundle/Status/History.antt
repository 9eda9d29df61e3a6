-- ===== src/Bundle/Status/History.antt =====
-- internal/bundle/lifecycle.go: a bundle root over any number of installations and rollbacks.
use ssc_init.Base.{◌≤◌, some, ◌≡◌, refl, ap, sym, Text, Dict, get, arith}
use ssc_init.Bundle.Library.{Library, Bytes}
use ssc_init.Bundle.Envelope.Loaded.{IsBounded}
use ssc_init.Bundle.Disk.{Disk, World}
use ssc_init.Bundle.Lifecycle.{
  Manager, ok, highest_file, current_file, previous_file, install, rollback,
}
use ssc_init.Bundle.Lifecycle.Stable.{Holds}
use ssc_init.Bundle.Lifecycle.Yields.{line}
use ssc_init.Bundle.Lifecycle.Ends.{Ends}
use ssc_init.Bundle.Lifecycle.Pointers.{Readable, Pointed}
use ssc_init.Bundle.Lifecycle.Admission.{mark_of}
use ssc_init.Bundle.Lifecycle.Returned.{Ends-ok, Ends-either, high_water, install-high_water}
use ssc_init.Bundle.Lifecycle.Rollback.{rollback-Ends, Exchanged, Refused}
use ssc_init.Bundle.Status.View.{Pointers, view, sequence_text_again}

-- What a rollback promises: the current and the previous sequence are exchanged.
unfoldable pub swap : Pointers → Pointers
swap s = record { highest = s.highest; current = s.previous; previous = s.current }

module _ (lib : Library) (m : Manager) (w : World) (readable : Readable w.read_faults) where
  abbrev Anything : Dict (Dict Bytes) → Type 0
  Anything d = Unit

  plain-Ends :
      Ends
        (λ u w'.
          Exchanged Anything
            (get highest_file w.disk.files)
            (get current_file w.disk.files)
            (get previous_file w.disk.files)
            w')
        (Refused Anything
          (get highest_file w.disk.files)
          (get current_file w.disk.files)
          (get previous_file w.disk.files))
        (rollback lib m w)
  plain-Ends =
      rollback-Ends Anything (get highest_file w.disk.files) (get current_file w.disk.files)
        (get previous_file w.disk.files) lib m w
        (unfold Holds in ((refl, refl, refl, tt), readable))

  -- Where the reads of the root do not fail, a rollback that returns no error does to the three
  -- pointers what `swap` says.
  pub rollback-swap :
      (rollback lib m w).0 ≡ ok tt → view (rollback lib m w).1.disk ≡ swap (view w.disk)
  unfolding view swap
  rollback-swap e = exchanged (rollback lib m w).1 (Ends-ok _ _ (rollback lib m w) tt plain-Ends e)
    where
      exchanged :
          (w' : World)
          → Exchanged Anything
              (get highest_file w.disk.files)
              (get current_file w.disk.files)
              (get previous_file w.disk.files)
              w'
          → view w'.disk ≡ swap (view w.disk)
      exchanged w' (x, y, ex, ey, k) =
          let q : Pointed Anything (get highest_file w.disk.files) (some (line y)) (some (line x))
                w'.disk.files w'.disk.directories
              × Readable w'.read_faults =
            unfold Holds in k in
          rw q.0.0 (
            rw q.0.1 (
              rw q.0.2 (
                rw (sequence_text_again (get current_file w.disk.files) x ex) (
                  rw (sequence_text_again (get previous_file w.disk.files) y ey)
                    (rw ex (rw ey refl))))))

  pub rollback-high_water : high_water w.disk ≡ high_water (rollback lib m w).1.disk
  unfolding high_water
  rollback-high_water =
      Ends-either _ _
        (λ w'. mark_of (get highest_file w.disk.files) ≡ mark_of (get highest_file w'.disk.files))
        (rollback lib m w) plain-Ends (λ u w' q. exchanged w' q) (λ w' q. ap mark_of (sym q.0))
    where
      exchanged :
          (w' : World)
          → Exchanged Anything
              (get highest_file w.disk.files)
              (get current_file w.disk.files)
              (get previous_file w.disk.files)
              w'
          → mark_of (get highest_file w.disk.files) ≡ mark_of (get highest_file w'.disk.files)
      exchanged w' (x, y, ex, ey, k) =
          let q : Pointed Anything (get highest_file w.disk.files) (some (line y)) (some (line x))
                w'.disk.files w'.disk.directories
              × Readable w'.read_faults =
            unfold Holds in k in
          ap mark_of (sym q.0.0)

-- A call of a method, whatever the operating system answers to its changes, its tests of the context
-- and its readings of the clock, and however it returns. Its reads do not fail.
pub data Step (lib : Library) (m : Manager) : Disk → Disk → Type 0 where
  installs :
      (bundle_path signature_path : Text) (w : World)
      → Readable w.read_faults
      → Step lib m w.disk (install lib m bundle_path signature_path w).1.disk
  rolls_back : (w : World) → Readable w.read_faults → Step lib m w.disk (rollback lib m w).1.disk

pub data Reach (lib : Library) (m : Manager) (d : Disk) : Disk → Type 0 where
  here : Reach lib m d d
  next : {d1 d2 : Disk} → Reach lib m d d1 → Step lib m d1 d2 → Reach lib m d d2

Step-high_water :
    (lib : Library) (m : Manager) {d d' : Disk}
    → IsBounded lib
    → Step lib m d d'
    → high_water d ≤ high_water d'
Step-high_water lib m bounded (installs bundle_path signature_path w r) =
    install-high_water lib m bundle_path signature_path w r bounded
Step-high_water lib m bounded (rolls_back w r) =
    let same = rollback-high_water lib m w r in omega arith

-- Where a sequence fits 64 bits, no history of installations and rollbacks, interrupted or not,
-- lowers the high-water mark, as long as the reads of the root do not fail.
pub Reach-high_water :
    (lib : Library) (m : Manager) {d d' : Disk}
    → IsBounded lib
    → Reach lib m d d'
    → high_water d ≤ high_water d'
Reach-high_water lib m bounded here = omega arith
Reach-high_water lib m bounded (next r s) =
    let before = Reach-high_water lib m bounded r in
    let after = Step-high_water lib m bounded s in omega arith
