-- ===== src/Bundle/Lifecycle/Returned.antt =====
-- internal/bundle/lifecycle.go and status.go: what `Install` promises the readers of a bundle root.
use ssc_init.Base.{ℕ, ◌≤◌, Option, some, ◌≡◌, refl, inl, inr, Text, Dict, get, decimal, arith}
use ssc_init.Bundle.Library.{Library, Bytes}
use ssc_init.Bundle.Envelope.{Verified}
use ssc_init.Bundle.Envelope.Loaded.{IsBounded, verify-positive, verify-bounded}
use ssc_init.Bundle.Disk.{Disk, World}
use ssc_init.Bundle.Lifecycle.{
  Manager, Result, ok, err, Error, highest_file, current_file, previous_file, sequence_of, install,
}
use ssc_init.Bundle.Lifecycle.Stable.{Holds}
use ssc_init.Bundle.Lifecycle.Yields.{line}
use ssc_init.Bundle.Lifecycle.Ends.{Ends}
use ssc_init.Bundle.Lifecycle.Pointers.{Readable}
use ssc_init.Bundle.Lifecycle.Admission.{mark_of, mark_of-line, IsOffered}
use ssc_init.Bundle.Lifecycle.Install.{Installed, Failed, install-Ends}

-- The high-water mark: the sequence that no installation may fall below.
unfoldable pub high_water : Disk → ℕ
high_water d = mark_of (get highest_file d.files)

pub Ends-ok :
    {A : Type 0} (Q : A → World → Type 0) (E : World → Type 0) (r : Result A × World) (a : A)
    → Ends Q E r
    → r.0 ≡ ok a
    → Q a r.1
unfolding Ends
Ends-ok Q E (ok b, w) a h e = let same : b ≡ a = ground arith in rw (← same) h
Ends-ok Q E (err x, w) a h e = cc

pub Ends-err :
    {A : Type 0} (Q : A → World → Type 0) (E : World → Type 0) (r : Result A × World) (x : Error)
    → Ends Q E r
    → r.0 ≡ err x
    → E r.1
unfolding Ends
Ends-err Q E (ok b, w) x h e = cc
Ends-err Q E (err y, w) x h e = h

pub Ends-either :
    {A : Type 0} (Q : A → World → Type 0) (E P : World → Type 0) (r : Result A × World)
    → Ends Q E r
    → ((a : A) (w : World) → Q a w → P w)
    → ((w : World) → E w → P w)
    → P r.1
unfolding Ends
Ends-either Q E P (ok b, w) h q e = q b w h
Ends-either Q E P (err y, w) h q e = e w h

module _ (lib : Library) (m : Manager) (bundle_path signature_path : Text) (w : World)
    (readable : Readable w.read_faults) where
  abbrev pub highest_before : Option Text
  highest_before = get highest_file w.disk.files

  abbrev pub current_before : Option Text
  current_before = get current_file w.disk.files

  abbrev pub previous_before : Option Text
  previous_before = get previous_file w.disk.files

  abbrev pub Anything : Dict (Dict Bytes) → Type 0
  Anything d = Unit

  pub plain-Ends :
      Ends
        (Installed lib m bundle_path signature_path Anything highest_before current_before
          previous_before)
        (Failed lib m bundle_path signature_path Anything highest_before current_before
          previous_before)
        (install lib m bundle_path signature_path w)
  plain-Ends =
      install-Ends lib m bundle_path signature_path Anything highest_before current_before
        previous_before (λ raw signature t v o. (λ f d d' same j. j, λ f d d' same j. j)) w
        (unfold Holds in ((refl, refl, refl, tt), readable))

  offered-mark :
      (raw signature : Bytes) (t : ℕ) (v : Verified)
      → IsBounded lib
      → IsOffered lib m bundle_path signature_path raw signature t v
      → mark_of (some (line (decimal (sequence_of v)))) ≡ sequence_of v
  offered-mark raw signature t v bounded o =
      mark_of-line (sequence_of v) (verify-positive lib m.keys raw signature t v o.2)
        (verify-bounded lib m.keys raw signature t v o.2 bounded)

  -- Where the reads of the root do not fail and `encoding/json` keeps a sequence within 64 bits, an
  -- installation never lowers the high-water mark, whatever changes of the disk fail or are cut off,
  -- and whatever it returns.
  pub install-high_water :
      IsBounded lib
      → high_water w.disk ≤ high_water (install lib m bundle_path signature_path w).1.disk
  unfolding high_water
  install-high_water bounded =
      Ends-either _ _ (λ w'. mark_of highest_before ≤ mark_of (get highest_file w'.disk.files))
        (install lib m bundle_path signature_path w) plain-Ends installed failed
    where
      installed :
          (v : Verified) (w' : World)
          → Installed lib m bundle_path signature_path Anything highest_before current_before
              previous_before v w'
          → mark_of highest_before ≤ mark_of (get highest_file w'.disk.files)
      installed v w' (raw, signature, t, o, le, k) =
          unfold Holds in rw k.0.0 (rw (offered-mark raw signature t v bounded o) le)

      failed :
          (w' : World)
          → Failed lib m bundle_path signature_path Anything highest_before current_before
              previous_before w'
          → mark_of highest_before ≤ mark_of (get highest_file w'.disk.files)
      failed w' (c, u, inl same) = rw same (omega arith)
      failed w' (c, u, inr (v, raw, signature, t, o, le, new)) =
          rw new (rw (offered-mark raw signature t v bounded o) le)
