-- ===== src/Bundle/Status/Served.antt =====
-- internal/bundle/active.go: the active bundle of a root that serves one.
use ssc_init.Base.{
  ℕ, ◌<◌, true, ◌&&◌, Option, none, some, List, [], ◌≡◌, refl, ap, sym, ◌∙◌, inl, inr, Text,
  text_eq→eq, Dict, get, parse_uint, decimal, Bool-cases, arith, ◌==◌, trim_space,
}
use ssc_init.Bundle.Library.{Library, Bytes}
use ssc_init.Bundle.Envelope.{Verified, same_family, valid_family}
use ssc_init.Bundle.Disk.{
  Disk, World, read, read_pointer, sequence_text, accept_sequence, now, is_cancelled, head_or,
  rest_of, read_file,
}
use ssc_init.Bundle.Lifecycle.{
  Manager, ok, continue, current_file, version_path, sequence_of, family_of, read_bundle,
}
use ssc_init.Bundle.Lifecycle.Staged.{files_in}
use ssc_init.Bundle.Status.{
  freshness_at, bundle_status, stored, of_sequence, follow, read_current, open_root, status,
  has_bundle, active,
}
use ssc_init.Bundle.Status.Current.{served, served_at}

module _ (lib : Library) (m : Manager) where
  of_sequence-some :
      (o : Option ℕ) (b : Option Verified) (v : Verified)
      → of_sequence lib m o b ≡ some v
      → (o ≡ some (sequence_of v)) × (b ≡ some v) × (same_family (family_of v) m.family ≡ true)
  unfolding of_sequence
  of_sequence-some none b v h = cc
  of_sequence-some (some n) none v h = cc
  of_sequence-some (some n) (some b) v h =
      elim (Bool-cases (sequence_of b == n && same_family (family_of b) m.family)) [
        | inl t ↦ let same : b ≡ v = ground arith in rw (← same) (ground arith)
        | inr f ↦ ground arith
      ]

  accepted-value :
      (contents value x : Text) (o : Option ℕ)
      → accept_sequence contents value o ≡ some x
      → x ≡ value
  accepted-value contents value x none h = cc
  accepted-value contents value x (some k) h = ground arith

  -- The pointer of a root that serves a bundle is the decimal of its sequence, which is not 0.
  pointer_lem :
      (contents value x : Text) (o : Option ℕ) (n : ℕ)
      → o ≡ some n
      → accept_sequence contents value o ≡ some x
      → (x ≡ decimal n) × (0 < n) × (x ≡ value)
  pointer_lem contents value x none n e h = cc
  pointer_lem contents value x (some k) n e h =
      let same : k ≡ n = ground arith in
      rw (← same) (ground (arith, text_eq→eq value (decimal k)), ground arith, ground arith)

  -- The pointer is the decimal of the bundle's sequence, and the directory of that name has the bundle.
  abbrev Leads : Option Text → Dict (Dict Bytes) → Verified → Type 0
  Leads pointer directories v =
      (pointer ≡ some (decimal (sequence_of v)))
      × (0 < sequence_of v)
      × (of_sequence lib m (some (sequence_of v))
            (stored lib m (files_in (get (version_path (decimal (sequence_of v))) directories)))
          ≡ some v)
      × (parse_uint (decimal (sequence_of v)) ≡ some (sequence_of v))

  contents-Leads :
      (contents : Text) (directories : Dict (Dict Bytes)) (v : Verified) (a : Option Text)
      → accept_sequence contents (trim_space contents) (parse_uint (trim_space contents)) ≡ a
      → served_at lib m a directories ≡ some v
      → Leads
          (accept_sequence contents (trim_space contents) (parse_uint (trim_space contents)))
          directories
          v
  unfolding served_at
  contents-Leads contents directories v none e h = cc
  contents-Leads contents directories v (some x) e h =
      let parts =
        of_sequence-some (parse_uint x) (stored lib m (files_in (get (version_path x) directories)))
          v h in
      let value =
        accepted-value contents (trim_space contents) x (parse_uint (trim_space contents)) e in
      let number : parse_uint (trim_space contents) ≡ some (sequence_of v) =
        ap parse_uint (sym value) ∙ parts.0 in
      let found =
        pointer_lem contents (trim_space contents) x (parse_uint (trim_space contents))
          (sequence_of v) number e in
      (
        e ∙ ap some found.0,
        found.1,
        ap
              (λ y.
                of_sequence lib m (some (sequence_of v))
                  (stored lib m (files_in (get (version_path y) directories))))
              (sym found.0)
            ∙ ap
                (λ o.
                  of_sequence lib m o (stored lib m (files_in (get (version_path x) directories))))
                (sym parts.0)
            ∙ h,
        ap parse_uint (sym found.0) ∙ parts.0,
      )

  file-Leads :
      (o : Option Text) (directories : Dict (Dict Bytes)) (v : Verified)
      → served_at lib m (sequence_text o) directories ≡ some v
      → Leads (sequence_text o) directories v
  unfolding sequence_text
  file-Leads none directories v h = absurd_none (unfold served_at in h)
    where
      absurd_none : none ≡ some v → Leads none directories v
      absurd_none e = cc
  file-Leads (some contents) directories v h =
      contents-Leads contents directories v
        (accept_sequence contents (trim_space contents) (parse_uint (trim_space contents))) refl h

  served-pointer :
      (d : Disk) (v : Verified)
      → served lib m d ≡ some v
      → Leads (sequence_text (get current_file d.files)) d.directories v
  unfolding served
  served-pointer d v h = file-Leads (get current_file d.files) d.directories v h

  -- A world in which nothing fails and nothing is cancelled.
  abbrev pub quiet : Disk → List ℕ → ℕ → World
  quiet d readings time = record {
    disk = d;
    outcomes = [];
    read_faults = [];
    cancellations = [];
    readings = readings;
    time = time;
  }

  has_bundle-bundle_status :
      (v : Verified) (t : ℕ) → 0 < sequence_of v → has_bundle (bundle_status lib m v t) ≡ true
  unfolding has_bundle bundle_status freshness_at
  has_bundle-bundle_status v t h = ground arith

  -- A root that has been made.
  abbrev pub root_of : Dict Text → Dict (Dict Bytes) → Disk
  root_of files directories = record { exists = true; files = files; directories = directories }

  -- A bundle that a root serves is the active one, with the status at the instant of the clock, if
  -- the family is known, there is a clock, no read fails and the context is not cancelled.
  pub active-served :
      (files : Dict Text) (directories : Dict (Dict Bytes)) (readings : List ℕ) (time : ℕ)
      (v : Verified)
      → served lib m (root_of files directories) ≡ some v
      → m.has_clock ≡ true
      → valid_family m.family ≡ true
      → (active lib m (quiet (root_of files directories) readings time)).0
        ≡ ok (v, bundle_status lib m v (head_or time readings))
  unfolding active status continue is_cancelled read open_root read_current follow read_pointer
      read_bundle read_file now head_or rest_of
  active-served files directories readings time v h clock family =
      let p = served-pointer (root_of files directories) v h in
      let ready : (m.has_clock && valid_family m.family) ≡ true = ground arith in
      rw ready (
        rw p.0 (
          rw p.3 (
            rw p.2 (
              rw (has_bundle-bundle_status v (head_or time readings) p.1)
                (unfold bundle_status in rw p.2 refl)))))
