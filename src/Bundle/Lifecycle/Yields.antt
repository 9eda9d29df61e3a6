-- ===== src/Bundle/Lifecycle/Yields.antt =====
-- internal/bundle/lifecycle.go: `writeSequencePointer`, by how it ends.
use ssc_init.Base.{
  ℕ, zero, suc, Bool, true, false, not, Option, some, [], ◌∷◌, ◌++◌, ◌≡◌, refl, ◌∙◌, inl, inr,
  if◌then◌else◌, Text, text_eq, text_eq_refl, Dict, get, get-put, Bool-cases,
}
use ssc_init.Bundle.Library.{Bytes}
use ssc_init.Bundle.Disk.{
  Disk, World, Effect, Outcome, done, failed, change, changed, succeeded, rest_of, head_or,
  untouched, guarded, ◌>>?◌, cleanup, with_file, without_file, moved_file, or_empty_file,
  remove_file, write_root_file, rename_file, write_pointer, temporary_name, is_absent, begun,
  first_bytes,
}
use ssc_init.Bundle.Lifecycle.Stable.{IgnoresFile, with_file-Keeps, without_file-Keeps}

-- One predicate on the disk for a success, another for a failure.
abbrev pub Yields : (Disk → Type 0) → (Disk → Type 0) → Bool × World → Type 0
Yields G F (true, w) = G w.disk
Yields G F (false, w) = F w.disk

module _ (G F : Disk → Type 0) where
  pub change-Yields :
      (whole : Disk → Disk) (part : ℕ → Disk → Disk) (w : World)
      → G (whole w.disk)
      → ((n : ℕ) → F (part n w.disk))
      → Yields G F (change whole part w)
  unfolding change
  change-Yields whole part w g f = by_outcome (head_or done w.outcomes)
    where
      by_outcome :
          (o : Outcome)
          → Yields G F (
            succeeded o,
            record w {
              disk = changed o (whole w.disk) (λ n. part n w.disk);
              outcomes = rest_of w.outcomes;
            },
          )
      by_outcome done = g
      by_outcome (failed n) = f n

  pub guarded-Yields :
      (test : Disk → Bool) (m : Effect Bool) (w : World)
      → F w.disk
      → (test w.disk ≡ true → Yields G F (m w))
      → Yields G F (guarded test m w)
  guarded-Yields test m w f h = elim (Bool-cases (test w.disk)) [
    | inl t ↦ rw t (h t)
    | inr n ↦ rw n f
  ]

  pub then-Yields :
      (M : Disk → Type 0) (m k : Effect Bool) (w : World)
      → Yields M F (m w)
      → ((w' : World) → M w'.disk → Yields G F (k w'))
      → Yields G F ((m >>? k) w)
  then-Yields M m k w h next = branch (m w) h
    where
      branch : (r : Bool × World) → Yields M F r → Yields G F (if r.0 then k r.1 else (false, r.1))
      branch (true, w') h' = next w' h'
      branch (false, w') h' = h'

  pub cleanup-Yields :
      (N : Disk → Type 0) (m k : Effect Bool) (w : World)
      → Yields G N (m w)
      → ((w' : World) → N w'.disk → F (k w').1.disk)
      → Yields G F (cleanup m k w)
  cleanup-Yields N m k w h last = branch (m w) h
    where
      branch :
          (r : Bool × World)
          → Yields G N r
          → Yields G F (if r.0 then (true, r.1) else (false, (k r.1).1))
      branch (true, w') h' = h'
      branch (false, w') h' = last w' h'

-- What a pointer file holds.
abbrev pub HoldsText : Text → Option Text → Disk → Type 0
HoldsText name c d = get name d.files ≡ c

abbrev pub line : Text → Text
line sequence = sequence ++ 10 ∷ []

abbrev HoldsIn : Text → Option Text → Dict Text → Dict (Dict Bytes) → Type 0
HoldsIn name c f d = get name f ≡ c

module _ (name : Text) (c : Option Text) (apart : text_eq (temporary_name name) name ≡ false) where
  temporary_ignored : IgnoresFile (HoldsIn name c) (λ l. Unit) (λ l u. tt) (temporary_name name)
  temporary_ignored f f' d same j = same name apart ∙ j

  without_temporary :
      (d : Disk) → HoldsText name c d → HoldsText name c (without_file (temporary_name name) d)
  without_temporary =
      without_file-Keeps (HoldsIn name c) (λ l. Unit) (λ l u. tt) (temporary_name name)
        temporary_ignored

  with_temporary :
      (text : Text) (d : Disk)
      → HoldsText name c d
      → HoldsText name c (with_file (temporary_name name) text d)
  with_temporary =
      with_file-Keeps (HoldsIn name c) (λ l. Unit) (λ l u. tt) (temporary_name name)
        temporary_ignored

  begun_temporary :
      (text : Text) (d : Disk)
      → HoldsText name c d
      → (n : ℕ) → HoldsText name c (begun (with_file (temporary_name name)) text n d)
  unfolding begun
  begun_temporary text d h zero = h
  begun_temporary text d h (suc n) = with_temporary (first_bytes n text) d h

  -- The old contents are there, and the new ones are in the temporary file.
  abbrev Staged : Text → Disk → Type 0
  Staged text d = HoldsText name c d × HoldsText (temporary_name name) (some text) d

  staged_lem :
      (text : Text) (d : Disk)
      → HoldsText name c d
      → Staged text (with_file (temporary_name name) text d)
  staged_lem text d h = (
    with_temporary text d h,
    unfold with_file in
        get-put (temporary_name name) (temporary_name name) text d.files
        ∙ rw (text_eq_refl (temporary_name name)) refl,
  )

  moved_lem :
      (text : Text) (d : Disk)
      → Staged text d
      → HoldsText name (some text) (moved_file (temporary_name name) name d)
  unfolding moved_file with_file
  moved_lem text d (h, s) =
      get-put name name (or_empty_file (get (temporary_name name) d.files))
        (without_file (temporary_name name) d).files
      ∙ rw (text_eq_refl name) (rw s refl)

  -- A pointer that is written holds its line; one that is not is as before.
  pub write_pointer-Yields :
      (sequence : Text) (w : World)
      → HoldsText name c w.disk
      → Yields
          (HoldsText name (some (line sequence)))
          (HoldsText name c)
          (write_pointer name sequence w)
  unfolding write_pointer remove_file write_root_file rename_file
  write_pointer-Yields sequence w h =
      let t = temporary_name name in
      let New = HoldsText name (some (line sequence)) in
      let Old = HoldsText name c in
      then-Yields New Old (Staged (line sequence))
        (remove_file t >>? write_root_file t (line sequence))
        (cleanup (rename_file t name) (remove_file t)) w
        (then-Yields (Staged (line sequence)) Old Old (remove_file t)
          (write_root_file t (line sequence)) w
          (change-Yields Old Old (without_file t) untouched w (without_temporary w.disk h) (λ n. h))
          (λ w1 h1.
            guarded-Yields (Staged (line sequence)) Old (λ d. is_absent (get t d.files))
              (change (with_file t (line sequence)) (begun (with_file t) (line sequence))) w1 h1
              (λ _.
                change-Yields (Staged (line sequence)) Old (with_file t (line sequence))
                  (begun (with_file t) (line sequence)) w1 (staged_lem (line sequence) w1.disk h1)
                  (begun_temporary (line sequence) w1.disk h1))))
        (λ w2 h2.
          cleanup-Yields New Old Old (rename_file t name) (remove_file t) w2
            (guarded-Yields New Old (λ d. not (is_absent (get t d.files)))
              (change (moved_file t name) untouched) w2 h2.0
              (λ _.
                change-Yields New Old (moved_file t name) untouched w2
                  (moved_lem (line sequence) w2.disk h2) (λ n. h2.0)))
            (λ w3 h3. removed w3 h3))
    where
      removed :
          (w3 : World)
          → HoldsText name c w3.disk
          → HoldsText name c (remove_file (temporary_name name) w3).1.disk
      removed w3 h3 = either (remove_file (temporary_name name) w3) (
          change-Yields (HoldsText name c) (HoldsText name c) (without_file (temporary_name name))
            untouched w3 (without_temporary w3.disk h3) (λ n. h3))
        where
          either :
              (r : Bool × World)
              → Yields (HoldsText name c) (HoldsText name c) r
              → HoldsText name c r.1.disk
          either (true, w') y = y
          either (false, w') y = y
