-- ===== src/Bundle/Lifecycle/Stable.antt =====
-- internal/bundle/lifecycle.go: the parts of the disk that an operation does not touch.
use ssc_init.Base.{
  ℕ, zero, suc, Bool, true, false, not, Option, none, some, List, [], ◌∷◌, ◌++◌, ◌≡◌, refl, ◌∙◌,
  if◌then◌else◌, Text, text_eq, Dict, get, put, remove, get-put, get-remove,
}
use ssc_init.Bundle.Library.{Bytes}
use ssc_init.Bundle.Disk.{
  Disk, World, Effect, Outcome, done, failed, head_or, rest_of, change, changed, untouched,
  remove_all, make_directory, write_file, in_directory, without_first, begun, first_bytes, is_free,
  can_move, rename_directory, or_empty_directory, read, now, is_cancelled, open_bundle_root, ◌>>?◌,
  guarded, with_directory, without_directory, update_directory, made_directory, moved_directory,
  with_file, without_file, moved_file, same_disk, made_root, remove_file, write_root_file,
  rename_file, write_pointer, temporary_name, cleanup, is_absent, or_empty_file,
}

module _ (J : Dict Text → Dict (Dict Bytes) → Type 0) (C : List Bool → Type 0)
    (rest : (l : List Bool) → C l → C (rest_of l)) where
  -- What is known of the disk, and of the reads to come.
  unfoldable pub Holds : World → Type 0
  Holds w = J w.disk.files w.disk.directories × C w.read_faults

  abbrev pub Stable : {A : Type 0} → (World → A × World) → Type 0
  Stable m = (w : World) → Holds w → Holds (m w).1

  -- It does not depend on a directory, or on a file of the root.
  abbrev pub Ignores : Text → Type 0
  Ignores path =
      (f : Dict Text) (d d' : Dict (Dict Bytes))
      → ((other : Text) → text_eq path other ≡ false → get other d' ≡ get other d)
      → J f d
      → J f d'

  abbrev pub IgnoresFile : Text → Type 0
  IgnoresFile name =
      (f f' : Dict Text) (d : Dict (Dict Bytes))
      → ((other : Text) → text_eq name other ≡ false → get other f' ≡ get other f)
      → J f d
      → J f' d

  pub read-Stable : {A : Type 0} (f : Disk → Option A) → Stable (read f)
  unfolding read Holds
  read-Stable f w (j, c) = (j, rest w.read_faults c)

  pub now-Stable : Stable now
  unfolding now Holds
  now-Stable w h = h

  pub cancelled-Stable : Stable is_cancelled
  unfolding is_cancelled Holds
  cancelled-Stable w h = h

  changed-J :
      (whole : Disk → Disk) (part : ℕ → Disk → Disk)
      → ((d : Disk) → J d.files d.directories → J (whole d).files (whole d).directories)
      → ((n : ℕ) (d : Disk) → J d.files d.directories → J (part n d).files (part n d).directories)
      → (o : Outcome) (d : Disk) → J d.files d.directories
      → J
          (changed o (whole d) (λ n. part n d)).files
          (changed o (whole d) (λ n. part n d)).directories
  changed-J whole part hw hp done d j = hw d j
  changed-J whole part hw hp (failed n) d j = hp n d j

  pub change-Stable :
      (whole : Disk → Disk) (part : ℕ → Disk → Disk)
      → ((d : Disk) → J d.files d.directories → J (whole d).files (whole d).directories)
      → ((n : ℕ) (d : Disk) → J d.files d.directories → J (part n d).files (part n d).directories)
      → Stable (change whole part)
  unfolding change Holds
  change-Stable whole part hw hp w (j, c) =
      (changed-J whole part hw hp (head_or done w.outcomes) w.disk j, c)

  pub then-Stable : (m k : Effect Bool) → Stable m → Stable k → Stable (m >>? k)
  then-Stable m k hm hk w h = branch (m w) (hm w h)
    where
      branch : (r : Bool × World) → Holds r.1 → Holds (if r.0 then k r.1 else (false, r.1)).1
      branch (true, w') h = hk w' h
      branch (false, w') h = h

  pub cleanup-Stable : (m k : Effect Bool) → Stable m → Stable k → Stable (cleanup m k)
  cleanup-Stable m k hm hk w h = branch (m w) (hm w h)
    where
      branch :
          (r : Bool × World)
          → Holds r.1
          → let out : Bool × World = if r.0 then (true, r.1) else (false, (k r.1).1) in Holds out.1
      branch (true, w') h = h
      branch (false, w') h = hk w' h

  guarded-Stable : (test : Disk → Bool) (m : Effect Bool) → Stable m → Stable (guarded test m)
  guarded-Stable test m hm w h = branch (test w.disk)
    where
      branch : (b : Bool) → Holds (if b then m w else (false, w)).1
      branch true = hm w h
      branch false = h

  -- A change of the disk that keeps what is known of it.
  abbrev pub Keeps : (Disk → Disk) → Type 0
  Keeps f = (d : Disk) → J d.files d.directories → J (f d).files (f d).directories

  pub untouched-Keeps : (n : ℕ) → Keeps (untouched n)
  untouched-Keeps n d j = j

  begun-Keeps :
      (write : Bytes → Disk → Disk) (contents : Bytes)
      → ((written : Bytes) → Keeps (write written))
      → (n : ℕ) → Keeps (begun write contents n)
  unfolding begun
  begun-Keeps write contents k zero d j = j
  begun-Keeps write contents k (suc n) d j = k (first_bytes n contents) d j

  made_root-Keeps : Keeps made_root
  unfolding made_root
  made_root-Keeps d j = j

  pub open_bundle_root-Stable : Stable open_bundle_root
  unfolding open_bundle_root
  open_bundle_root-Stable =
      then-Stable (change made_root untouched >>? change same_disk untouched)
        (change same_disk untouched)
        (then-Stable (change made_root untouched) (change same_disk untouched)
          (change-Stable made_root untouched made_root-Keeps untouched-Keeps)
          (change-Stable same_disk untouched (λ d j. j) untouched-Keeps))
        (change-Stable same_disk untouched (λ d j. j) untouched-Keeps)

  -- Operations on a directory that nothing is known of.
  module _ (path : Text) (ig : Ignores path) where
    with_directory-Keeps : (files : Dict Bytes) → Keeps (with_directory path files)
    unfolding with_directory
    with_directory-Keeps files d j =
        ig d.files d.directories (put path files d.directories)
          (λ other ne. get-put path other files d.directories ∙ rw ne refl) j

    pub without_directory-Keeps : Keeps (without_directory path)
    unfolding without_directory
    without_directory-Keeps d j =
        ig d.files d.directories (remove path d.directories)
          (λ other ne. get-remove path other d.directories ne) j

    in_directory-Keeps : (f : Dict Bytes → Dict Bytes) → Keeps (in_directory path f)
    unfolding in_directory
    in_directory-Keeps f d j = updated (get path d.directories)
      where
        updated :
            (o : Option (Dict Bytes))
            → J (update_directory path f o d).files (update_directory path f o d).directories
        updated none = j
        updated (some files) = with_directory-Keeps (f files) d j

    made_directory-Keeps : Keeps (made_directory path)
    unfolding made_directory
    made_directory-Keeps d j =
        with_directory-Keeps (or_empty_directory (get path d.directories)) d j

    pub moved_directory-Keeps :
        (from : Text) → Keeps (without_directory from) → Keeps (moved_directory from path)
    unfolding moved_directory
    moved_directory-Keeps from k d j =
        with_directory-Keeps (or_empty_directory (get from d.directories))
          (without_directory from d) (k d j)

    pub remove_all-Stable : Stable (remove_all path)
    unfolding remove_all
    remove_all-Stable =
        change-Stable (without_directory path) (λ n. in_directory path (without_first n))
          without_directory-Keeps (λ n. in_directory-Keeps (without_first n))

    pub make_directory-Stable : Stable (make_directory path)
    unfolding make_directory
    make_directory-Stable =
        change-Stable (made_directory path) untouched made_directory-Keeps untouched-Keeps

    pub write_file-Stable :
        (name : Text) (contents : Bytes) → Stable (write_file path name contents)
    unfolding write_file
    write_file-Stable name contents =
        guarded-Stable (λ d. is_free name (get path d.directories))
          (change (in_directory path (put name contents))
            (begun (λ written. in_directory path (put name written)) contents))
          (change-Stable (in_directory path (put name contents))
            (begun (λ written. in_directory path (put name written)) contents)
            (in_directory-Keeps (put name contents))
            (begun-Keeps (λ written. in_directory path (put name written)) contents
              (λ written. in_directory-Keeps (put name written))))

  pub rename_directory-Stable :
      (from to : Text) → Ignores from → Ignores to → Stable (rename_directory from to)
  unfolding rename_directory
  rename_directory-Stable from to ig_from ig_to =
      guarded-Stable (λ d. can_move (get from d.directories) (get to d.directories))
        (change (moved_directory from to) untouched)
        (change-Stable (moved_directory from to) untouched
          (moved_directory-Keeps to ig_to from (without_directory-Keeps from ig_from))
          untouched-Keeps)

  -- Operations on a file of the root that nothing is known of.
  module _ (name : Text) (ig : IgnoresFile name) where
    pub with_file-Keeps : (contents : Text) → Keeps (with_file name contents)
    unfolding with_file
    with_file-Keeps contents d j =
        ig d.files (put name contents d.files) d.directories
          (λ other ne. get-put name other contents d.files ∙ rw ne refl) j

    pub without_file-Keeps : Keeps (without_file name)
    unfolding without_file
    without_file-Keeps d j =
        ig d.files (remove name d.files) d.directories
          (λ other ne. get-remove name other d.files ne) j

    pub remove_file-Stable : Stable (remove_file name)
    unfolding remove_file
    remove_file-Stable =
        change-Stable (without_file name) untouched without_file-Keeps untouched-Keeps

    pub write_root_file-Stable : (contents : Text) → Stable (write_root_file name contents)
    unfolding write_root_file
    write_root_file-Stable contents =
        guarded-Stable (λ d. is_absent (get name d.files))
          (change (with_file name contents) (begun (with_file name) contents))
          (change-Stable (with_file name contents) (begun (with_file name) contents)
            (with_file-Keeps contents) (begun-Keeps (with_file name) contents with_file-Keeps))

  pub rename_file-Stable :
      (from to : Text) → IgnoresFile from → IgnoresFile to → Stable (rename_file from to)
  unfolding rename_file
  rename_file-Stable from to ig_from ig_to =
      guarded-Stable (λ d. not (is_absent (get from d.files)))
        (change (moved_file from to) untouched)
        (change-Stable (moved_file from to) untouched moved untouched-Keeps)
    where
      moved : Keeps (moved_file from to)
      moved d j =
          unfold moved_file in
          with_file-Keeps to ig_to (or_empty_file (get from d.files)) (without_file from d)
            (without_file-Keeps from ig_from d j)

  -- A pointer that nothing is known of.
  pub write_pointer-Stable :
      (name sequence : Text)
      → IgnoresFile (temporary_name name)
      → IgnoresFile name
      → Stable (write_pointer name sequence)
  unfolding write_pointer
  write_pointer-Stable name sequence ig_temporary ig =
      let t = temporary_name name in
      then-Stable (remove_file t >>? write_root_file t (sequence ++ 10 ∷ []))
        (cleanup (rename_file t name) (remove_file t))
        (then-Stable (remove_file t) (write_root_file t (sequence ++ 10 ∷ []))
          (remove_file-Stable t ig_temporary)
          (write_root_file-Stable t ig_temporary (sequence ++ 10 ∷ [])))
        (cleanup-Stable (rename_file t name) (remove_file t)
          (rename_file-Stable t name ig_temporary ig) (remove_file-Stable t ig_temporary))
