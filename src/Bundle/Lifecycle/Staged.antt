-- ===== src/Bundle/Lifecycle/Staged.antt =====
-- internal/bundle/lifecycle.go: the version directory after `Install` has staged a bundle.
use ssc_init.Base.{
  Option, none, some, [], ◌≡◌, refl, ap, ◌∙◌, Text, text_eq_refl, Dict, get, put, get-put,
  get-remove_self,
}
use ssc_init.Bundle.Library.{Bytes}
use ssc_init.Bundle.Disk.{
  Disk, World, read, read_file, read_in, remove_all, make_directory, write_file, rename_directory,
  with_directory, without_directory, in_directory, made_directory, moved_directory, untouched,
  change, without_first, begun, is_free, can_move,
}
use ssc_init.Bundle.Lifecycle.{bundle_file, signature_file, both, read_bundle}
use ssc_init.Bundle.Lifecycle.Yields.{Yields, change-Yields, guarded-Yields}
use ssc_init.Bundle.Lifecycle.Pointers.{Readable, rest-Readable, read_readable}

-- What a directory holds.
abbrev pub HasFiles : Text → Option (Dict Bytes) → Disk → Type 0
HasFiles path files d = get path d.directories ≡ files

abbrev pub AnyDisk : Disk → Type 0
AnyDisk d = Unit

with_directory-HasFiles :
    (path : Text) (files : Dict Bytes) (d : Disk)
    → HasFiles path (some files) (with_directory path files d)
unfolding with_directory
with_directory-HasFiles path files d =
    get-put path path files d.directories ∙ rw (text_eq_refl path) refl

pub remove_all-Yields :
    (path : Text) (w : World) → Yields (HasFiles path none) AnyDisk (remove_all path w)
unfolding remove_all without_directory
remove_all-Yields path w =
    change-Yields (HasFiles path none) AnyDisk (without_directory path)
      (λ n. in_directory path (without_first n)) w (get-remove_self path w.disk.directories)
      (λ n. tt)

pub make_directory-Yields :
    (path : Text) (w : World)
    → HasFiles path none w.disk
    → Yields (HasFiles path (some [])) AnyDisk (make_directory path w)
unfolding make_directory
make_directory-Yields path w h =
    change-Yields (HasFiles path (some [])) AnyDisk (made_directory path) untouched w
      (unfold made_directory in rw h (with_directory-HasFiles path [] w.disk)) (λ n. tt)

pub write_file-Yields :
    (path name : Text) (contents : Bytes) (files : Dict Bytes) (w : World)
    → HasFiles path (some files) w.disk
    → Yields
        (HasFiles path (some (put name contents files)))
        AnyDisk
        (write_file path name contents w)
unfolding write_file
write_file-Yields path name contents files w h =
    guarded-Yields (HasFiles path (some (put name contents files))) AnyDisk
      (λ d. is_free name (get path d.directories))
      (change (in_directory path (put name contents))
        (begun (λ written. in_directory path (put name written)) contents))
      w tt
      (λ _.
        change-Yields (HasFiles path (some (put name contents files))) AnyDisk
          (in_directory path (put name contents))
          (begun (λ written. in_directory path (put name written)) contents) w
          (unfold in_directory in
            rw h (with_directory-HasFiles path (put name contents files) w.disk))
          (λ n. tt))

pub rename_directory-Yields :
    (from to : Text) (files : Dict Bytes) (w : World)
    → HasFiles from (some files) w.disk
    → Yields (HasFiles to (some files)) AnyDisk (rename_directory from to w)
unfolding rename_directory
rename_directory-Yields from to files w h =
    guarded-Yields (HasFiles to (some files)) AnyDisk
      (λ d. can_move (get from d.directories) (get to d.directories))
      (change (moved_directory from to) untouched) w tt
      (λ _.
        change-Yields (HasFiles to (some files)) AnyDisk (moved_directory from to) untouched w
          (unfold moved_directory in
            rw h (with_directory-HasFiles to files (without_directory from w.disk)))
          (λ n. tt))

-- The bundle and the signature that a directory holds.
abbrev pub files_in : Option (Dict Bytes) → Option (Bytes × Bytes)
files_in files = both (read_in bundle_file files) (read_in signature_file files)

-- A bundle in a directory is read as it is there.
pub read_bundle-files_in :
    (path : Text) (w : World)
    → Readable w.read_faults
    → (read_bundle path w).0 ≡ files_in (get path w.disk.directories)
unfolding read_bundle read_file
read_bundle-files_in path w r =
    let first = read_readable (λ d. read_in bundle_file (get path d.directories)) w r in
    let w1 = (read (λ d. read_in bundle_file (get path d.directories)) w).1 in
    let r1 : Readable w1.read_faults = unfold read in rest-Readable w.read_faults r in
    let second = read_readable (λ d. read_in signature_file (get path d.directories)) w1 r1 in
    let same : w1.disk ≡ w.disk = unfold read in refl in rw first (rw second (rw same refl))

pub read_bundle-HasFiles :
    (path : Text) (files : Dict Bytes) (w : World)
    → Readable w.read_faults
    → HasFiles path (some files) w.disk
    → (read_bundle path w).0 ≡ both (get bundle_file files) (get signature_file files)
read_bundle-HasFiles path files w r h = read_bundle-files_in path w r ∙ ap files_in h
