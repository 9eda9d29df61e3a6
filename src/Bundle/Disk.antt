-- ===== src/Bundle/Disk.antt =====
-- internal/bundle/lifecycle.go: the bundle root on disk, and the file operations, which may fail.
use ssc_init.Base.{
  ℕ, zero, suc, Bool, true, false, not, ◌&&◌, Option, none, some, List, [], ◌∷◌, ◌++◌, is_empty,
  leb, ◌==◌, if◌then◌else◌, Text, codes, text_eq, byte_length, trim_space, parse_uint, decimal,
  Dict, get, put, remove,
}
use ssc_init.Bundle.Library.{Bytes}

-- The files of the root by name, and the directories under versions and staging by path.
pub record Disk : Type 0 where
  pub exists : Bool
  pub files : Dict Text
  pub directories : Dict (Dict Bytes)

-- How a change of the disk ends. One that fails may have been done in part: that many files of a
-- removal; for a write, 0 where no file is made, and one more than the bytes written where one is.
pub data Outcome : Type 0 where
  done : Outcome
  failed : ℕ → Outcome

-- The disk, and what the operating system answers to the calls that follow: outcomes of
-- changes, whether a read fails, whether the context is cancelled, and what the clock reads. An
-- empty list answers that all is well.
pub record World : Type 0 where
  pub disk : Disk
  pub outcomes : List Outcome
  pub read_faults : List Bool
  pub cancellations : List Bool
  pub readings : List ℕ
  pub time : ℕ

abbrev pub Effect : Type 0 → Type 0
Effect A = World → A × World

unfoldable pub head_or {ℓ} : {A : Type ℓ} → A → List A → A
head_or default [] = default
head_or default (x ∷ xs) = x

unfoldable pub rest_of {ℓ} : {A : Type ℓ} → List A → List A
rest_of [] = []
rest_of (x ∷ xs) = xs

-- The disk after a change, by how the change ends.
abbrev pub changed : Outcome → (done_disk : Disk) → (ℕ → Disk) → Disk
changed done d part = d
changed (failed n) d part = part n

abbrev pub succeeded : Outcome → Bool
succeeded done = true
succeeded (failed n) = false

-- One change of the disk.
unfoldable pub change : (Disk → Disk) → (ℕ → Disk → Disk) → Effect Bool
change whole part w =
    let outcome = head_or done w.outcomes in
    (
      succeeded outcome,
      record w {
        disk = changed outcome (whole w.disk) (λ n. part n w.disk);
        outcomes = rest_of w.outcomes;
      },
    )

-- A change that is refused, or that leaves nothing behind when it fails.
abbrev pub untouched : ℕ → Disk → Disk
untouched n d = d

abbrev pub first_bytes : ℕ → Bytes → Bytes
first_bytes zero bytes = []
first_bytes (suc n) [] = []
first_bytes (suc n) (b ∷ bytes) = b ∷ first_bytes n bytes

abbrev pub without_first : ℕ → Dict Bytes → Dict Bytes
without_first zero d = d
without_first (suc n) [] = []
without_first (suc n) (entry ∷ d) = without_first n d

-- One operation where the test holds, and else a refusal that changes nothing.
abbrev pub guarded : (Disk → Bool) → Effect Bool → Effect Bool
guarded test m w = if test w.disk then m w else (false, w)

abbrev pub or_empty_directory : Option (Dict Bytes) → Dict Bytes
or_empty_directory none = []
or_empty_directory (some files) = files

-- The changes of directories.
unfoldable pub with_directory : Text → Dict Bytes → Disk → Disk
with_directory path files d = record d { directories = put path files d.directories }

unfoldable pub without_directory : Text → Disk → Disk
without_directory path d = record d { directories = remove path d.directories }

abbrev pub update_directory : Text → (Dict Bytes → Dict Bytes) → Option (Dict Bytes) → Disk → Disk
update_directory path f none d = d
update_directory path f (some files) d = with_directory path (f files) d

unfoldable pub in_directory : Text → (Dict Bytes → Dict Bytes) → Disk → Disk
in_directory path f d = update_directory path f (get path d.directories) d

unfoldable pub made_directory : Text → Disk → Disk
made_directory path d = with_directory path (or_empty_directory (get path d.directories)) d

unfoldable pub moved_directory : Text → Text → Disk → Disk
moved_directory from to d =
    with_directory to (or_empty_directory (get from d.directories)) (without_directory from d)

-- `root.RemoveAll(path)`, of a directory
unfoldable pub remove_all : Text → Effect Bool
remove_all path = change (without_directory path) (λ n. in_directory path (without_first n))

-- `root.MkdirAll(path, 0o700)`
unfoldable pub make_directory : Text → Effect Bool
make_directory path = change (made_directory path) untouched

-- `os.O_CREATE|os.O_EXCL` of a file in a directory: refused where either it or no directory is.
unfoldable pub is_free : Text → Option (Dict Bytes) → Bool
is_free name none = false
is_free name (some files) = elim (get name files) [ none ↦ true | some _ ↦ false ]

-- What a write that fails leaves: nothing where the file cannot be made, else some of its first bytes.
unfoldable pub begun : (Bytes → Disk → Disk) → Bytes → ℕ → Disk → Disk
begun write contents zero d = d
begun write contents (suc n) d = write (first_bytes n contents) d

-- `writeStagedFile` of a file in a directory
unfoldable pub write_file : Text → Text → Bytes → Effect Bool
write_file path name contents =
    guarded (λ d. is_free name (get path d.directories))
      (change (in_directory path (put name contents))
        (begun (λ written. in_directory path (put name written)) contents))

-- `root.Rename(from, to)` of directories: refused where a directory with files is in the way.
unfoldable pub can_move : Option (Dict Bytes) → Option (Dict Bytes) → Bool
can_move none _ = false
can_move (some files) none = true
can_move (some files) (some target) = is_empty target

unfoldable pub rename_directory : Text → Text → Effect Bool
rename_directory from to =
    guarded (λ d. can_move (get from d.directories) (get to d.directories))
      (change (moved_directory from to) untouched)

abbrev pub read_in : Text → Option (Dict Bytes) → Option Bytes
read_in name none = none
read_in name (some files) = get name files

-- One read, whose result is lost where it fails.
unfoldable pub read {ℓ} : {A : Type ℓ} → (Disk → Option A) → World → Option A × World
read f w = (
  if head_or false w.read_faults then none else f w.disk,
  record w { read_faults = rest_of w.read_faults },
)

-- `root.ReadFile(path.Join(directory, name))`
unfoldable pub read_file : Text → Text → Effect (Option Bytes)
read_file path name = read (λ d. read_in name (get path d.directories))

abbrev pub accept_sequence : Text → Text → Option ℕ → Option Text
accept_sequence contents value none = none
accept_sequence contents value (some sequence) =
    if leb (byte_length contents) 32 && not (sequence == 0) && text_eq value (decimal sequence)
    then some value
    else none

-- What a pointer file holds: a sequence in decimal, with white space around it.
unfoldable pub sequence_text : Option Text → Option Text
sequence_text none = none
sequence_text (some contents) =
    accept_sequence contents (trim_space contents) (parse_uint (trim_space contents))

-- `readSequencePointer`
unfoldable pub read_pointer : Text → Effect (Option Text)
read_pointer name = read (λ d. sequence_text (get name d.files))

abbrev pub or_empty_file : Option Text → Text
or_empty_file none = []
or_empty_file (some contents) = contents

-- The changes of files.
unfoldable pub with_file : Text → Text → Disk → Disk
with_file name contents d = record d { files = put name contents d.files }

unfoldable pub without_file : Text → Disk → Disk
without_file name d = record d { files = remove name d.files }

unfoldable pub moved_file : Text → Text → Disk → Disk
moved_file from to d = with_file to (or_empty_file (get from d.files)) (without_file from d)

-- `root.Remove(name)` of a file, where that there is none is no error.
unfoldable pub remove_file : Text → Effect Bool
remove_file name = change (without_file name) untouched

unfoldable pub is_absent : Option Text → Bool
is_absent none = true
is_absent (some contents) = false

-- `writeStagedFile` of a file of the root
unfoldable pub write_root_file : Text → Text → Effect Bool
write_root_file name contents =
    guarded (λ d. is_absent (get name d.files))
      (change (with_file name contents) (begun (with_file name) contents))

-- `root.Rename(from, to)` of files of the root
unfoldable pub rename_file : Text → Text → Effect Bool
rename_file from to =
    guarded (λ d. not (is_absent (get from d.files))) (change (moved_file from to) untouched)

-- One operation, and the next where it succeeds.
infixl 5 ◌>>?◌
abbrev pub ◌>>?◌ : Effect Bool → Effect Bool → Effect Bool
◌>>?◌ m k w = let (ok, w') = m w in if ok then k w' else (false, w')

-- One operation, and what is done where it fails.
abbrev pub cleanup : Effect Bool → Effect Bool → Effect Bool
cleanup m k w = let (ok, w') = m w in if ok then (true, w') else (false, (k w').1)

abbrev pub temporary_name : Text → Text
temporary_name name = name ++ codes ".tmp"

-- `writeSequencePointer`
unfoldable pub write_pointer : Text → Text → Effect Bool
write_pointer name sequence =
    remove_file (temporary_name name)
    >>? write_root_file (temporary_name name) (sequence ++ 10 ∷ [])
    >>? cleanup (rename_file (temporary_name name) name) (remove_file (temporary_name name))

-- `m.Now()`, `ctx.Err()`
unfoldable pub now : Effect ℕ
now w =
    let t = head_or w.time w.readings in (t, record w { time = t; readings = rest_of w.readings })

unfoldable pub is_cancelled : Effect Bool
is_cancelled w =
    (head_or false w.cancellations, record w { cancellations = rest_of w.cancellations })

abbrev pub same_disk : Disk → Disk
same_disk d = d

unfoldable pub made_root : Disk → Disk
made_root d = record d { exists = true }

-- The root is opened: `Layout.Initialize` makes it, `os.OpenRoot` and the lock change nothing.
unfoldable pub open_bundle_root : Effect Bool
open_bundle_root =
    change made_root untouched >>? change same_disk untouched >>? change same_disk untouched
