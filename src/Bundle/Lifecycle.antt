-- ===== src/Bundle/Lifecycle.antt =====
-- internal/bundle/lifecycle.go, status.go and active.go: `Manager`.
mod Monad
pub mod Stable
pub mod Ends
pub mod Pointers
pub mod Staged
pub mod Steps
pub mod Placed
pub mod Admission
pub mod Install
pub mod Returned
pub mod Rollback
pub mod Yields
pub mod Methods
unfoldable pub use Monad.*
use ssc_init.Base.{
  ℕ, ◌+◌, ◌*◌, Bool, true, false, not, ◌&&◌, ◌||◌, Option, none, some, List, [], ◌∷◌, ◌++◌, length,
  is_empty, ltb, ◌==◌, if◌then◌else◌, Text, codes, text_eq, has_prefix, parse_uint, decimal,
}
use ssc_init.Model.{Family}
use ssc_init.Finding.Bundle.{Freshness, missing, fresh, stale, expired, unavailable, TiRecord}
use ssc_init.Bundle.Library.{Library, Bytes, day}
use ssc_init.Bundle.Envelope.{
  KeyRegistry, Verified, verify, verify_stored, valid_family, same_family, max_bundle_bytes,
}
use ssc_init.Bundle.Disk.{
  Disk, World, Effect, remove_all, make_directory, write_file, rename_directory, read_file, read,
  read_pointer, write_pointer, now, is_cancelled, open_bundle_root, ◌>>?◌,
}

-- `Manager`, with the regular files that a path of the host leads to.
pub record Manager : Type 0 where
  pub family : Family
  pub keys : KeyRegistry
  pub has_clock : Bool
  pub host : Text → Option Bytes

abbrev pub highest_file : Text
highest_file = codes "highest-sequence"

abbrev pub current_file : Text
current_file = codes "current"

abbrev pub previous_file : Text
previous_file = codes "previous"

abbrev pub bundle_file : Text
bundle_file = codes "bundle.json"

abbrev pub signature_file : Text
signature_file = codes "bundle.sig"

-- `path.Join("versions", sequence)`, `path.Join("staging", sequence)`
abbrev pub version_path : Text → Text
version_path sequence = codes "versions/" ++ sequence

abbrev pub staging_path : Text → Text
staging_path sequence = codes "staging/" ++ sequence

-- `filepath.IsAbs`
abbrev pub is_abs : Text → Bool
is_abs path = has_prefix path (codes "/")

abbrev pub within : ℕ → Option Bytes → Option Bytes
within maximum none = none
within maximum (some contents) =
    if is_empty contents || ltb maximum (length contents) then none else some contents

-- `readRegularBounded`
unfoldable pub read_regular_bounded : (Text → Option Bytes) → Text → ℕ → Option Bytes
read_regular_bounded host path maximum = within maximum (host path)

abbrev pub sequence_of : Verified → ℕ
sequence_of v = v.envelope.document.sequence

abbrev pub family_of : Verified → Family
family_of v = v.envelope.document.family

-- A bundle and its signature, where both are read.
abbrev pub both : Option Bytes → Option Bytes → Option (Bytes × Bytes)
both (some raw) (some signature) = some (raw, signature)
both _ _ = none

unfoldable pub read_bundle : Text → Effect (Option (Bytes × Bytes))
read_bundle path w =
    let (raw, w1) = read_file path bundle_file w in
    let (signature, w2) = read_file path signature_file w1 in (both raw signature, w2)

abbrev pub or_zero : Option ℕ → ℕ
or_zero none = 0
or_zero (some n) = n

-- `discard`
unfoldable pub discard : {A : Type 0} → Text → Error → Io A
discard staging e w = (err e, (remove_all staging w).1)

abbrev pub kept : {A : Type 0} → Text → Option A → Error → Io A
kept staging none e = discard staging e
kept staging (some a) e = pure a

abbrev pub must_or_discard : Text → Effect Bool → Error → Io Unit
must_or_discard staging m e = lift m >>= λ good. if good then pure tt else discard staging e

-- The bundle, where it is verified and has the digest.
unfoldable pub with_digest : Bytes → Option Verified → Option Verified
with_digest digest none = none
with_digest digest (some v) = if text_eq v.digest digest then some v else none

-- The pointer to the version before, where there is one and it is another.
unfoldable pub keep_previous : Text → Option Text → Io Unit
keep_previous sequence none = pure tt
keep_previous sequence (some current) =
    if text_eq current sequence
    then pure tt
    else must (write_pointer previous_file current) install_failed

-- The pointers, in the order in which they are written.
unfoldable pub point_to : Text → Io Unit
point_to sequence = do
  must (write_pointer highest_file sequence) install_failed
  current ← lift (read_pointer current_file)
  keep_previous sequence current
  must (write_pointer current_file sequence) install_failed

abbrev pub two_versions : Option Text → Option Text → Option (Text × Text)
two_versions (some current) (some previous) =
    if text_eq current previous then none else some (current, previous)
two_versions _ _ = none

module _ (lib : Library) (m : Manager) where
  abbrev pub verify_pair : Option (Bytes × Bytes) → ℕ → Option Verified
  verify_pair none t = none
  verify_pair (some (raw, signature)) t = verify lib m.keys raw signature t

  -- `Install`, up to the second test of the context.
  unfoldable pub admit : Text → Text → Io (Bytes × Bytes × Verified)
  admit bundle_path signature_path = do
    check_context
    require (is_abs bundle_path && is_abs signature_path && m.has_clock && valid_family m.family)
        install_failed
    raw ← some_or (read_regular_bounded m.host bundle_path max_bundle_bytes) install_failed
    signature ← some_or (read_regular_bounded m.host signature_path 1024) install_failed
    t ← lift now
    verified ← some_or (verify lib m.keys raw signature t) install_failed
    require (same_family (family_of verified) m.family) install_failed
    check_context
    pure (raw, signature, verified)

  -- The bundle that is installed under the sequence is this one.
  unfoldable pub check_same : Verified → Io Unit
  check_same v = do
    files ← lift (read_bundle (version_path (decimal (sequence_of v))))
    t ← lift now
    some_or (with_digest v.digest (verify_pair files t)) rollback_refused
    pure tt

  unfoldable pub compare_high_water : Verified → Option Text → Io Unit
  compare_high_water v none = pure tt
  compare_high_water v (some mark) =
      let highest = or_zero (parse_uint mark) in
      if ltb (sequence_of v) highest
      then raise rollback_refused
      else if sequence_of v == highest
      then check_same v
      else pure tt

  unfoldable pub check_high_water : Verified → Io Unit
  check_high_water v = lift (read_pointer highest_file) >>= compare_high_water v

  -- The files are staged, verified again, and moved to their place.
  unfoldable pub stage : Text → Bytes → Bytes → Verified → Io Verified
  stage sequence raw signature v = do
    let staging = staging_path sequence
    let installed = version_path sequence
    must (remove_all staging >>? make_directory staging) install_failed
    must_or_discard staging (write_file staging bundle_file raw) install_failed
    must_or_discard staging (write_file staging signature_file signature) install_failed
    files ← lift (read_bundle staging)
    t ← lift now
    staged ← kept staging (with_digest v.digest (verify_pair files t)) install_failed
    gone ← lift is_cancelled
    if gone then discard staging cancelled else pure tt
    must_or_discard staging (remove_all installed >>? rename_directory staging installed)
        install_failed
    pure staged

  -- `Install`, from the second test of the context.
  unfoldable pub place : Bytes × Bytes × Verified → Io Verified
  place (raw, signature, verified) = do
    let sequence = decimal (sequence_of verified)
    must open_bundle_root install_failed
    check_high_water verified
    staged ← stage sequence raw signature verified
    point_to sequence
    pure staged

  -- `Install`
  unfoldable pub install : Text → Text → Io Verified
  install bundle_path signature_path = admit bundle_path signature_path >>= place

  -- The version to go back to, where it is intact.
  unfoldable pub is_previous : Text → Option Verified → Bool
  is_previous previous none = false
  is_previous previous (some v) =
      text_eq (decimal (sequence_of v)) previous && same_family (family_of v) m.family

  -- `Rollback`, once it has two versions: the current one and another one before it.
  unfoldable pub exchange : Text × Text → Io Unit
  exchange (current, previous) = do
    files ← lift (read_bundle (version_path previous))
    t ← lift now
    require (is_previous previous (verify_pair files t)) rollback_refused
    check_context
    must (write_pointer previous_file current) rollback_refused
    must (write_pointer current_file previous) rollback_refused

  -- `Rollback`
  unfoldable pub rollback : Io Unit
  rollback = do
    check_context
    require (m.has_clock && valid_family m.family) rollback_refused
    must open_bundle_root rollback_refused
    current_pointer ← lift (read_pointer current_file)
    previous_pointer ← lift (read_pointer previous_file)
    versions ← some_or (two_versions current_pointer previous_pointer) rollback_refused
    exchange versions
