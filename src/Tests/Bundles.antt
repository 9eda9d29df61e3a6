-- ===== src/Tests/Bundles.antt =====
-- internal/bundle/lifecycle_test.go: bundles on small disks.
use ssc_init.Base.{
  ℕ, ◌+◌, true, false, Option, none, some, [], ◌∷◌, ◌++◌, ◌≡◌, refl, if◌then◌else◌, Text, codes,
  ltb, u64, arith, decimal, text_eq, has_prefix, trim_left, trim_space, is_space, is_digit,
  parse_digits, parse_uint, digits, get, put, remove,
}
use ssc_init.Base.{◌≤◌, ap, ◌∙◌}
use ssc_init.Bundle.Envelope.{verify_stored}
use ssc_init.Bundle.Envelope.Loaded.{IsSigned, verify-document, verify-IsSigned}
use ssc_init.Bundle.Lifecycle.{exchange, is_previous}
use ssc_init.Bundle.Lifecycle.Yields.{line}
use ssc_init.Bundle.Lifecycle.Ends.{sequence_text-line}
use ssc_init.Bundle.Lifecycle.Admission.{IsOffered}
use ssc_init.Bundle.Lifecycle.Returned.{high_water, install-high_water}
use ssc_init.Bundle.Status.View.{view, publish}
use ssc_init.Bundle.Status.Current.{
  served, served_at, install-publish, install-served, install_error-served,
}
use ssc_init.Bundle.Status.{active, bundle_status, of_sequence, stored}
use ssc_init.Bundle.Status.Served.{active-served, quiet, root_of}
use ssc_init.Bundle.Status.History.{
  swap, rollback-swap, here, next, installs, rolls_back, Reach-high_water,
}
use ssc_init.Model.{ti}
use ssc_init.Bundle.Tokens.{Token, has_duplicate_object_key, is_finished, walk}
use ssc_init.Bundle.Library.{Library, Bytes, Document, day, zero_time}
use ssc_init.Bundle.Payload.{validate_ti_payload, valid_records}
use ssc_init.Bundle.Envelope.{
  KeyRegistry, Verified, valid_family, same_family, valid_document, in_force, load_ti, load_payload,
  load_document, load_envelope, check_signature, verify,
}
use ssc_init.Bundle.Envelope.Loaded.{IsBounded}
use ssc_init.Bundle.Disk.{
  Disk, World, done, failed, head_or, rest_of, change, with_directory, without_directory,
  in_directory, made_directory, moved_directory, remove_all, make_directory, is_free, write_file,
  can_move, rename_directory, read, read_file, sequence_text, read_pointer, with_file, without_file,
  moved_file, remove_file, is_absent, write_root_file, rename_file, write_pointer, now,
  is_cancelled, made_root, open_bundle_root,
}
use ssc_init.Bundle.Lifecycle.{
  Manager, ok, err, install_failed, rollback, continue, install, place, admit, check_high_water,
  compare_high_water, check_same, stage, point_to, keep_previous, discard, with_digest, read_bundle,
  read_regular_bounded,
}

abbrev pub repeat_byte : ℕ → Bytes → Bytes
repeat_byte n rest = n ∷ n ∷ n ∷ n ∷ n ∷ n ∷ n ∷ n ∷ rest

abbrev pub half : Bytes
half = repeat_byte 7 (repeat_byte 7 (repeat_byte 7 (repeat_byte 7 [])))

abbrev pub document_of : ℕ → Document
document_of n = record {
  schema_version = codes "ssc-init.bundle.v1";
  family = ti;
  version = codes "1";
  sequence = n;
  key_id = codes "k";
  generated_at = zero_time + 1;
  valid_from = zero_time + 1;
  valid_until = zero_time + day;
  payload = [];
}

abbrev pub decode_one : Bytes → Option Document
decode_one [] = none
decode_one (n ∷ rest) = if ltb n u64 then some (document_of n) else none

-- A bundle is its sequence in one byte, and every signature is good.
abbrev pub toy : Library
toy = record {
  tokens = λ raw. record { list = Token.value ∷ []; at_end = true };
  decode_document = decode_one;
  decode_ti = λ raw. some (some []);
  decode_policy = λ raw. none;
  parse_time = λ s. some (zero_time + 2);
  decode_hex = λ s. some half;
  encode_hex = λ b. b;
  parse_url =
      λ s. some (record { scheme = codes "https"; host = codes "example.org"; has_user = false });
  is_sensitive = λ s. false;
  verify_signature = λ key raw signature. true;
  sum256 = λ raw. raw;
}

toy-IsBounded : IsBounded toy
toy-IsBounded [] d h = ground arith
toy-IsBounded (n ∷ rest) d h = ground arith

abbrev toy_keys : KeyRegistry
toy_keys family = (codes "k", half) ∷ []

abbrev toy_host : Text → Option Bytes
toy_host path = elim path [
  | [] ↦ none
  | c ∷ [] ↦ none
  | c ∷ d ∷ rest ↦ if ltb d 100 then some (d ∷ []) else some (half ++ half)
]

abbrev toy_manager : Manager
toy_manager = record { family = ti; keys = toy_keys; has_clock = true; host = toy_host }

abbrev empty_disk : Disk
empty_disk = record { exists = false; files = []; directories = [] }

abbrev fresh_world : World
fresh_world = record {
  disk = empty_disk;
  outcomes = [];
  read_faults = [];
  cancellations = [];
  readings = [];
  time = zero_time + 3;
}

abbrev toy_bundle : ℕ → Verified
toy_bundle n = record {
  envelope = record { document = document_of n; ti = some []; policy = none };
  digest = n ∷ [];
}

abbrev path_of : ℕ → Text
path_of n = 47 ∷ n ∷ []

abbrev signature_path : Text
signature_path = 47 ∷ 120 ∷ []

installed_one :
    (install toy toy_manager (path_of 5) signature_path fresh_world).0 ≡ ok (toy_bundle 5)
unfolding install place admit check_high_water compare_high_water check_same stage point_to
    keep_previous discard with_digest read_bundle read_regular_bounded continue head_or rest_of
    change with_directory without_directory in_directory made_directory moved_directory remove_all
    make_directory is_free write_file can_move rename_directory read read_file sequence_text
    read_pointer with_file without_file moved_file remove_file is_absent write_root_file rename_file
    write_pointer now is_cancelled made_root open_bundle_root valid_family same_family
    valid_document in_force load_ti load_payload load_document load_envelope
    has_duplicate_object_key is_finished walk check_signature verify validate_ti_payload
    valid_records text_eq has_prefix trim_left trim_space is_space is_digit parse_digits parse_uint
    digits get put remove decimal
installed_one = refl

install-publish_example :
    view (install toy toy_manager (path_of 5) signature_path fresh_world).1.disk
    ≡ publish (decimal 5) (view empty_disk)
install-publish_example =
    install-publish toy toy_manager (path_of 5) signature_path fresh_world refl (toy_bundle 5)
      toy-IsBounded installed_one

install-served_example :
    served toy toy_manager (install toy toy_manager (path_of 5) signature_path fresh_world).1.disk
    ≡ some (toy_bundle 5)
install-served_example =
    install-served toy toy_manager (path_of 5) signature_path fresh_world refl (toy_bundle 5)
      toy-IsBounded installed_one

-- Version 5 is installed, and the disk is full.
abbrev full_world : World
full_world = record {
  disk = record {
    exists = true;
    files =
        (codes "highest-sequence", codes "5\n")
        ∷ (codes "current", codes "5\n")
        ∷ (codes "previous", codes "4\n")
        ∷ [];
    directories =
        (
          codes "versions/5",
          (codes "bundle.json", 5 ∷ []) ∷ (codes "bundle.sig", half ++ half) ∷ [],
        )
        ∷ (
          codes "versions/4",
          (codes "bundle.json", 4 ∷ []) ∷ (codes "bundle.sig", half ++ half) ∷ [],
        )
        ∷ [];
  };
  outcomes = done ∷ done ∷ done ∷ done ∷ done ∷ failed 0 ∷ [];
  read_faults = [];
  cancellations = [];
  readings = [];
  time = zero_time + 3;
}

install-high_water_example :
    high_water full_world.disk
    ≤ high_water (install toy toy_manager (path_of 6) signature_path full_world).1.disk
install-high_water_example =
    install-high_water toy toy_manager (path_of 6) signature_path full_world refl toy-IsBounded

failed_six : (install toy toy_manager (path_of 6) signature_path full_world).0 ≡ err install_failed
unfolding install place admit check_high_water compare_high_water check_same stage point_to
    keep_previous discard with_digest read_bundle read_regular_bounded continue head_or rest_of
    change with_directory without_directory in_directory made_directory moved_directory remove_all
    make_directory is_free write_file can_move rename_directory read read_file sequence_text
    read_pointer with_file without_file moved_file remove_file is_absent write_root_file rename_file
    write_pointer now is_cancelled made_root open_bundle_root valid_family same_family
    valid_document in_force load_ti load_payload load_document load_envelope
    has_duplicate_object_key is_finished walk check_signature verify validate_ti_payload
    valid_records text_eq has_prefix trim_left trim_space is_space is_digit parse_digits parse_uint
    digits get put remove decimal
failed_six = refl

current_five : sequence_text (some (codes "5\n")) ≡ some (decimal 5)
unfolding install place admit check_high_water compare_high_water check_same stage point_to
    keep_previous discard with_digest read_bundle read_regular_bounded continue head_or rest_of
    change with_directory without_directory in_directory made_directory moved_directory remove_all
    make_directory is_free write_file can_move rename_directory read read_file sequence_text
    read_pointer with_file without_file moved_file remove_file is_absent write_root_file rename_file
    write_pointer now is_cancelled made_root open_bundle_root valid_family same_family
    valid_document in_force load_ti load_payload load_document load_envelope
    has_duplicate_object_key is_finished walk check_signature verify validate_ti_payload
    valid_records text_eq has_prefix trim_left trim_space is_space is_digit parse_digits parse_uint
    digits get put remove decimal
current_five = refl

current_of_full : get (codes "current") full_world.disk.files ≡ some (codes "5\n")
unfolding get text_eq
current_of_full = refl

six_offered :
    (raw signature : Bytes) (t : ℕ) (v : Verified)
    → IsOffered toy toy_manager (path_of 6) signature_path raw signature t v
    → text_eq (decimal v.envelope.document.sequence) (decimal 5) ≡ false
unfolding text_eq decimal digits
six_offered raw signature t v o =
    let d = verify-document toy toy_keys raw signature t v o.2 in
    let one : 6 ∷ [] ≡ raw = ground (arith, o.0) in
    let same : document_of 6 ≡ v.envelope.document = six_decoded raw v.envelope.document one d.0 in
    rw (← same) refl
  where
    six_decoded :
        (raw : Bytes) (d : Document) → 6 ∷ [] ≡ raw → decode_one raw ≡ some d → document_of 6 ≡ d
    six_decoded raw d e h = ground arith

install_error-served_example :
    served toy toy_manager (install toy toy_manager (path_of 6) signature_path full_world).1.disk
    ≡ served toy toy_manager full_world.disk
install_error-served_example =
    install_error-served toy toy_manager (path_of 6) signature_path full_world refl (decimal 5)
      install_failed (ap sequence_text current_of_full ∙ current_five) six_offered failed_six

abbrev calm_world : World
calm_world = record full_world { outcomes = [] }

rolled_back : (rollback toy toy_manager calm_world).0 ≡ ok tt
unfolding install place admit check_high_water compare_high_water check_same stage point_to
    keep_previous discard with_digest read_bundle read_regular_bounded continue head_or rest_of
    change with_directory without_directory in_directory made_directory moved_directory remove_all
    make_directory is_free write_file can_move rename_directory read read_file sequence_text
    read_pointer with_file without_file moved_file remove_file is_absent write_root_file rename_file
    write_pointer now is_cancelled made_root open_bundle_root valid_family same_family
    valid_document in_force load_ti load_payload load_document load_envelope
    has_duplicate_object_key is_finished walk check_signature verify validate_ti_payload
    valid_records text_eq has_prefix trim_left trim_space is_space is_digit parse_digits parse_uint
    digits get put remove decimal rollback exchange is_previous
rolled_back = refl

rollback-swap_example :
    view (rollback toy toy_manager calm_world).1.disk ≡ swap (view calm_world.disk)
rollback-swap_example = rollback-swap toy toy_manager calm_world refl rolled_back

Reach-high_water_example :
    high_water full_world.disk
    ≤ high_water
        (rollback toy toy_manager (record calm_world {
          disk = (install toy toy_manager (path_of 6) signature_path full_world).1.disk;
        })).1.disk
Reach-high_water_example = Reach-high_water toy toy_manager toy-IsBounded (
    next (next here (installs (path_of 6) signature_path full_world refl)) (
      rolls_back
        (record calm_world {
          disk = (install toy toy_manager (path_of 6) signature_path full_world).1.disk;
        })
        refl))

verified_five : verify toy toy_keys (5 ∷ []) (half ++ half) (zero_time + 3) ≡ some (toy_bundle 5)
unfolding install place admit check_high_water compare_high_water check_same stage point_to
    keep_previous discard with_digest read_bundle read_regular_bounded continue head_or rest_of
    change with_directory without_directory in_directory made_directory moved_directory remove_all
    make_directory is_free write_file can_move rename_directory read read_file sequence_text
    read_pointer with_file without_file moved_file remove_file is_absent write_root_file rename_file
    write_pointer now is_cancelled made_root open_bundle_root valid_family same_family
    valid_document in_force load_ti load_payload load_document load_envelope
    has_duplicate_object_key is_finished walk check_signature verify validate_ti_payload
    valid_records text_eq has_prefix trim_left trim_space is_space is_digit parse_digits parse_uint
    digits get put remove decimal
verified_five = refl

verify-IsSigned_example :
    IsSigned toy toy_keys (5 ∷ []) (half ++ half) (toy_bundle 5)
    × ((toy_bundle 5).digest ≡ toy.sum256 (5 ∷ []))
    × ((toy_bundle 5).envelope.document.valid_from ≤ zero_time + 3)
    × (zero_time + 3 ≤ (toy_bundle 5).envelope.document.valid_until)
verify-IsSigned_example =
    verify-IsSigned toy toy_keys (5 ∷ []) (half ++ half) (zero_time + 3) (toy_bundle 5)
      verified_five

sequence_text-line_example : sequence_text (some (line (decimal 120))) ≡ some (decimal 120)
sequence_text-line_example = sequence_text-line 120 (omega arith) (omega arith)

family_known : valid_family toy_manager.family ≡ true
unfolding valid_family
family_known = refl

served_five :
    served toy toy_manager
      (root_of toy toy_manager full_world.disk.files full_world.disk.directories)
    ≡ some (toy_bundle 5)
unfolding served served_at of_sequence stored verify_stored install place admit check_high_water
    compare_high_water check_same stage point_to keep_previous discard with_digest read_bundle
    read_regular_bounded continue head_or rest_of change with_directory without_directory
    in_directory made_directory moved_directory remove_all make_directory is_free write_file
    can_move rename_directory read read_file sequence_text read_pointer with_file without_file
    moved_file remove_file is_absent write_root_file rename_file write_pointer now is_cancelled
    made_root open_bundle_root valid_family same_family valid_document in_force load_ti load_payload
    load_document load_envelope has_duplicate_object_key is_finished walk check_signature verify
    validate_ti_payload valid_records text_eq has_prefix trim_left trim_space is_space is_digit
    parse_digits parse_uint digits get put remove decimal
served_five = refl

active-served_example :
    (active toy toy_manager (quiet toy toy_manager full_world.disk [] (zero_time + 3))).0
    ≡ ok (toy_bundle 5, bundle_status toy toy_manager (toy_bundle 5) (head_or (zero_time + 3) []))
active-served_example =
    active-served toy toy_manager full_world.disk.files full_world.disk.directories []
      (zero_time + 3) (toy_bundle 5) served_five refl family_known
