-- ===== src/Bundle/Status.antt =====
-- internal/bundle/status.go and active.go: the installed bundle, and how fresh it is.
pub mod View
pub mod Current
pub mod History
pub mod Served
use ssc_init.Base.{
  ℕ, suc, ◌+◌, ◌*◌, Bool, true, false, not, ◌&&◌, ◌||◌, Option, none, some, List, [], ◌∷◌, length,
  ltb, ◌==◌, if◌then◌else◌, Text, codes, text_eq, parse_uint, decimal,
}
use ssc_init.Model.{Family}
use ssc_init.Finding.Bundle.{Freshness, missing, fresh, stale, expired, unavailable, TiRecord}
use ssc_init.Bundle.Library.{Library, Bytes, day}
use ssc_init.Bundle.Envelope.{Verified, verify_stored, valid_family, same_family}
use ssc_init.Bundle.Disk.{World, Effect, read, read_pointer, now, is_cancelled}
use ssc_init.Bundle.Lifecycle.{
  Manager, Io, pure, raise, lift, some_or, require, check_context, ◌>>=◌, ◌>>◌, active_unavailable,
  current_file, version_path, read_bundle, sequence_of, family_of,
}

abbrev pub stale_grace_period : ℕ
stale_grace_period = 7 * day

pub record Status : Type 0 where
  pub family : Family
  pub freshness : Freshness
  pub sequence : ℕ
  pub version : Text
  pub valid_until : Option ℕ
  pub digest : Text
  pub key_id : Text
  pub records : ℕ
  pub malicious : ℕ
  pub vulnerable : ℕ

unfoldable pub freshness_at : ℕ → ℕ → Freshness
freshness_at t valid_until =
    if ltb valid_until t
    then if ltb (valid_until + stale_grace_period) t then expired else stale
    else fresh

unfoldable pub count_malicious : List TiRecord → ℕ
count_malicious [] = 0
count_malicious (r ∷ rest) =
    let n = count_malicious rest in if text_eq r.verdict (codes "known-malicious") then suc n else n

unfoldable pub count_vulnerable : List TiRecord → ℕ
count_vulnerable [] = 0
count_vulnerable (r ∷ rest) =
    let n = count_vulnerable rest in
    if text_eq r.verdict (codes "known-malicious") then n else suc n

abbrev pub records_of : Option (List TiRecord) → List TiRecord
records_of none = []
records_of (some records) = records

-- A status with no bundle.
unfoldable pub base_status : Family → Freshness → Status
base_status family freshness = record {
  family = family;
  freshness = freshness;
  sequence = 0;
  version = [];
  valid_until = none;
  digest = [];
  key_id = [];
  records = 0;
  malicious = 0;
  vulnerable = 0;
}

unfoldable pub has_bundle : Status → Bool
has_bundle s = elim s.freshness [
  | missing ↦ false
  | unavailable ↦ false
  | _ ↦ not (s.sequence == 0)
]

unfoldable pub open_root : Effect (Option {0} Unit)
open_root = read (λ d. some tt)

module _ (lib : Library) (m : Manager) where
  unfoldable pub bundle_status : Verified → ℕ → Status
  bundle_status v t =
      let d = v.envelope.document in
      let records = records_of v.envelope.ti in
      record {
        family = m.family;
        freshness = freshness_at t d.valid_until;
        sequence = d.sequence;
        version = d.version;
        valid_until = some d.valid_until;
        digest = lib.encode_hex v.digest;
        key_id = d.key_id;
        records = length records;
        malicious = count_malicious records;
        vulnerable = count_vulnerable records;
      }

  unfoldable pub stored : Option (Bytes × Bytes) → Option Verified
  stored none = none
  stored (some (raw, signature)) = verify_stored lib m.keys raw signature

  -- The stored bundle, where it is this family's and has this sequence.
  unfoldable pub of_sequence : Option ℕ → Option Verified → Option Verified
  of_sequence (some sequence) (some v) =
      if sequence_of v == sequence && same_family (family_of v) m.family then some v else none
  of_sequence _ _ = none

  unfoldable pub follow : Option Text → Effect (Option Verified)
  follow none w = (none, w)
  follow (some current) w =
      let (files, w') = read_bundle (version_path current) w in
      (of_sequence (parse_uint current) (stored files), w')

  -- The bundle that the current pointer leads to.
  unfoldable pub read_current : Effect (Option Verified)
  read_current w = let (pointer, w') = read_pointer current_file w in follow pointer w'

  abbrev pub status_of : Option Verified → Io Status
  status_of none = pure (base_status m.family unavailable)
  status_of (some v) = lift now >>= λ t. pure (bundle_status v t)

  -- `os.OpenRoot(m.Layout.Root)`
  abbrev pub status_opened : Option {0} Unit → Io Status
  status_opened none = pure (base_status m.family unavailable)
  status_opened (some root) = lift read_current >>= status_of

  -- `os.Lstat(m.Layout.Root)`: no answer is an error other than that there is none.
  abbrev pub status_in : Option Bool → Io Status
  status_in none = pure (base_status m.family unavailable)
  status_in (some false) = pure (base_status m.family missing)
  status_in (some true) =
      if m.has_clock && valid_family m.family
      then lift open_root >>= status_opened
      else pure (base_status m.family unavailable)

  -- `Status`
  unfoldable pub status : Io Status
  status = do check_context; root ← lift (read (λ d. some d.exists)); status_in root

  -- `Active`
  unfoldable pub active : Io (Verified × Status)
  active = do
    s ← status
    require (has_bundle s) active_unavailable
    root ← lift open_root
    some_or root active_unavailable
    files ← lift (read_bundle (version_path (decimal s.sequence)))
    v ← some_or (of_sequence (some s.sequence) (stored files)) active_unavailable
    check_context
    pure (v, s)
