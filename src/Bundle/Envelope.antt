-- ===== src/Bundle/Envelope.antt =====
-- internal/bundle/model.go and verify.go: the reading and the verification of a bundle.
pub mod Loaded
use ssc_init.Base.{
  ℕ, ◌*◌, ◌^◌, Bool, true, false, not, ◌&&◌, ◌||◌, Option, none, some, List, [], ◌∷◌, length,
  is_empty, ltb, ◌==◌, if◌then◌else◌, Text, codes, text_eq, byte_length, Dict, get, ◌>>=◌,
}
use ssc_init.Model.{Family, ti, policy, other}
use ssc_init.Finding.Bundle.{TiRecord, PolicyPayload}
use ssc_init.Bundle.Library.{Library, Bytes, Document, PolicyDocument, zero_time}
use ssc_init.Bundle.Tokens.{has_duplicate_object_key}
use ssc_init.Bundle.Payload.{validate_ti_payload, validate_policy_payload}

-- `Envelope`, with the payload that its family selects.
pub record Envelope : Type 0 where
  pub document : Document
  pub ti : Option (List TiRecord)
  pub policy : Option PolicyPayload

-- `maxBundleBytes`: 16 << 20
abbrev pub max_bundle_bytes : ℕ
max_bundle_bytes = 16 * 2 ^ 20

unfoldable pub valid_family : Family → Bool
valid_family ti = true
valid_family policy = true
valid_family (other name) = false

unfoldable pub same_family : Family → Family → Bool
same_family ti ti = true
same_family policy policy = true
same_family (other a) (other b) = text_eq a b
same_family _ _ = false

unfoldable pub valid_document : Document → Bool
valid_document d =
    text_eq d.schema_version (codes "ssc-init.bundle.v1")
    && valid_family d.family
    && not (is_empty d.version)
    && not (ltb 128 (byte_length d.version))
    && not (d.sequence == 0)
    && not (is_empty d.key_id)
    && not (ltb 128 (byte_length d.key_id))
    && not (d.generated_at == zero_time)
    && not (d.valid_from == zero_time)
    && not (d.valid_until == zero_time)
    && not (ltb d.valid_until d.valid_from)

-- Whether the document is in force. A stored bundle is read at no instant.
unfoldable pub in_force : Option ℕ → Document → Bool
in_force none d = true
in_force (some now) d = not (ltb now d.valid_from) && not (ltb d.valid_until now)

-- None of the four lists is nil.
unfoldable pub complete_policy : PolicyDocument → Option PolicyPayload
complete_policy p = do
  denies ← p.denies
  allows ← p.allows
  exceptions ← p.exceptions
  tests ← p.tests
  some (record {
    denies = denies;
    allows = allows;
    exceptions = exceptions;
    tests = tests;
    retention = p.retention;
  })

-- `Verified`
pub record Verified : Type 0 where
  pub envelope : Envelope
  pub digest : Bytes

module _ (lib : Library) where
  unfoldable pub load_ti : Document → Option Envelope
  load_ti d = do
    decoded ← lib.decode_ti d.payload
    records ← decoded
    if validate_ti_payload lib records
        then some (record { document = d; ti = some records; policy = none })
        else none

  unfoldable pub load_policy : Document → Option Envelope
  load_policy d = do
    decoded ← lib.decode_policy d.payload
    payload ← complete_policy decoded
    if validate_policy_payload lib payload d.generated_at
        then some (record { document = d; ti = none; policy = some payload })
        else none

  -- The switch on the family, which is a valid one here.
  unfoldable pub load_payload : Family → Document → Option Envelope
  load_payload ti d = load_ti d
  load_payload policy d = load_policy d
  load_payload (other name) d = some (record { document = d; ti = none; policy = none })

  unfoldable pub load_document : Option ℕ → Option Document → Option Envelope
  load_document now none = none
  load_document now (some d) =
      if valid_document d && in_force now d then load_payload d.family d else none

  -- `loadEnvelope`
  unfoldable pub load_envelope : Bytes → Option ℕ → Option Envelope
  load_envelope raw now =
      if is_empty raw
        || ltb max_bundle_bytes (length raw)
        || has_duplicate_object_key (lib.tokens raw)
      then none
      else load_document now (lib.decode_document raw)

-- `KeyRegistry`
abbrev pub KeyRegistry : Type 0
KeyRegistry = Family → Dict Bytes

-- A key that the registry does not hold is nil.
abbrev pub key_or_nil : Option Bytes → Bytes
key_or_nil none = []
key_or_nil (some key) = key

module _ (lib : Library) (keys : KeyRegistry) where
  -- `Verifier.verify`
  unfoldable pub check_signature : Bytes → Bytes → Option Envelope → Option Verified
  check_signature raw signature none = none
  check_signature raw signature (some e) =
      let key = key_or_nil (get e.document.key_id (keys e.document.family)) in
      if length signature == 64 && length key == 32 && lib.verify_signature key raw signature
      then some (record { envelope = e; digest = lib.sum256 raw })
      else none

  -- `Verifier.Verify`
  unfoldable pub verify : Bytes → Bytes → ℕ → Option Verified
  verify raw signature now = check_signature raw signature (load_envelope lib raw (some now))

  -- `Verifier.verifyStored`
  unfoldable pub verify_stored : Bytes → Bytes → Option Verified
  verify_stored raw signature = check_signature raw signature (load_envelope lib raw none)
