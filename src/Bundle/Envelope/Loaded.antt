-- ===== src/Bundle/Envelope/Loaded.antt =====
-- internal/bundle/model.go and verify.go: what a bundle that is verified satisfies.
use ssc_init.Base.{
  ℕ, ◌<◌, ◌≤◌, true, ◌&&◌, Option, none, some, ◌≡◌, refl, sym, ap, ◌∙◌, inl, inr, get, Bool-cases,
  Option-cases, length, u64, arith,
}
use ssc_init.Model.{Family, ti, policy, other}
use ssc_init.Bundle.Library.{Library, Bytes, Document}
use ssc_init.Bundle.Envelope.{
  Envelope, Verified, KeyRegistry, valid_document, in_force, load_ti, load_policy, load_payload,
  load_document, load_envelope, check_signature, verify, verify_stored,
}

module _ (lib : Library) where
  -- `encoding/json` decodes a sequence into 64 bits.
  abbrev pub IsBounded : Type 0
  IsBounded = (raw : Bytes) (d : Document) → lib.decode_document raw ≡ some d → d.sequence < u64

  load_ti-document : (d : Document) (e : Envelope) → load_ti lib d ≡ some e → e.document ≡ d
  unfolding load_ti
  load_ti-document d e h = ground arith

  load_policy-document : (d : Document) (e : Envelope) → load_policy lib d ≡ some e → e.document ≡ d
  unfolding load_policy
  load_policy-document d e h = ground arith

  load_payload-document :
      (f : Family) (d : Document) (e : Envelope) → load_payload lib f d ≡ some e → e.document ≡ d
  unfolding load_payload
  load_payload-document ti d e h = load_ti-document d e h
  load_payload-document policy d e h = load_policy-document d e h
  load_payload-document (other name) d e h = ground arith

  load_document-document :
      (now : Option ℕ) (o : Option Document) (e : Envelope)
      → load_document lib now o ≡ some e
      → (o ≡ some e.document)
        × (valid_document e.document ≡ true)
        × (in_force now e.document ≡ true)
  unfolding load_document
  load_document-document now none e h = cc
  load_document-document now (some d) e h = elim (Bool-cases (valid_document d && in_force now d)) [
    | inl t ↦
        let same : e.document ≡ d = load_payload-document d.family d e (ground arith) in
        rw same (refl, ground arith, ground arith)
    | inr f ↦ ground arith
  ]

  load_envelope-document :
      (raw : Bytes) (now : Option ℕ) (e : Envelope)
      → load_envelope lib raw now ≡ some e
      → load_document lib now (lib.decode_document raw) ≡ some e
  unfolding load_envelope
  load_envelope-document raw now e h = ground arith

  -- A document that is in force at an instant is read in the same way at none.
  load_document_stored :
      (t : ℕ) (o : Option Document) (e : Envelope)
      → load_document lib (some t) o ≡ some e
      → load_document lib none o ≡ some e
  unfolding load_document in_force
  load_document_stored t none e h = cc
  load_document_stored t (some d) e h = ground arith

  load_envelope_stored :
      (raw : Bytes) (t : ℕ) (e : Envelope)
      → load_envelope lib raw (some t) ≡ some e
      → load_envelope lib raw none ≡ some e
  unfolding load_envelope
  load_envelope_stored raw t e h =
      ground (arith, load_document_stored t (lib.decode_document raw) e)

module _ (lib : Library) (keys : KeyRegistry) where
  check_signature-envelope :
      (raw signature : Bytes) (o : Option Envelope) (v : Verified)
      → check_signature lib keys raw signature o ≡ some v
      → o ≡ some v.envelope
  unfolding check_signature
  check_signature-envelope raw signature none v h = cc
  check_signature-envelope raw signature (some e) v h = ground arith

  -- A registered key of 32 bytes signs the bytes with a signature of 64 bytes.
  abbrev pub IsSigned : Bytes → Bytes → Verified → Type 0
  IsSigned raw signature v =
      (key : Bytes) × (get v.envelope.document.key_id (keys v.envelope.document.family) ≡ some key)
      × (length key ≡ 32)
      × (length signature ≡ 64)
      × (lib.verify_signature key raw signature ≡ true)

  check_signature-key :
      (raw signature : Bytes) (o : Option Envelope) (v : Verified)
      → check_signature lib keys raw signature o ≡ some v
      → IsSigned raw signature v × (v.digest ≡ lib.sum256 raw)
  unfolding check_signature
  check_signature-key raw signature none v h = cc
  check_signature-key raw signature (some e) v h =
      elim (Option-cases (get e.document.key_id (keys e.document.family))) [
        | inl n ↦ absurd (ground arith)
        | inr (key, k) ↦
            let same : v.envelope ≡ e = ground arith in
            ((key, rw same k, ground arith, ground arith, ground arith), ground arith)
      ]

  module _ (raw signature : Bytes) (t : ℕ) (v : Verified)
      (h : verify lib keys raw signature t ≡ some v) where
    -- A bundle that is verified at an instant is verified when it is read back from the disk.
    pub verify_stored-verify : verify_stored lib keys raw signature ≡ some v
    unfolding verify verify_stored
    verify_stored-verify =
        let e = check_signature-envelope raw signature (load_envelope lib raw (some t)) v h in
        ap (check_signature lib keys raw signature)
          (load_envelope_stored lib raw t v.envelope e ∙ sym e)
        ∙ h

    pub verify-document :
        (lib.decode_document raw ≡ some v.envelope.document)
        × (valid_document v.envelope.document ≡ true)
        × (in_force (some t) v.envelope.document ≡ true)
    unfolding verify
    verify-document = load_document-document lib (some t) (lib.decode_document raw) v.envelope (
        load_envelope-document lib raw (some t) v.envelope
          (check_signature-envelope raw signature (load_envelope lib raw (some t)) v h))

    -- A bundle that Verify accepts is signed, with 64 bytes, by a key of 32 bytes that the registry
    -- holds for its family and key identifier, has the digest of its bytes, and is in force.
    pub verify-IsSigned :
        IsSigned raw signature v
        × (v.digest ≡ lib.sum256 raw)
        × (v.envelope.document.valid_from ≤ t)
        × (t ≤ v.envelope.document.valid_until)
    unfolding verify in_force
    verify-IsSigned =
        let d = verify-document in
        let k = check_signature-key raw signature (load_envelope lib raw (some t)) v h in
        (k.0, k.1, ground arith, ground arith)

    pub verify-positive : 0 < v.envelope.document.sequence
    unfolding valid_document
    verify-positive = let d = verify-document in ground arith

    pub verify-bounded : IsBounded lib → v.envelope.document.sequence < u64
    verify-bounded bounded = bounded raw v.envelope.document verify-document.0
