-- ===== src/Bundle/Payload/Records.antt =====
-- internal/bundle/ti.go: the records of a payload that is accepted.
use ssc_init.Base.{
  ◌≤◌, true, false, ◌&&◌, List, [], ◌∷◌, ◌≡◌, ◌≢◌, refl, ◌↔◌, map, All, length, leb, Text,
  text_eq_iff, arith, IsDistinct,
}
use ssc_init.Finding.Bundle.{TiRecord}
use ssc_init.Bundle.Library.{Library}
use ssc_init.Bundle.Payload.{seen_before, valid_record, valid_records, validate_ti_payload}

-- None of the records has an identifier that was seen.
abbrev AreNew : List Text → List TiRecord → Type 0
AreNew seen records = All (λ r. seen_before r.id seen ≡ false) records

abbrev ids : List TiRecord → List Text
ids records = map (λ r. r.id) records

AreNew-cons :
    (id : Text) (seen : List Text) (records : List TiRecord)
    → AreNew (id ∷ seen) records
    → AreNew seen records × All (λ y. id ≢ y) (ids records)
unfolding seen_before
AreNew-cons id seen [] h = (tt, tt)
AreNew-cons id seen (r ∷ records) (h, hs) =
    let later = AreNew-cons id seen records hs in
    ((ground arith, later.0), ((λ e. ground (arith, text_eq_iff r.id id)), later.1))

cons-AreNew :
    (id : Text) (seen : List Text) (records : List TiRecord)
    → AreNew seen records
    → All (λ y. id ≢ y) (ids records)
    → AreNew (id ∷ seen) records
unfolding seen_before
cons-AreNew id seen [] h d = tt
cons-AreNew id seen (r ∷ records) (h, hs) (d, ds) =
    (ground (arith, text_eq_iff r.id id), cons-AreNew id seen records hs ds)

module _ (lib : Library) where
  valid_records_sound :
      (seen : List Text) (records : List TiRecord)
      → valid_records lib seen records ≡ true
      → All (λ r. valid_record lib r ≡ true) records
        × AreNew seen records
        × IsDistinct (ids records)
  unfolding valid_records
  valid_records_sound seen [] h = (tt, tt, tt)
  valid_records_sound seen (r ∷ records) h =
      let later = valid_records_sound (r.id ∷ seen) records (ground arith) in
      let apart = AreNew-cons r.id seen records later.1 in
      ((ground arith, later.0), (ground arith, apart.0), (apart.1, later.2))

  valid_records_complete :
      (seen : List Text) (records : List TiRecord)
      → All (λ r. valid_record lib r ≡ true) records
      → AreNew seen records
      → IsDistinct (ids records)
      → valid_records lib seen records ≡ true
  unfolding valid_records
  valid_records_complete seen [] v n d = refl
  valid_records_complete seen (r ∷ records) (v, vs) (n, ns) (d, ds) =
      let later =
        valid_records_complete (r.id ∷ seen) records vs (cons-AreNew r.id seen records ns d) ds in
      ground arith

  no_ids_seen : (records : List TiRecord) → AreNew [] records
  unfolding seen_before
  no_ids_seen [] = tt
  no_ids_seen (r ∷ records) = (refl, no_ids_seen records)

  -- A payload of records is accepted exactly when it has at most 100000 of them, each passes the checks of
  -- its own fields, and no two have the same identifier.
  pub validate_ti_payload_iff :
      (records : List TiRecord)
      → (validate_ti_payload lib records ≡ true) ↔ (
          (length records ≤ 100000)
          × All (λ r. valid_record lib r ≡ true) records
          × IsDistinct (map (λ r. r.id) records))
  unfolding validate_ti_payload
  validate_ti_payload_iff records = (sound, complete)
    where
      sound :
          leb (length records) 100000 && valid_records lib [] records ≡ true
          → (length records ≤ 100000)
            × All (λ r. valid_record lib r ≡ true) records
            × IsDistinct (map (λ r. r.id) records)
      sound h =
          let all_valid = valid_records_sound [] records (ground arith) in
          (ground arith, all_valid.0, all_valid.2)

      complete :
          (length records ≤ 100000)
            × All (λ r. valid_record lib r ≡ true) records
            × IsDistinct (map (λ r. r.id) records)
          → leb (length records) 100000 && valid_records lib [] records ≡ true
      complete (n, v, d) =
          let valid = valid_records_complete [] records v (no_ids_seen records) d in ground arith
