-- ===== src/Ndef/Handover.antt =====
-- The records inside a handover request.
use espp.Prelude.{
  ℕ, ◌%◌, ◌^◌, ◌≡◌, refl, sym, ap, ◌∙◌, true, false, some, List, [], ◌∷◌, ◌++◌, codes, arith,
}
use mathlib.Core.List.{append-nil}
use espp.Ndef.{
  Ndef, make_handover_request, make_collision_resolution_record, make_alternative_carrier, make,
  byte,
}
use espp.Ndef.Codes.{well_known, active, power_state_code}
use espp.Ndef.Format.{read_record}
use espp.Ndef.RoundTrip.{fields, format_number, read_record-serialize}

-- A handover request is always made. Behind the version, its payload is two records: a reader
-- finds first the collision resolution with the low 16 bits of the random number, then the
-- alternative carrier that is active and refers to the carrier's data, marked as the last, and
-- nothing else. Both records are marked as the first of the message.
pub read_record-make_handover_request :
    (random carrier_data_ref : ℕ)
    → (r : Ndef) × (bytes : List ℕ) × (rest : List ℕ) × (make_handover_request random
          carrier_data_ref
        ≡ some r)
      × (r.payload ≡ 0x13 ∷ bytes)
      × (read_record bytes
          ≡ some (
            record {
              message_begin = true;
              message_end = false;
              chunked = false;
              tnf = 1;
              type = codes "cr";
              id = [];
              payload = byte 1 (random % 2 ^ 16) ∷ byte 0 (random % 2 ^ 16) ∷ [];
            },
            rest,
          ))
      × (read_record rest
          ≡ some (
            record {
              message_begin = true;
              message_end = true;
              chunked = false;
              tnf = 1;
              type = codes "ac";
              id = [];
              payload = 1 ∷ 1 ∷ byte 0 carrier_data_ref ∷ 0 ∷ [];
            },
            [],
          ))
unfolding make_handover_request make_collision_resolution_record make_alternative_carrier make
    fields power_state_code format_number
read_record-make_handover_request random ref =
    let cr = make_collision_resolution_record (random % 2 ^ 16) in
    let ac = make_alternative_carrier active ref in
    let (ac', tail, done', size', found') =
      read_record-serialize true true ac [] (omega arith) (omega arith) in
    let (cr', head, done, size, found) =
      read_record-serialize true false cr tail (omega arith) (omega arith) in
    (
      make well_known (codes "Hr") (0x13 ∷ (head ++ tail)),
      head ++ tail,
      tail,
      rw (done, done') refl,
      refl,
      found,
      ap read_record (sym (append-nil tail)) ∙ found',
    )
