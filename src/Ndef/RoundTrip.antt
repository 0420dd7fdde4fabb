-- ===== src/Ndef/RoundTrip.antt =====
-- What `serialize` writes, read by the format.
use espp.Prelude.{
  ◌/◌, ◌*◌, ℕ, ◌+◌, ◌%◌, ◌^◌, ◌≤◌, ◌<◌, ◌≡◌, refl, ap, ◌∙◌, Bool, true, false, Option, none, some,
  List, [], ◌∷◌, ◌++◌, ltb, if◌then◌else◌, length, resize, ◌>>=◌, arith, le→leb, length-append,
  length-resize, ◌↔◌, Bool-cases, inl, inr,
}
use mathlib.Core.List.{append_assoc, append-nil}
use espp.Buffer.{concat, puts-fill}
use espp.Ndef.{
  Ndef, Flags, serialize, parts, get_size, set_flags, raw, byte, length_bytes, id_length, id_bytes,
  has_id,
}
use espp.Ndef.Codes.{Tnf, tnf_code}
use espp.Ndef.Format.{Fields, read_record, payload_length, id_size, split_off-append, bit_set}

-- The format of a record, and its identifier in one byte, as numbers.
unfoldable pub format_number : Tnf → ℕ
format_number Tnf.empty = 0
format_number Tnf.well_known = 1
format_number Tnf.mime_media = 2
format_number Tnf.absolute_uri = 3
format_number Tnf.external_type = 4
format_number Tnf.unknown = 5
format_number Tnf.unchanged = 6
format_number Tnf.reserved = 7

abbrev pub identifier : Option ℕ → List ℕ
identifier none = []
identifier (some id) = id % 2 ^ 8 ∷ []

-- What a reader finds of a record.
unfoldable pub fields : Bool → Bool → Ndef → Fields
fields message_begin message_end r = record {
  message_begin = message_begin;
  message_end = message_end;
  chunked = false;
  tnf = format_number r.tnf;
  type = r.type;
  id = identifier r.id;
  payload = r.payload;
}

tnf_code-number : (t : Tnf) → tnf_code t ≡ format_number t
unfolding tnf_code format_number
tnf_code-number Tnf.empty = refl
tnf_code-number Tnf.well_known = refl
tnf_code-number Tnf.mime_media = refl
tnf_code-number Tnf.absolute_uri = refl
tnf_code-number Tnf.external_type = refl
tnf_code-number Tnf.unknown = refl
tnf_code-number Tnf.unchanged = refl
tnf_code-number Tnf.reserved = refl

id_bytes-identifier : (id : Option ℕ) → id_bytes id ≡ identifier id
unfolding id_bytes byte
id_bytes-identifier none = refl
id_bytes-identifier (some id) =
    let low : id / 2 ^ (8 * 0) % 2 ^ 8 ≡ id % 2 ^ 8 = omega arith in ap (λ b. b ∷ []) low

tnf-lt : (t : Tnf) → tnf_code t < 8
unfolding tnf_code
tnf-lt Tnf.empty = omega arith
tnf-lt Tnf.well_known = omega arith
tnf-lt Tnf.mime_media = omega arith
tnf-lt Tnf.absolute_uri = omega arith
tnf-lt Tnf.external_type = omega arith
tnf-lt Tnf.unknown = omega arith
tnf-lt Tnf.unchanged = omega arith
tnf-lt Tnf.reserved = omega arith

length-length_bytes :
    (short : Bool) (n : ℕ) → length (length_bytes short n) ≡ (if short then 1 else 4)
unfolding length_bytes
length-length_bytes true n = refl
length-length_bytes false n = refl

length-ids :
    (id : Option ℕ) → length (id_length id) + length (id_bytes id) ≡ (if has_id id then 2 else 0)
unfolding id_bytes
length-ids none = refl
length-ids (some id) = refl

length-five :
    (a b c d e : List ℕ)
    → length (a ++ (b ++ (c ++ (d ++ (e ++ [])))))
      ≡ length a + length b + length c + length d + length e
length-five a b c d e = rw (append-nil e) (
    omega (
      arith,
      length-append a (b ++ (c ++ (d ++ e))),
      length-append b (c ++ (d ++ e)),
      length-append c (d ++ e),
      length-append d e,
    ))

-- The bytes that are written, counted.
length-parts :
    (message_begin message_end : Bool) (r : Ndef)
    → length (concat (parts (set_flags message_begin message_end r))) + length r.type % 2 ^ 8
      ≡ get_size r + length r.type
unfolding parts set_flags get_size
length-parts b e r =
    let short = ltb (length r.payload) 256 in
    ground (
      arith,
      length-five (length_bytes short (length r.payload)) (id_length r.id) r.type (id_bytes r.id)
          r.payload,
      length-length_bytes short (length r.payload),
      length-ids r.id,
    )

-- Short types are written completely, and longer ones past the end of the vector.
serialize-result :
    (message_begin message_end : Bool) (r : Ndef)
    → length r.type < 256
    → serialize message_begin message_end r
      ≡ some (
        set_flags message_begin message_end r,
        concat (parts (set_flags message_begin message_end r)),
      )
unfolding serialize
serialize-result b e r h =
    let flagged = set_flags b e r in
    let size : length (concat (parts flagged)) ≡ get_size r = omega (arith, length-parts b e r) in
    rw
      (
        le→leb (length (concat (parts flagged))) (get_size r) (omega arith),
        puts-fill (parts flagged) [] (resize (get_size r) 0 [])
            (omega (arith, size, length-resize {A = ℕ} (get_size r) 0 [])),
      )
      refl

-- `serialize` writes past the end of its vector exactly for a type of 256 bytes or more.
pub serialize-fault :
    (message_begin message_end : Bool) (r : Ndef)
    → (serialize message_begin message_end r ≡ none) ↔ (256 ≤ length r.type)
unfolding serialize
serialize-fault b e r = ground (arith, length-parts b e r)

payload_length-length_bytes :
    (n : ℕ) (ys : List ℕ)
    → n < 2 ^ 32
    → payload_length (ltb n 256) (length_bytes (ltb n 256) n ++ ys) ≡ some (n, ys)
unfolding payload_length length_bytes byte
payload_length-length_bytes n ys h = elim (Bool-cases (ltb n 256)) [
  | inl at ↦ rw at (ap (λ m. some (m, ys)) (ground (arith, at)))
  | inr at ↦ rw at (ap (λ m. some (m, ys)) (omega arith))
]

id_size-id_length :
    (id : Option ℕ) (ys : List ℕ)
    → id_size (has_id id) (id_length id ++ ys) ≡ some (length (id_bytes id), ys)
unfolding id_size id_bytes
id_size-id_length none ys = refl
id_size-id_length (some id) ys = refl

record Bits (f : ℕ) (x : Flags) : Type 0 where
  sr_bit : bit_set 4 f ≡ x.sr
  il_bit : bit_set 3 f ≡ x.il
  mb_bit : bit_set 7 f ≡ x.mb
  me_bit : bit_set 6 f ≡ x.me
  cf_bit : bit_set 5 f ≡ x.cf
  tnf_bits : f % 8 ≡ x.tnf

raw-Bits : (x : Flags) → x.tnf < 8 → Bits (raw x) x
unfolding raw
raw-Bits x h = record {
  sr_bit = ground arith;
  il_bit = ground arith;
  mb_bit = ground arith;
  me_bit = ground arith;
  cf_bit = ground arith;
  tnf_bits = ground arith;
}

byte_small : (n : ℕ) → n < 256 → byte 0 n ≡ n
unfolding byte
byte_small n h = omega arith

-- The reader on the fields in their order.
read_record-steps :
    (f t : ℕ) (size_part id_part type ids payload rest : List ℕ)
    → let later = id_part ++ (type ++ (ids ++ (payload ++ rest))) in
      payload_length (bit_set 4 f) (size_part ++ later) ≡ some (length payload, later)
      → id_size (bit_set 3 f) (id_part ++ (type ++ (ids ++ (payload ++ rest))))
        ≡ some (length ids, type ++ (ids ++ (payload ++ rest)))
      → t ≡ length type
      → read_record (f ∷ t ∷ (size_part ++ (id_part ++ (type ++ (ids ++ (payload ++ rest))))))
        ≡ some (
          record {
            message_begin = bit_set 7 f;
            message_end = bit_set 6 f;
            chunked = bit_set 5 f;
            tnf = f % 8;
            type = type;
            id = ids;
            payload = payload;
          },
          rest,
        )
unfolding read_record
read_record-steps f t a c type ids payload rest pl is e =
    rw
      (
        pl,
        ◌>>=◌,
        is,
        e,
        split_off-append type (ids ++ (payload ++ rest)),
        split_off-append ids (payload ++ rest),
        split_off-append payload rest,
      )
      refl

regroup :
    (a b c d e rest : List ℕ)
    → (a ++ (b ++ (c ++ (d ++ (e ++ []))))) ++ rest ≡ a ++ (b ++ (c ++ (d ++ (e ++ rest))))
regroup a b c d e rest = simp (append_assoc, append-nil)

read_record-parts :
    (message_begin message_end : Bool) (r : Ndef) (rest : List ℕ)
    → length r.type < 256
    → length r.payload < 2 ^ 32
    → read_record (concat (parts (set_flags message_begin message_end r)) ++ rest)
      ≡ some (fields message_begin message_end r, rest)
unfolding parts set_flags fields
read_record-parts b e r rest h k =
    let x = (set_flags b e r).flags in
    let v : Bits (raw x) x = raw-Bits x (tnf-lt r.tnf) in
    let n = length r.payload in
    let short = ltb n 256 in
    let later = r.type ++ (id_bytes r.id ++ (r.payload ++ rest)) in
    let grouped =
      regroup (length_bytes short n) (id_length r.id) r.type (id_bytes r.id) r.payload rest in
    let read =
      read_record-steps (raw x) (byte 0 (length r.type)) (length_bytes short n) (id_length r.id)
        r.type (id_bytes r.id) r.payload rest
        (rw v.sr_bit (payload_length-length_bytes n (id_length r.id ++ later) k))
        (rw v.il_bit (id_size-id_length r.id later)) (byte_small (length r.type) h) in
    ap (λ bytes. read_record (raw x ∷ byte 0 (length r.type) ∷ bytes)) grouped
    ∙ read
    ∙ rw (v.mb_bit, v.me_bit, v.cf_bit, v.tnf_bits, tnf_code-number r.tnf, id_bytes-identifier r.id)
        refl

pub read_record-serialize :
    (message_begin message_end : Bool) (r : Ndef) (rest : List ℕ)
    → length r.type < 256
    → length r.payload < 2 ^ 32
    → (r' : Ndef) × (bytes : List ℕ) × (serialize message_begin message_end r ≡ some (r', bytes))
      × (length bytes ≡ get_size r)
      × (read_record (bytes ++ rest) ≡ some (fields message_begin message_end r, rest))
read_record-serialize b e r rest h k =
    let r' = set_flags b e r in
    (
      r',
      concat (parts r'),
      serialize-result b e r h,
      omega (arith, length-parts b e r),
      read_record-parts b e r rest h k,
    )
