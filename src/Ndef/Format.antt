-- ===== src/Ndef/Format.antt =====
-- A reader of NDEF records that follows the table of the format, not the code that writes them.
use espp.Prelude.{
  ℕ, ◌+◌, ◌*◌, ◌/◌, ◌%◌, ◌^◌, ◌≡◌, refl, Bool, true, false, Option, none, some, List, [], ◌∷◌, ◌++◌,
  leb, ◌==◌, if◌then◌else◌, length, take, drop, ◌>>=◌, arith, le→leb, length-append, take-append,
  drop-append,
}

-- One record of a message.
pub record Fields : Type 0 where
  pub message_begin : Bool
  pub message_end : Bool
  pub chunked : Bool
  pub tnf : ℕ
  pub type : List ℕ
  pub id : List ℕ
  pub payload : List ℕ

abbrev pub pop : List ℕ → Option (ℕ × List ℕ)
pop [] = none
pop (b ∷ bytes) = some (b, bytes)

unfoldable pub split_off : ℕ → List ℕ → Option (List ℕ × List ℕ)
split_off n bytes = if leb n (length bytes) then some (take n bytes, drop n bytes) else none

-- Bit `k` of a byte.
abbrev pub bit_set : ℕ → ℕ → Bool
bit_set k b = b / 2 ^ k % 2 == 1

-- The length of the payload: one byte for a short record, else four.
unfoldable pub payload_length : Bool → List ℕ → Option (ℕ × List ℕ)
payload_length true bytes = pop bytes
payload_length false bytes = do
  (b3, r3) ← pop bytes
  (b2, r2) ← pop r3
  (b1, r1) ← pop r2
  (b0, r0) ← pop r1
  some (b3 * 2 ^ 24 + b2 * 2 ^ 16 + b1 * 2 ^ 8 + b0, r0)

unfoldable pub id_size : Bool → List ℕ → Option (ℕ × List ℕ)
id_size false bytes = some (0, bytes)
id_size true bytes = pop bytes

-- The fields of the first record, and the bytes behind it.
unfoldable pub read_record : List ℕ → Option (Fields × List ℕ)
read_record bytes = do
  (flags, r0) ← pop bytes
  (type_size, r1) ← pop r0
  (payload_size, r2) ← payload_length (bit_set 4 flags) r1
  (id_count, r3) ← id_size (bit_set 3 flags) r2
  (type, r4) ← split_off type_size r3
  (id, r5) ← split_off id_count r4
  (payload, r6) ← split_off payload_size r5
  some (
    record {
      message_begin = bit_set 7 flags;
      message_end = bit_set 6 flags;
      chunked = bit_set 5 flags;
      tnf = flags % 8;
      type = type;
      id = id;
      payload = payload;
    },
    r6,
  )

pub split_off-append : (xs ys : List ℕ) → split_off (length xs) (xs ++ ys) ≡ some (xs, ys)
unfolding split_off
split_off-append xs ys =
    rw
      (
        le→leb (length xs) (length (xs ++ ys)) (omega (arith, length-append xs ys)),
        take-append xs ys,
        drop-append xs ys,
      )
      refl
