-- ===== src/Rtp/JpegHeader.antt =====
-- components/rtsp/include/jpeg_header.hpp, class JpegHeader.
-- Bytes are numbers below 256; a `std::string_view` is the bytes that it shows.
pub mod Tables
pub mod Steps
pub mod RoundTrip
use espp.Prelude.{
  ℕ, zero, suc, ◌+◌, ◌-◌, ◌*◌, ◌/◌, ◌%◌, ◌^◌, bit_and, bit_or, Bool, Option, none, some, List, [],
  ◌∷◌, true, false, ◌==◌, if◌then◌else◌, length, get_elem?, resize, slice,
}
use espp.Buffer.{puts, concat}
use Tables.{jfif_app0_data, huffman_tables, sos}

pub record JpegHeader : Type 0 where
  pub width : ℕ
  pub height : ℕ
  pub q0_table : List ℕ
  pub q1_table : List ℕ
  pub bytes : List ℕ

abbrev pub sof0_size : ℕ
sof0_size = 19

abbrev pub dqt_header_size : ℕ
dqt_header_size = 5

-- `add_sof0`: what it writes, in order.
pub sof0 : ℕ → ℕ → List ℕ
sof0 width height =
    0xFF
    ∷ 0xC0
    ∷ 0x00
    ∷ 0x11
    ∷ 0x08
    ∷ bit_and (height / 2 ^ 8) 0xFF
    ∷ bit_and height 0xFF
    ∷ bit_and (width / 2 ^ 8) 0xFF
    ∷ bit_and width 0xFF
    ∷ 0x03
    ∷ 0x01
    ∷ 0x21
    ∷ 0x00
    ∷ 0x02
    ∷ 0x11
    ∷ 0x01
    ∷ 0x03
    ∷ 0x11
    ∷ 0x01
    ∷ []

-- `serialize`: the vector gets its size first, and then the writes.
pub serialize : JpegHeader → JpegHeader
unfolding sof0
serialize h = record h { bytes = puts 0 chunks (resize header_size 0 h.bytes) }
  where
    header_size : ℕ
    header_size =
        2
        + length jfif_app0_data
        + dqt_header_size
        + length h.q0_table
        + dqt_header_size
        + length h.q1_table
        + length huffman_tables
        + sof0_size
        + length sos

    chunks : List (List ℕ)
    chunks =
        (0xFF ∷ 0xD8 ∷ [])
        ∷ jfif_app0_data
        ∷ (0xFF ∷ 0xDB ∷ 0x00 ∷ 0x43 ∷ 0x00 ∷ [])
        ∷ h.q0_table
        ∷ (0xFF ∷ 0xDB ∷ 0x00 ∷ 0x43 ∷ 0x01 ∷ [])
        ∷ h.q1_table
        ∷ huffman_tables
        ∷ sof0 h.width h.height
        ∷ sos
        ∷ []

-- The constructor from sizes and tables.
pub from_fields : ℕ → ℕ → List ℕ → List ℕ → JpegHeader
from_fields width height q0_table q1_table = serialize (record {
  width = width;
  height = height;
  q0_table = q0_table;
  q1_table = q1_table;
  bytes = [];
})

-- How `parse` goes on: to the next statement, with the members set so far and the offset; back to
-- the caller after a message; or a read past the end of the vector.
pub data Outcome {ℓ} (A : Type ℓ) : Type ℓ where
  next : A → JpegHeader → ℕ → Outcome A
  invalid : JpegHeader → Outcome A
  fault : Outcome A

abbrev pub Parser : Type 0 → Type 0
Parser A = JpegHeader → ℕ → Outcome A

infixl 5 ◌>>=◌ ◌>>◌
abbrev ◌>>=◌ : {A B : Type 0} → Parser A → (A → Parser B) → Parser B
◌>>=◌ m f h offset = elim (m h offset) [
  | next a h' offset' ↦ f a h' offset'
  | invalid h' ↦ invalid h'
  | fault ↦ fault
]

abbrev ◌>>◌ : {B : Type 0} → Parser (Unit {0}) → Parser B → Parser B
m >> k = m >>= λ _. k

-- `data_[offset++]`.
byte : Parser ℕ
byte h offset = elim (get_elem? h.bytes offset) [ none ↦ fault | some b ↦ next b h (offset + 1) ]

-- `data_[offset++] != b0 || data_[offset++] != b1 || ..`: stops at the first byte that differs.
expect : List ℕ → Parser (Unit {0})
unfolding byte
expect [] h offset = next tt h offset
expect (b ∷ bs) h offset =
    let rest = expect bs h (offset + 1) in
    elim (get_elem? h.bytes offset) [ none ↦ fault | some c ↦ if c == b then rest else invalid h ]

list_eq : List ℕ → List ℕ → Bool
list_eq [] [] = true
list_eq (x ∷ xs) (y ∷ ys) = if x == y then list_eq xs ys else false
list_eq _ _ = false

-- `memcmp(data_.data() + offset, expected, sizeof(expected)) != 0`, and the step behind it.
compare_with : List ℕ → Parser (Unit {0})
unfolding list_eq
compare_with expected h offset = elim (slice offset (length expected) h.bytes) [
  | none ↦ fault
  | some found ↦ if list_eq found expected then next tt h (offset + length expected) else invalid h
]

-- `std::string_view(data_.data() + offset, 64)`, and the step behind it.
table : Parser (List ℕ)
table h offset = elim (slice offset 64 h.bytes) [ none ↦ fault | some t ↦ next t h (offset + 64) ]

skip : ℕ → Parser (Unit {0})
skip n h offset = next tt h (offset + n)

set_q0 : List ℕ → Parser (Unit {0})
set_q0 t h offset = next tt (record h { q0_table = t }) offset

set_q1 : List ℕ → Parser (Unit {0})
set_q1 t h offset = next tt (record h { q1_table = t }) offset

set_height : ℕ → ℕ → Parser (Unit {0})
set_height hi lo h offset = next tt (record h { height = bit_or (hi * 2 ^ 8) lo }) offset

set_width : ℕ → ℕ → Parser (Unit {0})
set_width hi lo h offset = next tt (record h { width = bit_or (hi * 2 ^ 8) lo }) offset

-- `data_.resize(offset)`.
trim : Parser (Unit {0})
trim h offset = next tt (record h { bytes = resize offset 0 h.bytes }) offset

pub parse_tables : Parser (Unit {0})
parse_tables = do
  expect (0xFF ∷ 0xD8 ∷ [])
  compare_with jfif_app0_data
  expect (0xFF ∷ 0xDB ∷ 0x00 ∷ 0x43 ∷ 0x00 ∷ [])
  q0 ← table
  set_q0 q0
  expect (0xFF ∷ 0xDB ∷ 0x00 ∷ 0x43 ∷ 0x01 ∷ [])
  q1 ← table
  set_q1 q1

pub parse_frame : Parser (Unit {0})
parse_frame = do
  expect (0xFF ∷ 0xC4 ∷ 0x00 ∷ 0x1f ∷ 0x00 ∷ [])
  skip (length huffman_tables - 5)
  expect (0xFF ∷ 0xC0 ∷ 0x00 ∷ 0x11 ∷ [])
  skip 1
  h1 ← byte
  h0 ← byte
  set_height h1 h0
  w1 ← byte
  w0 ← byte
  set_width w1 w0
  expect (0x03 ∷ 0x01 ∷ 0x21 ∷ 0x00 ∷ 0x02 ∷ 0x11 ∷ 0x01 ∷ 0x03 ∷ 0x11 ∷ 0x01 ∷ [])

pub parse_scan : Parser (Unit {0})
parse_scan = do
  expect (0xFF ∷ 0xDA ∷ 0x00 ∷ 0x0C ∷ [])
  expect (0x03 ∷ 0x01 ∷ 0x00 ∷ 0x02 ∷ 0x11 ∷ 0x03 ∷ 0x11 ∷ 0x00 ∷ 0x3F ∷ 0x00 ∷ [])
  trim

pub parse : Parser (Unit {0})
parse = do parse_tables; parse_frame; parse_scan

-- `JpegHeader(std::string_view data)`. It initialises neither size: `before` is what the members
-- held. `none` is a read past the end; a header that is refused part way is the one so far.
pub from_bytes : JpegHeader → List ℕ → Option JpegHeader
from_bytes before data_bytes =
    elim (parse (record before { q0_table = []; q1_table = []; bytes = data_bytes }) 0) [
      | next _ h _ ↦ some h
      | invalid h ↦ some h
      | fault ↦ none
    ]
