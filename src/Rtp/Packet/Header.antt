-- ===== src/Rtp/Packet/Header.antt =====
-- The bytes of a header against its fields.
use espp.Prelude.{
  ℕ, ◌+◌, ◌*◌, ◌/◌, ◌%◌, ◌^◌, ◌≤◌, ◌<◌, bit_and, bit_or, ◌≡◌, refl, List, ◌∷◌, Bool, true, false,
  ◌&&◌, All, ◌==◌, arith, length, take,
}
use espp.Prelude.Bits.{or_disjoint, and_mask, every_below, every_below_sound}
use espp.Rtp.Packet.{
  RtpPacket, rtp_header_size, serialize, parse_rtp_header, u32, from_bool, to_bool,
}

-- Bytes.
abbrev pub IsBytes : List ℕ → Type 0
IsBytes = All (λ b. b < 256)

-- The twelve header bytes of a packet and what follows them.
pub record Split (bytes : List ℕ) : Type 0 where
  pub b0 : ℕ
  pub b1 : ℕ
  pub b2 : ℕ
  pub b3 : ℕ
  pub b4 : ℕ
  pub b5 : ℕ
  pub b6 : ℕ
  pub b7 : ℕ
  pub b8 : ℕ
  pub b9 : ℕ
  pub b10 : ℕ
  pub b11 : ℕ
  pub rest : List ℕ
  pub whole : bytes ≡ b0 ∷ b1 ∷ b2 ∷ b3 ∷ b4 ∷ b5 ∷ b6 ∷ b7 ∷ b8 ∷ b9 ∷ b10 ∷ b11 ∷ rest

pub split : (bytes : List ℕ) → rtp_header_size ≤ length bytes → Split bytes
split (a ∷ b ∷ c ∷ d ∷ e ∷ f ∷ g ∷ h ∷ i ∷ j ∷ k ∷ l ∷ r) p = record {
  b0 = a;
  b1 = b;
  b2 = c;
  b3 = d;
  b4 = e;
  b5 = f;
  b6 = g;
  b7 = h;
  b8 = i;
  b9 = j;
  b10 = k;
  b11 = l;
  rest = r;
  whole = refl;
}
split _ p = absurd (omega arith)

-- The masks of the first two bytes, by their tables.
masks_table :
    every_below 256 (λ b.
      (bit_and b 0xC0 / 2 ^ 6 == b / 64)
      && (bit_and b 0x20 / 2 ^ 5 == b / 32 % 2)
      && (bit_and b 0x10 / 2 ^ 4 == b / 16 % 2)
      && (bit_and b 0x80 / 2 ^ 7 == b / 128))
    ≡ true
unfolding every_below
masks_table = refl

masks :
    (b : ℕ)
    → b < 256
    → (bit_and b 0xC0 / 2 ^ 6 ≡ b / 64)
      × (bit_and b 0x20 / 2 ^ 5 ≡ b / 32 % 2)
      × (bit_and b 0x10 / 2 ^ 4 ≡ b / 16 % 2)
      × (bit_and b 0x80 / 2 ^ 7 ≡ b / 128)
masks b h = ground (arith, every_below_sound 256 _ b masks_table h)

-- A big-endian word put together from its bytes.
word_sum :
    (a b c d : ℕ)
    → a < 256
    → b < 256
    → c < 256
    → d < 256
    → bit_or (bit_or (bit_or (u32 (a * 2 ^ 24)) (b * 2 ^ 16)) (c * 2 ^ 8)) d
      ≡ a * 2 ^ 24 + b * 2 ^ 16 + c * 2 ^ 8 + d
word_sum a b c d ha hb hc hd =
    rw
      (
        or_disjoint 24 (u32 (a * 2 ^ 24)) (b * 2 ^ 16) (omega arith) (omega arith),
        or_disjoint 16 (u32 (a * 2 ^ 24) + b * 2 ^ 16) (c * 2 ^ 8) (omega arith) (omega arith),
        or_disjoint 8 (u32 (a * 2 ^ 24) + b * 2 ^ 16 + c * 2 ^ 8) d (omega arith) (omega arith),
      )
      (omega arith)

-- The fields fit their places in the header, and the vector holds a header and the payload.
pub record IsValid (p : RtpPacket) : Type 0 where
  pub version_fits : p.version < 4
  pub csrc_count_fits : p.csrc_count < 16
  pub payload_type_fits : p.payload_type < 128
  pub sequence_number_fits : p.sequence_number < 2 ^ 16
  pub timestamp_fits : p.timestamp < 2 ^ 32
  pub ssrc_fits : p.ssrc < 2 ^ 32
  pub sized : length p.packet ≡ rtp_header_size + p.payload_size
  pub addressable : length p.packet < 2 ^ 32

flags_sum :
    (v c x y : ℕ)
    → v < 4
    → x < 2
    → y < 2
    → c < 16
    → bit_or (bit_or (bit_or (u32 (v * 2 ^ 6)) (x * 2 ^ 5)) (y * 2 ^ 4)) c
      ≡ v * 64 + x * 32 + y * 16 + c
flags_sum v c x y hv hx hy hc =
    rw
      (
        or_disjoint 6 (u32 (v * 2 ^ 6)) (x * 2 ^ 5) (omega arith) (omega arith),
        or_disjoint 5 (u32 (v * 2 ^ 6) + x * 2 ^ 5) (y * 2 ^ 4) (omega arith) (omega arith),
        or_disjoint 4 (u32 (v * 2 ^ 6) + x * 2 ^ 5 + y * 2 ^ 4) c (omega arith) (omega arith),
      )
      (omega arith)

-- Both directions go through the header's bytes as arithmetic.
unfoldable pub header : RtpPacket → List ℕ → List ℕ
header p rest =
    (p.version * 64 + from_bool p.padding * 32 + from_bool p.extension * 16 + p.csrc_count)
    ∷ (from_bool p.marker * 128 + p.payload_type)
    ∷ (p.sequence_number / 2 ^ 8)
    ∷ (p.sequence_number % 2 ^ 8)
    ∷ (p.timestamp / 2 ^ 24)
    ∷ (p.timestamp / 2 ^ 16 % 2 ^ 8)
    ∷ (p.timestamp / 2 ^ 8 % 2 ^ 8)
    ∷ (p.timestamp % 2 ^ 8)
    ∷ (p.ssrc / 2 ^ 24)
    ∷ (p.ssrc / 2 ^ 16 % 2 ^ 8)
    ∷ (p.ssrc / 2 ^ 8 % 2 ^ 8)
    ∷ (p.ssrc % 2 ^ 8)
    ∷ rest

pub from_bool-lt : (b : Bool) → from_bool b < 2
from_bool-lt true = omega arith
from_bool-lt false = omega arith

pub serialize-header :
    (p : RtpPacket) (s : Split p.packet) → IsValid p → (serialize p).packet ≡ header p s.rest
unfolding serialize header
serialize-header p s v =
    rw
      (
        s.whole,
        flags_sum p.version p.csrc_count (from_bool p.padding) (from_bool p.extension)
            v.version_fits (from_bool-lt p.padding) (from_bool-lt p.extension) v.csrc_count_fits,
        or_disjoint 7 (from_bool p.marker * 2 ^ 7) p.payload_type (omega arith)
            (omega (arith, v.payload_type_fits)),
      )
      (ground (
        arith,
        and_mask 8 p.sequence_number,
        and_mask 8 (p.timestamp / 2 ^ 16),
        and_mask 8 (p.timestamp / 2 ^ 8),
        and_mask 8 p.timestamp,
        and_mask 8 (p.ssrc / 2 ^ 16),
        and_mask 8 (p.ssrc / 2 ^ 8),
        and_mask 8 p.ssrc,
      ))

pub parse-sums :
    (p : RtpPacket) (s : Split p.packet)
    → IsBytes (take rtp_header_size p.packet)
    → parse_rtp_header p ≡ record p {
      version = s.b0 / 64;
      padding = to_bool (s.b0 / 32 % 2);
      extension = to_bool (s.b0 / 16 % 2);
      csrc_count = s.b0 % 16;
      marker = to_bool (s.b1 / 128);
      payload_type = s.b1 % 128;
      sequence_number = s.b2 * 2 ^ 8 + s.b3;
      timestamp = s.b4 * 2 ^ 24 + s.b5 * 2 ^ 16 + s.b6 * 2 ^ 8 + s.b7;
      ssrc = s.b8 * 2 ^ 24 + s.b9 * 2 ^ 16 + s.b10 * 2 ^ 8 + s.b11;
    }
unfolding parse_rtp_header
parse-sums p s bytes =
    let b = rw s.whole at bytes in
    rw s.whole (
      ground (
        arith,
        masks s.b0 b.0,
        masks s.b1 (omega arith),
        and_mask 4 s.b0,
        and_mask 7 s.b1,
        or_disjoint 8 (s.b2 * 2 ^ 8) s.b3,
        word_sum s.b4 s.b5 s.b6 s.b7,
        word_sum s.b8 s.b9 s.b10 s.b11,
      ))
