-- ===== src/Rtp/Packet.antt =====
-- components/rtsp/include/rtp_packet.hpp, class RtpPacket.
-- A member of type `int` is its 32-bit pattern, a number below 2 ^ 32. Bytes are numbers below 256.
pub mod Header
pub mod RoundTrip
pub mod Payload
use espp.Prelude.{
  ℕ, ◌+◌, ◌-◌, ◌*◌, ◌/◌, ◌%◌, ◌^◌, bit_and, bit_or, Bool, true, false, not, Option, none, some,
  List, [], ltb, leb, ◌==◌, if◌then◌else◌, length, get_or, set, take, drop, resize, write_at,
}

pub record RtpPacket : Type 0 where
  pub packet : List ℕ
  pub version : ℕ
  pub padding : Bool
  pub extension : Bool
  pub csrc_count : ℕ
  pub marker : Bool
  pub payload_type : ℕ
  pub sequence_number : ℕ
  pub timestamp : ℕ
  pub ssrc : ℕ
  pub payload_size : ℕ

abbrev pub rtp_header_size : ℕ
rtp_header_size = 12

-- The conversions to `uint8_t` and to `int`.
abbrev pub u8 : ℕ → ℕ
u8 n = n % 2 ^ 8

abbrev pub u32 : ℕ → ℕ
u32 n = n % 2 ^ 32

-- A `bool` as an `int`, and an `int` as a `bool`.
abbrev pub from_bool : Bool → ℕ
from_bool true = 1
from_bool false = 0

abbrev pub to_bool : ℕ → Bool
to_bool n = not (n == 0)

-- `RtpPacket(size_t payload_size)`; the default constructor is the one with no payload.
unfoldable pub with_payload_size : ℕ → RtpPacket
with_payload_size n = record {
  packet = resize (rtp_header_size + n) 0 [];
  version = 2;
  padding = false;
  extension = false;
  csrc_count = 0;
  marker = false;
  payload_type = 0;
  sequence_number = 0;
  timestamp = 0;
  ssrc = 0;
  payload_size = u32 n;
}

abbrev pub byte_at : List ℕ → ℕ → ℕ
byte_at bytes i = get_or bytes i 0

-- Read in the source only from a packet of at least twelve bytes.
pub parse_rtp_header : RtpPacket → RtpPacket
parse_rtp_header p = record p {
  version = bit_and (at 0) 0xC0 / 2 ^ 6;
  padding = to_bool (bit_and (at 0) 0x20 / 2 ^ 5);
  extension = to_bool (bit_and (at 0) 0x10 / 2 ^ 4);
  csrc_count = bit_and (at 0) 0x0F;
  marker = to_bool (bit_and (at 1) 0x80 / 2 ^ 7);
  payload_type = bit_and (at 1) 0x7F;
  sequence_number = bit_or (at 2 * 2 ^ 8) (at 3);
  timestamp = word 4;
  ssrc = word 8;
}
  where
    at : ℕ → ℕ
    at = byte_at p.packet

    word : ℕ → ℕ
    word i =
        bit_or (bit_or (bit_or (u32 (at i * 2 ^ 24)) (at (i + 1) * 2 ^ 16)) (at (i + 2) * 2 ^ 8))
          (at (i + 3))

-- The first two lines of `RtpPacket(std::string_view data)`; `before` is what the members held,
-- since the constructor initialises no header field.
pub store : RtpPacket → List ℕ → RtpPacket
store before bytes = record before {
  packet = bytes;
  payload_size = u32 (length bytes + 2 ^ 32 - rtp_header_size);
}

-- `RtpPacket(std::string_view data)`: data shorter than a header is not parsed.
pub from_data : RtpPacket → List ℕ → RtpPacket
unfolding store
from_data before bytes =
    if leb rtp_header_size (length bytes)
    then parse_rtp_header (store before bytes)
    else store before bytes

-- `serialize`: the assignments go to the first twelve bytes of the vector, in order.
pub serialize : RtpPacket → RtpPacket
serialize p = record p { packet = low }
  where
    flags : ℕ
    flags =
        bit_or
          (bit_or (bit_or (u32 (p.version * 2 ^ 6)) (from_bool p.padding * 2 ^ 5))
            (from_bool p.extension * 2 ^ 4))
          p.csrc_count

    kind : ℕ
    kind = bit_or (from_bool p.marker * 2 ^ 7) p.payload_type

    high : List ℕ
    high =
        set (set (set (set p.packet 0 (u8 flags)) 1 (u8 kind)) 2 (u8 (p.sequence_number / 2 ^ 8))) 3
          (u8 (bit_and p.sequence_number 0xFF))

    middle : List ℕ
    middle =
        set
          (set
            (set (set high 4 (u8 (p.timestamp / 2 ^ 24))) 5 (bit_and (p.timestamp / 2 ^ 16) 0xFF)) 6
            (bit_and (p.timestamp / 2 ^ 8) 0xFF))
          7 (bit_and p.timestamp 0xFF)

    low : List ℕ
    low =
        set
          (set (set (set middle 8 (u8 (p.ssrc / 2 ^ 24))) 9 (bit_and (p.ssrc / 2 ^ 16) 0xFF)) 10
            (bit_and (p.ssrc / 2 ^ 8) 0xFF))
          11 (bit_and p.ssrc 0xFF)

-- `none` is a view past the end of the vector.
unfoldable pub get_payload : RtpPacket → Option (List ℕ)
get_payload p =
    if ltb (length p.packet) (rtp_header_size + p.payload_size)
    then none
    else some (take p.payload_size (drop rtp_header_size p.packet))

pub set_payload : RtpPacket → List ℕ → RtpPacket
set_payload p payload = record p {
  packet = write_at rtp_header_size payload (resize (rtp_header_size + length payload) 0 p.packet);
  payload_size = u32 (length payload);
}
