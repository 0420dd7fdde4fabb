-- ===== src/Rtp/JpegPacket.antt =====
-- components/rtsp/include/rtp_jpeg_packet.hpp, class RtpJpegPacket (RFC 2435).
-- A `std::string_view` is the bytes that it shows; a read or a view past the end is `none`. Whether
-- `char` has a sign is up to the target, and an argument of the parser; an `int` is its pattern of
-- 32 bits.
mod Parse
mod Bytes
pub mod RoundTrip
pub mod Readable
use espp.Prelude.{
  ◌&&◌, ℕ, ◌+◌, ◌-◌, ◌*◌, ◌/◌, ◌%◌, ◌^◌, bit_and, bit_or, Bool, Option, none, some, List, [], ◌∷◌,
  ltb, leb, ◌==◌, if◌then◌else◌, length, get_elem?, set, take, drop, write_at, ◌>>=◌, slice,
}
use espp.Buffer.{puts}
use espp.Rtp.Packet.{RtpPacket, rtp_header_size, with_payload_size, from_data, get_payload, u8, u32}

pub record RtpJpegPacket : Type 0 where
  pub rtp : RtpPacket
  pub type_specific : ℕ
  pub offset : ℕ
  pub frag_type : ℕ
  pub q : ℕ
  pub width : ℕ
  pub height : ℕ
  pub jpeg_data_start : ℕ
  pub jpeg_data_size : ℕ
  pub q_tables : List (List ℕ)

abbrev pub mjpeg_header_size : ℕ
mjpeg_header_size = 8

abbrev pub quant_header_size : ℕ
quant_header_size = 4

abbrev pub num_q_tables : ℕ
num_q_tables = 2

abbrev pub q_table_size : ℕ
q_table_size = 64

abbrev pub payload_offset_no_quant : ℕ
payload_offset_no_quant = mjpeg_header_size

abbrev pub payload_offset_with_quant : ℕ
payload_offset_with_quant = mjpeg_header_size + quant_header_size + num_q_tables * q_table_size

-- The eight bytes that `serialize_mjpeg_header` writes behind the RTP header.
pub serialize_mjpeg_header : RtpJpegPacket → RtpJpegPacket
serialize_mjpeg_header p = record p {
  rtp = record rtp { packet = puts rtp_header_size fields rtp.packet };
}
  where
    rtp : RtpPacket
    rtp = p.rtp

    fields : List (List ℕ)
    fields =
        (u8 p.type_specific ∷ [])
        ∷ (bit_and (p.offset / 2 ^ 16) 0xff ∷ [])
        ∷ (bit_and (p.offset / 2 ^ 8) 0xff ∷ [])
        ∷ (bit_and p.offset 0xff ∷ [])
        ∷ (u8 p.frag_type ∷ [])
        ∷ (u8 p.q ∷ [])
        ∷ (u8 (p.width / 8) ∷ [])
        ∷ (u8 (p.height / 8) ∷ [])
        ∷ []

-- `memcpy` takes `Q_TABLE_SIZE` bytes from each table.
pub serialize_q_tables : RtpJpegPacket → List ℕ → List ℕ → Option RtpJpegPacket
serialize_q_tables p q0 q1 = do
  t0 ← slice 0 q_table_size q0
  t1 ← slice 0 q_table_size q1
  let fields = (0 ∷ 0 ∷ 0 ∷ u8 (num_q_tables * q_table_size) ∷ []) ∷ t0 ∷ t1 ∷ []
  let rtp = p.rtp
  some (record p {
    rtp = record rtp { packet = puts (rtp_header_size + mjpeg_header_size) fields rtp.packet };
    q_tables = t0 ∷ t1 ∷ [];
  })

-- The members that both constructors from fields set before they write the packet.
abbrev blank : ℕ → ℕ → ℕ → ℕ → ℕ → ℕ → ℕ → List ℕ → RtpJpegPacket
blank start type_specific offset frag_type q width height scan_data = record {
  rtp = with_payload_size (start + length scan_data);
  type_specific = u8 type_specific;
  offset = u32 offset;
  frag_type = u8 frag_type;
  q = u8 q;
  width = u32 width;
  height = u32 height;
  jpeg_data_start = start;
  jpeg_data_size = u32 (length scan_data);
  q_tables = [];
}

-- The last `memcpy` of both constructors.
pub put_scan : RtpJpegPacket → List ℕ → RtpJpegPacket
put_scan p scan_data =
    let rtp = p.rtp in
    record p {
      rtp = record rtp {
        packet = write_at (p.jpeg_data_start + rtp_header_size) scan_data rtp.packet;
      };
    }

-- The constructor for the first packet of a frame, with quantization tables.
pub first_packet : ℕ → ℕ → ℕ → ℕ → ℕ → List ℕ → List ℕ → List ℕ → Option RtpJpegPacket
unfolding serialize_mjpeg_header serialize_q_tables put_scan
first_packet type_specific frag_type q width height q0 q1 scan_data = do
  let p = blank payload_offset_with_quant type_specific 0 frag_type q width height scan_data
  p' ← serialize_q_tables (serialize_mjpeg_header p) q0 q1
  some (put_scan p' scan_data)

-- The constructor for the packets that follow.
pub later_packet : ℕ → ℕ → ℕ → ℕ → ℕ → ℕ → List ℕ → RtpJpegPacket
unfolding serialize_mjpeg_header put_scan
later_packet type_specific offset frag_type q width height scan_data =
    put_scan
      (serialize_mjpeg_header
        (blank payload_offset_no_quant type_specific offset frag_type q width height scan_data))
      scan_data

-- `q_ >= 128`, for the pattern of an `int`.
pub has_q_tables : ℕ → Bool
has_q_tables q = leb 128 q && ltb q (2 ^ 31)

unfoldable pub get_q_table : RtpJpegPacket → ℕ → List ℕ
get_q_table p index = at p.q_tables index
  where
    at : List (List ℕ) → ℕ → List ℕ
    at tables i = elim (get_elem? tables i) [ none ↦ [] | some table ↦ table ]

pub set_q_table : RtpJpegPacket → ℕ → List ℕ → RtpJpegPacket
set_q_table p index q_table = record p { q_tables = set p.q_tables index q_table }

pub data CharKind : Type 0 where
  unsigned_char signed_char : CharKind

-- A byte of the payload as an `int`, and eight times it.
unfoldable pub as_int : CharKind → ℕ → ℕ
as_int unsigned_char b = b
as_int signed_char b = if ltb b 128 then b else b + (2 ^ 32 - 256)

unfoldable pub eightfold : CharKind → ℕ → ℕ
eightfold unsigned_char b = b * 8
eightfold signed_char b = as_int signed_char b * 8 % 2 ^ 32

unfoldable pub three_bytes : CharKind → ℕ → ℕ → ℕ → ℕ
three_bytes unsigned_char b1 b2 b3 = bit_or (bit_or (b1 * 2 ^ 16) (b2 * 2 ^ 8)) b3
three_bytes signed_char b1 b2 b3 =
    bit_or
      (bit_or (as_int signed_char b1 * 2 ^ 16 % 2 ^ 32) (as_int signed_char b2 * 2 ^ 8 % 2 ^ 32))
      (as_int signed_char b3)

-- The tables and where the scan begins.
parse_q_tables : ℕ → List ℕ → Option (List (List ℕ) × ℕ)
unfolding has_q_tables
parse_q_tables q payload =
    if has_q_tables q
    then (do
      num_quant_bytes ← get_elem? payload 11
      let offset = mjpeg_header_size + quant_header_size
      let tables = (do
        q0 ← slice offset q_table_size payload
        q1 ← slice (offset + q_table_size) q_table_size payload
        some (q0 ∷ q1 ∷ [], offset + num_q_tables * q_table_size))
      if num_quant_bytes == num_q_tables * q_table_size
          then tables
          else some ([], mjpeg_header_size))
    else some ([], mjpeg_header_size)

pub parse_mjpeg_header : CharKind → RtpPacket → Option RtpJpegPacket
unfolding parse_q_tables as_int eightfold three_bytes
parse_mjpeg_header kind rtp = do
  payload ← get_payload rtp
  b0 ← get_elem? payload 0
  b1 ← get_elem? payload 1
  b2 ← get_elem? payload 2
  b3 ← get_elem? payload 3
  b4 ← get_elem? payload 4
  b5 ← get_elem? payload 5
  b6 ← get_elem? payload 6
  b7 ← get_elem? payload 7
  found ← parse_q_tables (as_int kind b5) payload
  let (tables, start) = found
  some (record {
    rtp = rtp;
    type_specific = as_int kind b0;
    offset = three_bytes kind b1 b2 b3;
    frag_type = as_int kind b4;
    q = as_int kind b5;
    width = eightfold kind b6;
    height = eightfold kind b7;
    jpeg_data_start = start;
    jpeg_data_size = u32 (length payload + 2 ^ 32 - start);
    q_tables = tables;
  })

-- `RtpJpegPacket(std::string_view data)`.
pub from_packet : CharKind → RtpPacket → List ℕ → Option RtpJpegPacket
unfolding parse_mjpeg_header
from_packet kind before bytes = parse_mjpeg_header kind (from_data before bytes)

pub get_jpeg_data : RtpJpegPacket → Option (List ℕ)
get_jpeg_data p = do payload ← get_payload p.rtp; slice p.jpeg_data_start p.jpeg_data_size payload
