-- ===== src/Rtp/Packet/RoundTrip.antt =====
-- What the header carries across the wire, in both directions.
use espp.Prelude.{
  ℕ, ◌+◌, ◌/◌, ◌%◌, ◌^◌, ◌≤◌, ◌<◌, ◌≡◌, refl, ap, List, Bool, true, false, le→leb, ◌∙◌, arith,
  length, take, drop,
}
use espp.Rtp.Packet.{
  RtpPacket, rtp_header_size, from_data, serialize, store, parse_rtp_header, get_payload, from_bool,
  to_bool,
}
use espp.Rtp.Packet.Header.{
  IsBytes, Split, split, IsValid, header, from_bool-lt, serialize-header, parse-sums,
}

to_bool-from_bool : (b : Bool) → to_bool (from_bool b) ≡ b
to_bool-from_bool true = refl
to_bool-from_bool false = refl

header-parse :
    (p : RtpPacket) (s : Split p.packet)
    → IsBytes (take rtp_header_size p.packet)
    → header (parse_rtp_header p) s.rest ≡ p.packet
unfolding header
header-parse p s bytes =
    let b = rw s.whole at bytes in rw (parse-sums p s bytes) (ground (arith, s.whole))

parse-IsValid :
    (p : RtpPacket) (s : Split p.packet)
    → IsBytes (take rtp_header_size p.packet)
    → length p.packet ≡ rtp_header_size + p.payload_size
    → length p.packet < 2 ^ 32
    → IsValid (parse_rtp_header p)
parse-IsValid p s bytes sized small =
    let b = rw s.whole at bytes in rw (parse-sums p s bytes) (omega arith)

-- Reading a packet and writing its header again gives the same bytes, so no bit of the header is
-- lost, where the packet holds at least a header, of bytes, and fewer than 2 ^ 32 bytes.
pub serialize-from_data :
    (before : RtpPacket) (bytes : List ℕ)
    → IsBytes (take rtp_header_size bytes)
    → rtp_header_size ≤ length bytes
    → length bytes < 2 ^ 32
    → (serialize (from_data before bytes)).packet ≡ bytes
unfolding from_data parse_rtp_header
serialize-from_data before bytes b enough small =
    let q = store before bytes in
    let s : Split bytes = split bytes enough in
    rw (le→leb rtp_header_size (length bytes) enough) (
      serialize-header (parse_rtp_header q) s (parse-IsValid q s b (omega arith) small)
      ∙ header-parse q s b)

length-header : (p : RtpPacket) (rest : List ℕ) → length (header p rest) ≡ 12 + length rest
unfolding header
length-header p rest = omega arith

header_split : (p : RtpPacket) (rest : List ℕ) → Split (header p rest)
unfolding header
header_split p rest = record {
  b0 = _;
  b1 = _;
  b2 = _;
  b3 = _;
  b4 = _;
  b5 = _;
  b6 = _;
  b7 = _;
  b8 = _;
  b9 = _;
  b10 = _;
  b11 = _;
  rest = rest;
  whole = refl;
}

header-IsBytes :
    (p : RtpPacket) (rest : List ℕ) → IsValid p → IsBytes (take rtp_header_size (header p rest))
unfolding header
header-IsBytes p rest v =
    ground (arith, from_bool-lt p.padding, from_bool-lt p.extension, from_bool-lt p.marker, v)

bit_back : (b : Bool) (n : ℕ) → n ≡ from_bool b → to_bool n ≡ b
bit_back true n e = rw e
bit_back false n e = rw e

parse-header :
    (p q : RtpPacket) (rest : List ℕ)
    → IsValid p
    → q.packet ≡ header p rest
    → parse_rtp_header q ≡ record p { packet = q.packet; payload_size = q.payload_size }
unfolding header header_split
parse-header p q rest v e =
    let s : Split q.packet = rw e (header_split p rest) in
    rw (parse-sums q s (rw e (header-IsBytes p rest v))) (
      ground (
        arith,
        bit_back p.padding (s.b0 / 32 % 2)
            (omega (arith, from_bool-lt p.padding, from_bool-lt p.extension, v)),
        bit_back p.extension (s.b0 / 16 % 2) (omega (arith, from_bool-lt p.extension, v)),
        bit_back p.marker (s.b1 / 128) (omega (arith, v)),
        from_bool-lt p.padding,
        from_bool-lt p.extension,
        v,
      ))

serialize_keeps : (p : RtpPacket) → serialize p ≡ record p { packet = (serialize p).packet }
unfolding serialize
serialize_keeps p = refl

-- Writing a valid packet's header and reading the bytes back gives every field and the payload
-- size again, whatever the members held before.
pub from_data-serialize :
    (before p : RtpPacket) → IsValid p → from_data before (serialize p).packet ≡ serialize p
unfolding from_data
from_data-serialize before p v =
    let s : Split p.packet = split p.packet (omega (arith, v.sized)) in
    let e = serialize-header p s v in
    let bytes = (serialize p).packet in
    let same : length bytes ≡ length p.packet =
      omega (arith, ap length e, ap length s.whole, length-header p s.rest) in
    let sized = v.sized in
    let small = v.addressable in
    rw (le→leb rtp_header_size (length bytes) (omega arith)) (
      rw (parse-header p (store before bytes) s.rest v e)
        (rw (serialize_keeps p) (ground (arith, same))))

-- `serialize` touches no byte behind the header.
pub get_payload-serialize : (p : RtpPacket) → IsValid p → get_payload (serialize p) ≡ get_payload p
unfolding get_payload
get_payload-serialize p v =
    let s : Split p.packet = split p.packet (omega (arith, v.sized)) in
    rw (serialize_keeps p, serialize-header p s v)
      (ground (arith, length-header p s.rest, ap length s.whole, drop_same p s))
  where
    drop_same :
        (p : RtpPacket) (s : Split p.packet)
        → drop rtp_header_size (header p s.rest) ≡ drop rtp_header_size p.packet
    drop_same p s = unfold header in rw s.whole

pub marker-serialize : (p : RtpPacket) → (serialize p).marker ≡ p.marker
unfolding serialize
marker-serialize p = refl
