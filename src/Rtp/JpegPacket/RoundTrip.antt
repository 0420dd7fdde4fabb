-- ===== src/Rtp/JpegPacket/RoundTrip.antt =====
-- A packet that was built from fields reads back as itself.
use mathlib.Core.List.{append-nil, append_assoc}
use mathlib.Core.Option.{some-injective}
use espp.Prelude.{
  ℕ, ◌+◌, ◌/◌, ◌%◌, ◌^◌, ◌≤◌, ◌<◌, ◌≡◌, refl, sym, ◌∙◌, List, [], ◌∷◌, ◌++◌, some, arith, length,
  resize, slice, slice-append, length-append, take-all,
}
use espp.Rtp.Packet.{RtpPacket, serialize, get_payload, u8, with_payload_size}
use espp.Rtp.Packet.RoundTrip.{from_data-serialize, get_payload-serialize}
use espp.Rtp.Packet.Header.{IsValid}
use espp.Rtp.JpegPacket.{
  unsigned_char, RtpJpegPacket, first_packet, later_packet, parse_mjpeg_header, from_packet,
  get_jpeg_data,
}
use espp.Rtp.JpegPacket.Parse.{parse-first, parse-later}
use espp.Rtp.JpegPacket.Bytes.{first_payload, later_payload, first_built, first-result, later-bytes}

-- A header that a server tags a packet with: the bytes and the size of the packet stay.
pub record Tags (p : RtpJpegPacket) (r : RtpPacket) : Type 0 where
  pub same_packet : r.packet ≡ p.rtp.packet
  pub same_size : r.payload_size ≡ p.rtp.payload_size
  pub valid : IsValid r

-- A tagged packet shows the payload that stands behind its header.
tagged_payload :
    (p : RtpJpegPacket) (r : RtpPacket) (payload : List ℕ)
    → p.rtp.packet ≡ resize 12 0 [] ++ payload
    → p.rtp.payload_size ≡ length payload
    → Tags p r
    → get_payload (serialize r) ≡ some payload
unfolding get_payload
tagged_payload p r payload e size tags =
    get_payload-serialize r tags.valid
    ∙ rw (tags.same_packet, tags.same_size, e, size)
        (ground (arith, take-all (length payload) payload refl))

tagged_read :
    (before r : RtpPacket)
    → IsValid r
    → from_packet unsigned_char before (serialize r).packet
      ≡ parse_mjpeg_header unsigned_char (serialize r)
unfolding from_packet
tagged_read before r v = rw (from_data-serialize before r v)

jpeg_data_at :
    (p : RtpJpegPacket) (pre scan_data : List ℕ)
    → get_payload p.rtp ≡ some (pre ++ scan_data)
    → p.jpeg_data_start ≡ length pre
    → p.jpeg_data_size ≡ length scan_data
    → get_jpeg_data p ≡ some scan_data
unfolding get_jpeg_data
jpeg_data_at p pre scan_data e start size =
    let whole : slice (length pre) (length scan_data) (pre ++ scan_data) ≡ some scan_data =
      rw append-nil at (slice-append pre scan_data [] (length pre) (length scan_data) refl refl) in
    rw (e, start, size) whole

-- What RFC 2435 can carry: the type, fragment type and q fit a byte, and the sizes are multiples
-- of 8 below 2048.
pub record Fits (type_specific frag_type q width height : ℕ) : Type 0 where
  pub type_fits : type_specific < 256
  pub frag_type_fits : frag_type < 256
  pub q_fits : q < 256
  pub width_blocks : width % 8 ≡ 0
  pub width_fits : width < 2048
  pub height_blocks : height % 8 ≡ 0
  pub height_fits : height < 2048

-- A packet reads back, under the header `r`, as itself, and shows `scan_data`.
abbrev pub ReadsBack : RtpPacket → RtpPacket → RtpJpegPacket → List ℕ → Type 0
ReadsBack before r p scan_data =
    (from_packet unsigned_char before (serialize r).packet ≡ some (record p { rtp = serialize r }))
    × (get_jpeg_data (record p { rtp = serialize r }) ≡ some scan_data)

first_built-read :
    (before r : RtpPacket) (ts ft q w h : ℕ) (q0 q1 scan_data : List ℕ)
    → Fits ts ft q w h
    → 128 ≤ q
    → (length q0 ≡ 64) × (length q1 ≡ 64)
    → length scan_data + 152 < 2 ^ 32
    → Tags (first_built ts ft q w h q0 q1 scan_data) r
    → ReadsBack before r (first_built ts ft q w h q0 q1 scan_data) scan_data
unfolding with_payload_size
first_built-read before r ts ft q w h q0 q1 scan_data fits large lens small tags =
    let p = first_built ts ft q w h q0 q1 scan_data in
    let payload = first_payload p q0 q1 scan_data in
    let total : length payload ≡ 140 + length scan_data =
      omega (arith, length-append q0 (q1 ++ scan_data), length-append q1 scan_data, lens) in
    let shown = tagged_payload p r payload refl (omega arith) tags in
    let read =
      parse-first (serialize r) p.type_specific p.frag_type p.q (p.width / 8) (p.height / 8) q0 q1
        scan_data lens.0 lens.1 (omega (arith, fits)) (omega (arith, fits)) (omega arith) shown in
    let pre =
      p.type_specific
      ∷ 0
      ∷ 0
      ∷ 0
      ∷ p.frag_type
      ∷ p.q
      ∷ (p.width / 8)
      ∷ (p.height / 8)
      ∷ 0
      ∷ 0
      ∷ 0
      ∷ 128
      ∷ [] in
    (
      rw (tagged_read before r tags.valid, read) (ground (arith, fits)),
      jpeg_data_at (record p { rtp = serialize r }) (pre ++ (q0 ++ q1)) scan_data
          (rw (append_assoc q0 q1 scan_data) shown) (omega (arith, length-append q0 q1, lens))
          (omega arith),
    )

-- A first packet whose fields fit their bytes, with a q of at least 128, tables of 64 bytes and
-- scan data that leaves its length in 32 bits, reads back, once its header is tagged with any valid
-- fields, as itself with that scan data where `char` has no sign, whatever the reader's members
-- held before.
pub first_packet-read :
    (before r : RtpPacket) (type_specific frag_type q width height : ℕ) (q0 q1 scan_data : List ℕ)
    (p : RtpJpegPacket)
    → Fits type_specific frag_type q width height
    → 128 ≤ q
    → (length q0 ≡ 64) × (length q1 ≡ 64)
    → length scan_data + 152 < 2 ^ 32
    → first_packet type_specific frag_type q width height q0 q1 scan_data ≡ some p
    → Tags p r
    → ReadsBack before r p scan_data
first_packet-read before r ts ft q w h q0 q1 scan_data p fits large lens small made tags =
    let built = first_built ts ft q w h q0 q1 scan_data in
    let e : p ≡ built = some-injective p built (
      sym made
      ∙ first-result ts ft q w h q0 q1 scan_data lens.0 lens.1 fits.width_fits fits.height_fits) in
    rw e
      (first_built-read before r ts ft q w h q0 q1 scan_data fits large lens small (rw e at tags))

-- A later packet whose fields fit their bytes, with a q below 128, an offset below 2 ^ 24 and scan
-- data that leaves its length in 32 bits, reads back, once its header is tagged with any valid
-- fields, as itself with that scan data where `char` has no sign, whatever the reader's members
-- held before.
pub later_packet-read :
    (before r : RtpPacket) (type_specific offset frag_type q width height : ℕ) (scan_data : List ℕ)
    → Fits type_specific frag_type q width height
    → q < 128
    → offset < 2 ^ 24
    → length scan_data + 152 < 2 ^ 32
    → Tags (later_packet type_specific offset frag_type q width height scan_data) r
    → ReadsBack before r
        (later_packet type_specific offset frag_type q width height scan_data)
        scan_data
unfolding later_packet with_payload_size
later_packet-read before r ts offset ft q w h scan_data fits low near small tags =
    let p = later_packet ts offset ft q w h scan_data in
    let shown =
      tagged_payload p r (later_payload p scan_data)
        (later-bytes ts offset ft q w h scan_data near fits.width_fits fits.height_fits)
        (omega arith) tags in
    let read =
      parse-later (serialize r) (u8 ts) (u8 ft) (u8 q) (w / 8) (h / 8) (offset / 2 ^ 16)
        (offset / 2 ^ 8 % 2 ^ 8) (offset % 2 ^ 8) scan_data (omega arith) (omega arith)
        (omega arith) (omega arith) (shown ∙ ground (arith, fits)) in
    let pre =
      u8 ts
      ∷ (offset / 2 ^ 16)
      ∷ (offset / 2 ^ 8 % 2 ^ 8)
      ∷ (offset % 2 ^ 8)
      ∷ u8 ft
      ∷ u8 q
      ∷ (w / 8)
      ∷ (h / 8)
      ∷ [] in
    (
      rw (tagged_read before r tags.valid, read) (ground (arith, fits)),
      jpeg_data_at (record p { rtp = serialize r }) pre scan_data (shown ∙ ground (arith, fits))
          refl (omega arith),
    )
