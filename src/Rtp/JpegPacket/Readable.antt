-- ===== src/Rtp/JpegPacket/Readable.antt =====
-- What a client of the constructors needs to know of the packet that they build.
use espp.Prelude.{
  ℕ, ◌+◌, ◌^◌, ◌≤◌, ◌<◌, ◌≡◌, refl, List, [], ◌∷◌, ◌++◌, some, false, arith, length, length-append,
  ap,
}
use espp.Rtp.Packet.{RtpPacket, with_payload_size}
use espp.Rtp.Packet.Header.{IsValid}
use espp.Rtp.JpegPacket.{RtpJpegPacket, first_packet, later_packet}
use espp.Rtp.JpegPacket.Bytes.{first_built, first-result, later-bytes}
use espp.Rtp.JpegPacket.RoundTrip.{Fits, Tags, ReadsBack, first_packet-read, later_packet-read}

-- A packet with no marker yet, of the given offset, sizes and tables, that shows `scan_data` to
-- whoever reads its bytes under a valid header.
pub record IsReadable (p : RtpJpegPacket) (offset width height : ℕ) (tables : List (List ℕ))
    (scan_data : List ℕ) : Type 0 where
  pub valid : IsValid p.rtp
  pub unmarked : p.rtp.marker ≡ false
  pub same_offset : p.offset ≡ offset
  pub same_width : p.width ≡ width
  pub same_height : p.height ≡ height
  pub same_tables : p.q_tables ≡ tables
  pub reads : (before r : RtpPacket) → Tags p r → ReadsBack before r p scan_data

pub first-IsReadable :
    (type_specific frag_type q width height : ℕ) (q0 q1 scan_data : List ℕ)
    → Fits type_specific frag_type q width height
    → 128 ≤ q
    → (length q0 ≡ 64) × (length q1 ≡ 64)
    → length scan_data + 152 < 2 ^ 32
    → (p : RtpJpegPacket) × (first_packet type_specific frag_type q width height q0 q1 scan_data
        ≡ some p)
      × IsReadable p 0 width height (q0 ∷ q1 ∷ []) scan_data
unfolding with_payload_size
first-IsReadable ts ft q w h q0 q1 scan_data fits large lens small =
    let p = first_built ts ft q w h q0 q1 scan_data in
    let made =
      first-result ts ft q w h q0 q1 scan_data lens.0 lens.1 fits.width_fits fits.height_fits in
    (
      p,
      made,
      record {
        valid = omega (arith, length-append q0 (q1 ++ scan_data), length-append q1 scan_data, lens);
        unmarked = refl;
        same_offset = refl;
        same_width = omega (arith, fits);
        same_height = omega (arith, fits);
        same_tables = refl;
        reads = λ before r tags.
            first_packet-read before r ts ft q w h q0 q1 scan_data p fits large lens small made
              tags;
      },
    )

pub later-IsReadable :
    (type_specific offset frag_type q width height : ℕ) (scan_data : List ℕ)
    → Fits type_specific frag_type q width height
    → q < 128
    → offset < 2 ^ 24
    → length scan_data + 152 < 2 ^ 32
    → IsReadable
        (later_packet type_specific offset frag_type q width height scan_data)
        offset
        width
        height
        []
        scan_data
unfolding later_packet with_payload_size
later-IsReadable ts offset ft q w h scan_data fits low near small =
    let bytes = later-bytes ts offset ft q w h scan_data near fits.width_fits fits.height_fits in
    record {
      valid = omega (arith, ap length bytes);
      unmarked = refl;
      same_offset = omega arith;
      same_width = omega (arith, fits);
      same_height = omega (arith, fits);
      same_tables = refl;
      reads = λ before r tags.
          later_packet-read before r ts offset ft q w h scan_data fits low near small tags;
    }
