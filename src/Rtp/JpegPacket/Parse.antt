-- ===== src/Rtp/JpegPacket/Parse.antt =====
-- What is read from a payload of either form.
use mathlib.Core.List.{append_assoc}
use espp.Prelude.{
  ltb, true, ℕ, ◌+◌, ◌*◌, ◌^◌, ◌≤◌, ◌<◌, ◌≡◌, refl, List, [], ◌∷◌, ◌++◌, some, arith, length, slice,
  slice-append, length-append, le→leb,
}
use espp.Prelude.Bits.{or_disjoint}
use espp.Rtp.Packet.{RtpPacket, get_payload}
use espp.Rtp.JpegPacket.{unsigned_char, parse_mjpeg_header}

-- Reading a payload of either form, whichever way it came.
module _ (rtp : RtpPacket) (type_specific frag_type q w h : ℕ) where
  pub parse-first :
      (q0 q1 scan_data : List ℕ)
      → length q0 ≡ 64
      → length q1 ≡ 64
      → 128 ≤ q
      → q < 256
      → length scan_data + 140 < 2 ^ 32
      → get_payload rtp
        ≡ some (
            type_specific
            ∷ 0
            ∷ 0
            ∷ 0
            ∷ frag_type
            ∷ q
            ∷ w
            ∷ h
            ∷ 0
            ∷ 0
            ∷ 0
            ∷ 128
            ∷ (q0 ++ (q1 ++ scan_data)))
      → parse_mjpeg_header unsigned_char rtp
        ≡ some (record {
          rtp = rtp;
          type_specific = type_specific;
          offset = 0;
          frag_type = frag_type;
          q = q;
          width = w * 8;
          height = h * 8;
          jpeg_data_start = 140;
          jpeg_data_size = length scan_data;
          q_tables = q0 ∷ q1 ∷ [];
        })
  unfolding parse_mjpeg_header
  parse-first q0 q1 scan_data h0 h1 large byte small e =
      let pre = type_specific ∷ 0 ∷ 0 ∷ 0 ∷ frag_type ∷ q ∷ w ∷ h ∷ 0 ∷ 0 ∷ 0 ∷ 128 ∷ [] in
      let total : length (q0 ++ (q1 ++ scan_data)) ≡ 128 + length scan_data =
        omega (arith, length-append q0 (q1 ++ scan_data), length-append q1 scan_data) in
      let first = slice-append pre q0 (q1 ++ scan_data) 12 64 refl h0 in
      let second : slice 76 64 (pre ++ (q0 ++ (q1 ++ scan_data))) ≡ some q1 =
        rw (← append_assoc pre q0 (q1 ++ scan_data))
          (slice-append (pre ++ q0) q1 scan_data 76 64 (omega (arith, length-append pre q0)) h1) in
      let below : ltb q (2 ^ 31) ≡ true = ground arith in
      rw (e, le→leb 128 q large, below, first, second) (ground (arith, total))

  pub parse-later :
      (x y z : ℕ) (scan_data : List ℕ)
      → y < 256
      → z < 256
      → q < 128
      → length scan_data + 8 < 2 ^ 32
      → get_payload rtp ≡ some (type_specific ∷ x ∷ y ∷ z ∷ frag_type ∷ q ∷ w ∷ h ∷ scan_data)
      → parse_mjpeg_header unsigned_char rtp
        ≡ some (record {
          rtp = rtp;
          type_specific = type_specific;
          offset = x * 2 ^ 16 + y * 2 ^ 8 + z;
          frag_type = frag_type;
          q = q;
          width = w * 8;
          height = h * 8;
          jpeg_data_start = 8;
          jpeg_data_size = length scan_data;
          q_tables = [];
        })
  unfolding parse_mjpeg_header
  parse-later x y z scan_data hy hz hq small e = rw e (
      ground
        (arith, or_disjoint 16 (x * 2 ^ 16) (y * 2 ^ 8), or_disjoint 8 (x * 2 ^ 16 + y * 2 ^ 8) z))
