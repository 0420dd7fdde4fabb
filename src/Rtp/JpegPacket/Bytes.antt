-- ===== src/Rtp/JpegPacket/Bytes.antt =====
-- What the constructors from fields write.
use mathlib.Core.List.{append-nil, append_assoc}
use espp.Prelude.{
  ℕ, ◌+◌, ◌/◌, ◌%◌, ◌^◌, ◌<◌, ◌≡◌, refl, sym, ap, ◌∙◌, List, [], ◌∷◌, ◌++◌, some, arith, length,
  resize, slice, length-append, resize-append, length-resize, take-all, write_at,
}
use espp.Prelude.Bits.{and_mask}
use espp.Buffer.{puts, concat, concat-append, puts-fill, puts-append}
use espp.Rtp.Packet.{u8, rtp_header_size, with_payload_size}
use espp.Rtp.JpegPacket.{RtpJpegPacket, first_packet, later_packet, blank}

-- RFC 2435, sections 3.1 and 3.1.8: the payload of a first packet, and of one that follows.
abbrev pub first_payload : RtpJpegPacket → List ℕ → List ℕ → List ℕ → List ℕ
first_payload p q0 q1 scan_data =
    p.type_specific
    ∷ 0
    ∷ 0
    ∷ 0
    ∷ p.frag_type
    ∷ p.q
    ∷ (p.width / 8)
    ∷ (p.height / 8)
    ∷ 0
    ∷ 0
    ∷ 0
    ∷ 128
    ∷ (q0 ++ (q1 ++ scan_data))

abbrev pub later_payload : RtpJpegPacket → List ℕ → List ℕ
later_payload p scan_data =
    p.type_specific
    ∷ (p.offset / 2 ^ 16)
    ∷ (p.offset / 2 ^ 8 % 2 ^ 8)
    ∷ (p.offset % 2 ^ 8)
    ∷ p.frag_type
    ∷ p.q
    ∷ (p.width / 8)
    ∷ (p.height / 8)
    ∷ scan_data

-- One more chunk behind a group of writes into a vector of zeros that is just large enough.
fill_behind :
    (chunks : List (List ℕ)) (size : ℕ) (scan_data : List ℕ)
    → length (concat chunks) ≡ size
    → write_at
        (size + rtp_header_size)
        scan_data
        (puts rtp_header_size chunks (resize (rtp_header_size + (size + length scan_data)) 0 []))
      ≡ resize rtp_header_size 0 [] ++ (concat chunks ++ scan_data)
unfolding puts
fill_behind chunks size scan_data e =
    let n = size + length scan_data in
    let zeros : List ℕ = resize n 0 [] in
    let all = chunks ++ (scan_data ∷ []) in
    let start : rtp_header_size + length (concat chunks) ≡ size + rtp_header_size = omega arith in
    let content : concat all ≡ concat chunks ++ scan_data =
      concat-append chunks (scan_data ∷ []) ∙ ap (◌++◌ (concat chunks)) (append-nil scan_data) in
    rw (resize-append {A = ℕ} rtp_header_size n 0, ← start)
      (sym (
          puts-append rtp_header_size chunks (scan_data ∷ [])
            (resize rtp_header_size 0 [] ++ zeros))
        ∙ puts-fill all (resize rtp_header_size 0 []) zeros (
            length-resize n 0 []
            ∙ omega (arith, ap length content, length-append (concat chunks) scan_data))
        ∙ ap (◌++◌ (resize rtp_header_size 0 [])) content)

pub later-bytes :
    (type_specific offset frag_type q width height : ℕ) (scan_data : List ℕ)
    → offset < 2 ^ 24
    → width < 2048
    → height < 2048
    → let p = later_packet type_specific offset frag_type q width height scan_data in
      p.rtp.packet ≡ resize rtp_header_size 0 [] ++ later_payload p scan_data
unfolding later_packet with_payload_size
later-bytes type_specific offset frag_type q width height scan_data ho hw hh =
    rw (fill_behind _ 8 scan_data refl)
      (ground (arith, and_mask 8 (offset / 2 ^ 16), and_mask 8 (offset / 2 ^ 8), and_mask 8 offset))

take_whole {ℓ} : {A : Type ℓ} (n : ℕ) (xs : List A) → length xs ≡ n → slice 0 n xs ≡ some xs
take_whole n xs h = ground (arith, take-all n xs h)

-- The eight header bytes of a first packet, and the bytes of its two tables.
abbrev mjpeg_fields : RtpJpegPacket → List (List ℕ)
mjpeg_fields b =
    (u8 b.type_specific ∷ [])
    ∷ (0 ∷ [])
    ∷ (0 ∷ [])
    ∷ (0 ∷ [])
    ∷ (u8 b.frag_type ∷ [])
    ∷ (u8 b.q ∷ [])
    ∷ (u8 (b.width / 8) ∷ [])
    ∷ (u8 (b.height / 8) ∷ [])
    ∷ []

abbrev table_fields : List ℕ → List ℕ → List (List ℕ)
table_fields q0 q1 = (0 ∷ 0 ∷ 0 ∷ 128 ∷ []) ∷ q0 ∷ q1 ∷ []

first-bytes :
    (b : RtpJpegPacket) (q0 q1 scan_data : List ℕ)
    → length q0 ≡ 64
    → length q1 ≡ 64
    → write_at 152 scan_data (
        puts 20
          (table_fields q0 q1)
          (puts 12 (mjpeg_fields b) (resize (12 + (140 + length scan_data)) 0 [])))
      ≡ resize 12 0 [] ++ (concat (mjpeg_fields b ++ table_fields q0 q1) ++ scan_data)
first-bytes b q0 q1 scan_data h0 h1 =
    ap (write_at 152 scan_data) (sym (puts-append 12 (mjpeg_fields b) (table_fields q0 q1) _))
    ∙ fill_behind (mjpeg_fields b ++ table_fields q0 q1) 140 scan_data
        (omega (arith, length-append q0 (q1 ++ []), length-append q1 []))

-- What the first constructor builds.
abbrev pub first_built : ℕ → ℕ → ℕ → ℕ → ℕ → List ℕ → List ℕ → List ℕ → RtpJpegPacket
first_built type_specific frag_type q width height q0 q1 scan_data =
    let b = blank 140 type_specific 0 frag_type q width height scan_data in
    let rtp = with_payload_size (140 + length scan_data) in
    record b {
      rtp = record rtp { packet = resize 12 0 [] ++ first_payload b q0 q1 scan_data };
      q_tables = q0 ∷ q1 ∷ [];
    }

pub first-result :
    (type_specific frag_type q width height : ℕ) (q0 q1 scan_data : List ℕ)
    → length q0 ≡ 64
    → length q1 ≡ 64
    → width < 2048
    → height < 2048
    → first_packet type_specific frag_type q width height q0 q1 scan_data
      ≡ some (first_built type_specific frag_type q width height q0 q1 scan_data)
unfolding first_packet with_payload_size
first-result type_specific frag_type q width height q0 q1 scan_data h0 h1 hw hh =
    let b = blank 140 type_specific 0 frag_type q width height scan_data in
    rw (take_whole 64 q0 h0, take_whole 64 q1 h1, first-bytes b q0 q1 scan_data h0 h1)
      (ground (arith, append_assoc q0 (q1 ++ []) scan_data, append_assoc q1 [] scan_data))
