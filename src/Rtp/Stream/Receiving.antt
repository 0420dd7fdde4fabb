-- ===== src/Rtp/Stream/Receiving.antt =====
-- The receiver on one datagram after another.
use mathlib.Core.List.{append_assoc}
use espp.Prelude.{
  ℕ, ◌+◌, ◌*◌, ◌/◌, ◌%◌, ◌^◌, ◌≤◌, ◌<◌, ◌≡◌, ◌≢◌, refl, ap, List, [], ◌∷◌, ◌++◌, map, Option, none,
  some, Bool, true, false, arith, length, ◌==◌, if◌then◌else◌, length-append, drop-append,
}
use espp.Rtp.Packet.{RtpPacket}
use native.Mathlib.Nat.{div-add-mod}
use espp.Rtp.JpegHeader.{JpegHeader, from_fields}
use espp.Rtp.JpegFrame.{JpegFrame, add_scan}
use espp.Rtp.JpegFrame
use espp.Rtp.JpegPacket.{unsigned_char, get_q_table, RtpJpegPacket, from_packet, get_jpeg_data}
use espp.Rtp.JpegPacket.RoundTrip.{Fits}
use espp.Rtp.Stream.{Server, stale, deliver, append_to, handle_rtp_packet, receive}

-- What is asked of a frame and a server: the sizes are multiples of 8 below 2048, the tables have
-- 64 bytes, the header is one that JpegHeader writes, the scan data fits the 24-bit offset, a
-- packet holds at least one byte of it, and the counters fit their widths.
pub record IsSendable (server : Server) (h : JpegHeader) (scan_data : List ℕ) : Type 0 where
  pub blocks : Fits 0 0 128 h.width h.height
  pub q0_sized : length h.q0_table ≡ 64
  pub q1_sized : length h.q1_table ≡ 64
  pub written : from_fields h.width h.height h.q0_table h.q1_table ≡ h
  pub addressable : length scan_data < 2 ^ 24
  pub some_room : 0 < server.max_data_size
  pub ssrc_fits : server.ssrc < 2 ^ 32
  pub sequence_number_fits : server.sequence_number < 2 ^ 16

abbrev pub whole_frame : JpegHeader → List ℕ → Bool → JpegFrame
whole_frame h scan done = record { bytes = h.bytes ++ scan; header = h; finalized = done }

abbrev pub datagrams : List RtpJpegPacket → List (List ℕ)
datagrams = map (λ p. p.rtp.packet)

deliver_cases :
    (gone : List ℕ × List ℕ) (h : JpegHeader) (scan : List ℕ) (last : Bool)
    → deliver gone true (if last then whole_frame h scan true else whole_frame h scan false) ≡ (
        if last
        then (none, some (whole_frame h scan true))
        else (some (whole_frame (stale gone h) scan false), none))
unfolding deliver JpegFrame.is_complete
deliver_cases gone h scan true = refl
deliver_cases gone h scan false = refl

-- One datagram with a nonzero offset, for the frame that is being built.
pub handle-later :
    (gone : List ℕ × List ℕ) (before : RtpPacket) (t : RtpJpegPacket) (h : JpegHeader)
    (so_far scan : List ℕ) (last : Bool)
    → from_packet unsigned_char before t.rtp.packet ≡ some t
    → get_jpeg_data t ≡ some scan
    → t.rtp.marker ≡ last
    → t.offset ≢ 0
    → handle_rtp_packet unsigned_char gone true before
        (some (whole_frame h so_far false))
        t.rtp.packet
      ≡ some (
          if last
          then (none, some (whole_frame h (so_far ++ scan) true))
          else (some (whole_frame (stale gone h) (so_far ++ scan) false), none))
unfolding handle_rtp_packet append_to add_scan
handle-later gone before t h so_far scan last read shown marked nonzero =
    let later : (t.offset == 0) ≡ false = ground arith in
    simp (read, shown, marked, later, append_assoc)
      (ap some (deliver_cases gone h (so_far ++ scan) last))

pub handle-first :
    (gone : List ℕ × List ℕ) (before : RtpPacket) (slot : Option JpegFrame) (t : RtpJpegPacket)
    (h : JpegHeader) (scan : List ℕ) (last : Bool)
    → from_packet unsigned_char before t.rtp.packet ≡ some t
    → get_jpeg_data t ≡ some scan
    → t.rtp.marker ≡ last
    → t.offset ≡ 0
    → t.width ≡ h.width
    → t.height ≡ h.height
    → t.q_tables ≡ h.q0_table ∷ h.q1_table ∷ []
    → from_fields h.width h.height h.q0_table h.q1_table ≡ h
    → handle_rtp_packet unsigned_char gone true before slot t.rtp.packet
      ≡ some (
          if last
          then (none, some (whole_frame h scan true))
          else (some (whole_frame (stale gone h) scan false), none))
unfolding handle_rtp_packet JpegFrame.from_packet get_q_table
handle-first gone before slot t h scan last read shown marked zero_offset ew eh et written =
    simp (read, zero_offset, ew, eh, et, written, shown, marked)
      (ap some (deliver_cases gone h scan last))

pub receive-built :
    (gone : List ℕ × List ℕ) (before : RtpPacket) (slot : Option JpegFrame) (bytes : List ℕ)
    (rest : List (List ℕ)) (f : JpegFrame) (frames : List JpegFrame)
    → handle_rtp_packet unsigned_char gone true before slot bytes ≡ some (some f, none)
    → receive unsigned_char gone true before (some f) rest ≡ some (none, frames)
    → receive unsigned_char gone true before slot (bytes ∷ rest) ≡ some (none, frames)
receive-built gone before slot bytes rest f frames e r = unfold receive in rw (e, r)

pub receive-done :
    (gone : List ℕ × List ℕ) (before : RtpPacket) (slot : Option JpegFrame) (bytes : List ℕ)
    (f : JpegFrame)
    → handle_rtp_packet unsigned_char gone true before slot bytes ≡ some (none, some f)
    → receive unsigned_char gone true before slot (bytes ∷ []) ≡ some (none, f ∷ [])
receive-done gone before slot bytes f e = unfold receive in rw e

pub mul_pos : (a b : ℕ) → 1 ≤ a → 0 < b → 0 < a * b
mul_pos a b h k = grind arith

pub div_bounds : (a b q : ℕ) → 0 < b → a / b ≡ q → (q * b ≤ a) × (a < (q + 1) * b)
div_bounds a b q h e =
    let split = div-add-mod a b in
    let small : a % b < b = omega arith in rw (← e) (omega (arith, split), omega (arith, split))

pub scan_of :
    (h : JpegHeader) (scan_data : List ℕ) (done : Bool)
    → JpegFrame.get_scan_data (whole_frame h scan_data done) ≡ some scan_data
unfolding JpegFrame.get_scan_data
scan_of h scan_data done =
    ground (arith, length-append h.bytes scan_data, drop-append h.bytes scan_data)
