-- ===== src/Rtp/Stream/EndToEnd.antt =====
-- A frame that is sent in any number of packets arrives as itself.

use espp.Prelude.{
  ℕ, zero, suc, ◌+◌, ◌*◌, ◌/◌, ◌%◌, ◌^◌, ◌≤◌, ◌<◌, ◌≡◌, refl, sym, ap, ◌∙◌, List, [], ◌∷◌, ◌++◌,
  Option, none, some, Bool, true, false, arith, length, take, drop, ◌==◌, if◌then◌else◌,
}
use espp.Rtp.Packet.{RtpPacket, u32}
use native.Mathlib.Numerals.{add-one}
use espp.Rtp.JpegHeader.{JpegHeader}
use espp.Rtp.JpegFrame.{JpegFrame}
use espp.Rtp.JpegPacket.{unsigned_char, RtpJpegPacket, later_packet}
use espp.Rtp.JpegPacket.Readable.{IsReadable, first-IsReadable, later-IsReadable}
use espp.Rtp.Stream.{Server, stale, fragment, tag, packets, send_frame, handle_rtp_packet, receive}
-- The scan data is cut at multiples of the packet size.
use espp.Rtp.Stream.Fragments.{length-take-le, substr-take, take-add, tag-read, take-long}
use espp.Rtp.Stream.Receiving.{
  IsSendable, whole_frame, datagrams, handle-later, handle-first, receive-built, receive-done,
  mul_pos, div_bounds, scan_of,
}

module _ (gone : List ℕ × List ℕ) (server : Server) (clock : ℕ → ℕ) (h : JpegHeader)
    (scan_data : List ℕ) (before : RtpPacket) (sendable : IsSendable server h scan_data)
    (room : server.max_data_size + 152 < 2 ^ 32) where
  -- The header of a frame that is kept from one call to the next.
  abbrev kept : JpegHeader
  kept = stale gone h

  abbrev m : ℕ
  m = server.max_data_size

  fragment-later :
      (i : ℕ)
      → 1 ≤ i
      → i * m ≤ length scan_data
      → (p : RtpJpegPacket) × (fragment m h scan_data i ≡ some p)
        × IsReadable p (i * m) h.width h.height [] (take m (drop (i * m) scan_data))
  unfolding fragment
  fragment-later i pos within =
      let chunk = take m (drop (i * m) scan_data) in
      let nonzero : (i == 0) ≡ false = ground arith in
      let fits = sendable.blocks in
      let near = sendable.addressable in
      let offset : u32 (i * m) ≡ i * m = omega arith in
      (
        later_packet 0 (i * m) 0 96 h.width h.height chunk,
        rw (nonzero, substr-take (i * m) m scan_data, offset),
        later-IsReadable 0 (i * m) 0 96 h.width h.height chunk (omega (arith, fits)) (omega arith)
            (omega arith) (omega (arith, length-take-le m (drop (i * m) scan_data))),
      )

  packets-suc :
      (left i sequence_number : ℕ) (last : Bool) (p : RtpJpegPacket) (ps : List RtpJpegPacket)
      → (left == 0) ≡ last
      → fragment m h scan_data i ≡ some p
      → packets server clock h scan_data left (i + 1) ((sequence_number + 1) % 2 ^ 16) ≡ some ps
      → packets server clock h scan_data (suc left) i sequence_number
        ≡ some (tag server sequence_number (clock i) last p ∷ ps)
  unfolding packets
  packets-suc left i sequence_number last p ps z e r = rw (e, r, z)

  no-packets :
      (i sequence_number : ℕ) → packets server clock h scan_data zero i sequence_number ≡ some []
  unfolding packets
  no-packets i sequence_number = refl

  -- What has arrived grows by the next chunk, and is all of it at the end.
  grown :
      (i : ℕ)
      → take (i * m) scan_data ++ take m (drop (i * m) scan_data) ≡ take ((i + 1) * m) scan_data
  grown i = sym (take-add (i * m) m scan_data) ∙ ap (λ n. take n scan_data) (omega arith)

  -- What the receiver does with the datagram of index `i`, from the slot that is given.
  abbrev Arrives : JpegHeader → Option JpegFrame → ℕ → ℕ → Bool → RtpJpegPacket → Type 0
  Arrives f slot i sequence_number last p =
      handle_rtp_packet unsigned_char gone true before slot
        (tag server sequence_number (clock i) last p).rtp.packet
      ≡ some (
          if last
          then (none, some (whole_frame f (take ((i + 1) * m) scan_data) true))
          else (some (whole_frame kept (take ((i + 1) * m) scan_data) false), none))

  later-Arrives :
      (i sequence_number : ℕ) (last : Bool)
      → 1 ≤ i
      → sequence_number < 2 ^ 16
      → i * m ≤ length scan_data
      → (p : RtpJpegPacket) × (fragment m h scan_data i ≡ some p)
        × Arrives kept
            (some (whole_frame kept (take (i * m) scan_data) false))
            i
            sequence_number
            last
            p
  later-Arrives i sequence_number last pos seq within =
      let (p, made, readable) = fragment-later i pos within in
      let t = tag server sequence_number (clock i) last p in
      let chunk = take m (drop (i * m) scan_data) in
      let (read, shown, marked, offset, _, _, _) =
        tag-read server sequence_number (clock i) last p (i * m) h.width h.height [] chunk before
          sendable.ssrc_fits seq readable in
      let moved : 0 < i * m = mul_pos i m pos sendable.some_room in
      let handled =
        handle-later gone before t kept (take (i * m) scan_data) chunk last read shown marked
          (λ z. absurd (omega (arith, sym offset ∙ z))) in
      (p, made, rw (grown i) at handled)

  -- The datagrams from index `i` on complete the frame of which `i` packets have arrived.
  loop-completes :
      (left i sequence_number : ℕ)
      → 1 ≤ i
      → sequence_number < 2 ^ 16
      → (i + left) * m ≤ length scan_data
      → length scan_data < (i + left + 1) * m
      → (ps : List RtpJpegPacket) × (packets server clock h scan_data (suc left) i sequence_number
          ≡ some ps)
        × (receive unsigned_char gone true before
              (some (whole_frame kept (take (i * m) scan_data) false))
              (datagrams ps)
            ≡ some (none, whole_frame kept scan_data true ∷ []))
  loop-completes zero i sequence_number pos seq within beyond =
      let (p, made, arrives) = later-Arrives i sequence_number true pos seq (omega arith) in
      let all : take ((i + 1) * m) scan_data ≡ scan_data =
        take-long ((i + 1) * m) scan_data (omega arith) in
      (
        tag server sequence_number (clock i) true p ∷ [],
        packets-suc zero i sequence_number true p [] refl made (no-packets (i + 1) _),
        receive-done gone before _ _ _ (rw all at arrives),
      )
  loop-completes (suc left) i sequence_number pos seq within beyond =
      let (p, made, arrives) = later-Arrives i sequence_number false pos seq (grind arith) in
      let (ps, more, completes) =
        loop-completes left (i + 1) ((sequence_number + 1) % 2 ^ 16) (omega arith) (omega arith)
          (omega arith) (omega arith) in
      (
        tag server sequence_number (clock i) false p ∷ ps,
        packets-suc (suc left) i sequence_number false p ps (ground arith) made more,
        receive-built gone before _ _ (datagrams ps) _ _ arrives completes,
      )

  first-Arrives :
      (slot : Option JpegFrame) (sequence_number : ℕ) (last : Bool)
      → sequence_number < 2 ^ 16
      → (p : RtpJpegPacket) × (fragment m h scan_data 0 ≡ some p)
        × Arrives h slot 0 sequence_number last p
  unfolding fragment
  first-Arrives slot sequence_number last seq =
      let chunk = take m (drop (0 * m) scan_data) in
      let fits = sendable.blocks in
      let near = sendable.addressable in
      let (p, made, readable) =
        first-IsReadable 0 0 128 h.width h.height h.q0_table h.q1_table chunk fits (omega arith)
          (sendable.q0_sized, sendable.q1_sized)
          (omega (arith, length-take-le m (drop (0 * m) scan_data))) in
      let t = tag server sequence_number (clock 0) last p in
      let (read, shown, marked, offset, w, hh, tables) =
        tag-read server sequence_number (clock 0) last p 0 h.width h.height
          (h.q0_table ∷ h.q1_table ∷ []) chunk before sendable.ssrc_fits seq readable in
      let handled =
        handle-first gone before slot t h chunk last read shown marked offset w hh tables
          sendable.written in
      let start : 0 * m ≡ 0 = omega arith in
      let all : chunk ≡ take ((0 + 1) * m) scan_data =
        rw start (ap (λ n. take n scan_data) (omega arith)) in
      (p, rw (substr-take (0 * m) m scan_data) made, rw all at handled)

  abbrev n : ℕ
  n = length scan_data / m

  all_complete :
      (slot : Option JpegFrame) (k : ℕ)
      → n ≡ k
      → (ps : List RtpJpegPacket) × (packets server clock h scan_data
            (suc k)
            0
            server.sequence_number
          ≡ some ps)
        × (f : JpegHeader) × (receive unsigned_char gone true before slot (datagrams ps)
            ≡ some (none, whole_frame f scan_data true ∷ []))
        × (f.bytes ≡ h.bytes)
        × (f.width ≡ h.width)
        × (f.height ≡ h.height)
  all_complete slot zero e =
      let cut = div_bounds (length scan_data) m zero sendable.some_room e in
      let (p, made, arrives) =
        first-Arrives slot server.sequence_number true sendable.sequence_number_fits in
      let all : take ((0 + 1) * m) scan_data ≡ scan_data =
        take-long ((0 + 1) * m) scan_data (omega (arith, cut)) in
      (
        tag server server.sequence_number (clock 0) true p ∷ [],
        packets-suc zero 0 server.sequence_number true p [] refl made (no-packets 1 _),
        h,
        receive-done gone before _ _ _ (rw all at arrives),
        refl,
        refl,
        refl,
      )
  all_complete slot (suc k) e =
      let cut = div_bounds (length scan_data) m (suc k) sendable.some_room e in
      let (p, made, arrives) =
        first-Arrives slot server.sequence_number false sendable.sequence_number_fits in
      let (ps, more, completes) =
        loop-completes k 1 ((server.sequence_number + 1) % 2 ^ 16) (omega arith) (omega arith)
          (omega (arith, cut)) (omega (arith, cut)) in
      (
        tag server server.sequence_number (clock 0) false p ∷ ps,
        packets-suc (suc k) 0 server.sequence_number false p ps (ground arith) made more,
        kept,
        receive-built gone before _ _ (datagrams ps) _ _ arrives completes,
        refl,
        refl,
        refl,
      )

-- A frame always gets sent whose header was written from its fields, with a width and a height
-- that fit a packet, tables of 64 bytes and fewer than 2 ^ 24 bytes of scan data, by a server with
-- a packet size above 0 and in 32 bits. Its datagrams, handled in order by a client with a callback
-- where `char` has no sign, hand over one frame with exactly the bytes of that frame, its width and
-- its height, complete, and leave the client's slot empty: however the scan data is cut into
-- packets, whatever the clock shows, whatever the members of a packet held before, whatever
-- unfinished frame the client had and whatever stands where a packet was that is gone.
pub receive-send_frame :
    (gone : List ℕ × List ℕ) (server : Server) (clock : ℕ → ℕ) (h : JpegHeader) (scan_data : List ℕ)
    (done : Bool) (before : RtpPacket) (slot : Option JpegFrame)
    → IsSendable server h scan_data
    → server.max_data_size + 152 < 2 ^ 32
    → (server' : Server) × (send_frame clock (whole_frame h scan_data done) server ≡ some server')
      × (f : JpegFrame) × (receive unsigned_char gone true before slot
            (datagrams server'.rtp_packets)
          ≡ some (none, f ∷ []))
      × (f.bytes ≡ h.bytes ++ scan_data)
      × (f.header.width ≡ h.width)
      × (f.header.height ≡ h.height)
      × (f.finalized ≡ true)
unfolding send_frame
receive-send_frame gone server clock h scan_data done before slot sendable room =
    let count = length scan_data / server.max_data_size in
    let (ps, made, f, arrives, same_bytes, same_width, same_height) =
      all_complete gone server clock h scan_data before sendable room slot count refl in
    let made' = rw (← add-one count) at made in
    let nonzero : (server.max_data_size == 0) ≡ false = ground (arith, sendable.some_room) in
    (
      record server {
        rtp_packets = ps;
        sequence_number = (server.sequence_number + (count + 1)) % 2 ^ 16;
      },
      rw (scan_of h scan_data done, made', nonzero),
      whole_frame f scan_data true,
      arrives,
      ap (λ bytes. bytes ++ scan_data) same_bytes,
      same_width,
      same_height,
      refl,
    )
