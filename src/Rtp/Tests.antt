-- ===== src/Rtp/Tests.antt =====
-- The theorems on the media stream at concrete packets.
use espp.Prelude.{
  ℕ, ◌+◌, ◌≡◌, refl, List, [], ◌∷◌, ◌++◌, map, none, some, true, false, arith, resize,
}
use espp.Rtp.Packet.{RtpPacket, from_data, serialize, with_payload_size}
use espp.Rtp.Packet.RoundTrip.{from_data-serialize}
use espp.Rtp.Packet.Header.{IsValid}
use espp.Rtp.JpegFrame.{JpegFrame}
use espp.Rtp.JpegPacket.{unsigned_char, RtpJpegPacket, later_packet, first_packet}
use espp.Rtp.JpegPacket.RoundTrip.{Fits, Tags, ReadsBack, first_packet-read, later_packet-read}
use espp.Rtp.JpegPacket.Readable.{IsReadable, first-IsReadable, later-IsReadable}
use espp.Rtp.JpegHeader.{JpegHeader, from_fields, from_bytes}
use espp.Rtp.JpegHeader.RoundTrip.{from_bytes-from_fields, from_fields-fields}
use espp.Rtp.Stream.{Server, send_frame, receive}
use espp.Rtp.Stream.EndToEnd.{receive-send_frame}
use espp.Rtp.Stream.Receiving.{IsSendable, whole_frame}

abbrev empty_packet : RtpPacket
empty_packet = with_payload_size 0

-- Marker set, payload type 26, sequence number 258, timestamp 1, source 0xdeadbeef, two bytes.
abbrev wire : List ℕ
wire =
    0x80 ∷ 0x9a ∷ 0x01 ∷ 0x02 ∷ 0x00 ∷ 0x00 ∷ 0x00 ∷ 0x01 ∷ 0xde ∷ 0xad ∷ 0xbe ∷ 0xef ∷ 0x07 ∷ 0x08
    ∷ []

abbrev tagged : RtpPacket
tagged = record (with_payload_size 2) {
  marker = true;
  payload_type = 26;
  sequence_number = 258;
  ssrc = 0xdeadbeef;
}

tagged-IsValid : IsValid tagged
unfolding with_payload_size
tagged-IsValid = omega arith

from_data-serialize_example : from_data empty_packet (serialize tagged).packet ≡ serialize tagged
from_data-serialize_example = from_data-serialize empty_packet tagged tagged-IsValid

-- A table of 64 bytes.
abbrev table : List ℕ
table = resize 64 16 []

abbrev scan : List ℕ
scan = 1 ∷ 2 ∷ 3 ∷ 4 ∷ 5 ∷ []

vga : Fits 0 0 128 640 480
vga = omega arith

vga_later : Fits 0 0 96 640 480
vga_later = omega arith

abbrev first_made :
    (p : RtpJpegPacket) × (first_packet 0 0 128 640 480 table table scan ≡ some p)
    × IsReadable p 0 640 480 (table ∷ table ∷ []) scan
first_made =
    first-IsReadable 0 0 128 640 480 table table scan vga (omega arith) (refl, refl) (omega arith)

abbrev first : RtpJpegPacket
first = first_made.0

own-Tags : Tags first first.rtp
own-Tags = record { same_packet = refl; same_size = refl; valid = first_made.2.valid }

first_packet-read_example : ReadsBack empty_packet first.rtp first scan
first_packet-read_example =
    first_packet-read empty_packet first.rtp 0 0 128 640 480 table table scan first vga
      (omega arith) (refl, refl) (omega arith) first_made.1 own-Tags

abbrev later : RtpJpegPacket
later = later_packet 0 70000 0 96 640 480 scan

later-Tags : Tags later later.rtp
later-Tags = record {
  same_packet = refl;
  same_size = refl;
  valid =
      (later-IsReadable 0 70000 0 96 640 480 scan vga_later (omega arith) (omega arith)
        (omega arith)).valid;
}

later_packet-read_example : ReadsBack empty_packet later.rtp later scan
later_packet-read_example =
    later_packet-read empty_packet later.rtp 0 70000 0 96 640 480 scan vga_later (omega arith)
      (omega arith) (omega arith) later-Tags

abbrev header : JpegHeader
header = from_fields 640 480 table table

from_bytes-from_fields_example : from_bytes header (header.bytes ++ scan) ≡ some header
from_bytes-from_fields_example =
    from_bytes-from_fields header 640 480 table table scan (omega arith) (omega arith) refl refl

-- Five bytes of scan data, two to a packet.
abbrev server : Server
server = record { ssrc = 7; sequence_number = 65535; max_data_size = 2; rtp_packets = [] }

ap₄ :
    {A B C : Type 0} (f : A → A → B → B → C) {a a' b b' : A} {c c' d d' : B}
    → a ≡ a'
    → b ≡ b'
    → c ≡ c'
    → d ≡ d'
    → f a b c d ≡ f a' b' c' d'
ap₄ f p q r s = λ i. f (p i) (q i) (r i) (s i)

header-IsSendable : IsSendable server header scan
header-IsSendable =
    let (w, h, t0, t1) = from_fields-fields 640 480 table table in
    record {
      blocks = rw (w, h) vga;
      q0_sized = rw t0 refl;
      q1_sized = rw t1 refl;
      written = ap₄ from_fields w h t0 t1;
      addressable = omega arith;
      some_room = omega arith;
      ssrc_fits = omega arith;
      sequence_number_fits = omega arith;
    }

receive-send_frame_example :
    (server' : Server) × (send_frame (λ i. 40 + i) (whole_frame header scan false) server
      ≡ some server')
    × (f : JpegFrame) × (receive unsigned_char
          ([], [])
          true
          empty_packet
          none
          (map (λ p. p.rtp.packet) server'.rtp_packets)
        ≡ some (none, f ∷ []))
    × (f.bytes ≡ header.bytes ++ scan)
    × (f.header.width ≡ header.width)
    × (f.header.height ≡ header.height)
    × (f.finalized ≡ true)
receive-send_frame_example =
    receive-send_frame ([], []) server (λ i. 40 + i) header scan false empty_packet none
      header-IsSendable (omega arith)
