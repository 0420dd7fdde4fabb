-- ===== src/Rtp/Stream.antt =====
-- The sending and the receiving end of the media stream: RtspServer::send_frame
-- (components/rtsp/include/rtsp_server.hpp) and RtspClient::handle_rtp_packet
-- (components/rtsp/include/rtsp_client.hpp). Sockets are not modelled: the packets of a frame are a
-- list of byte sequences.
mod Fragments
pub mod Receiving
pub mod EndToEnd
use espp.Prelude.{
  ℕ, zero, suc, ◌+◌, ◌-◌, ◌*◌, ◌/◌, ◌%◌, ◌^◌, Bool, true, false, ◌&&◌, Option, none, some, List, [],
  ◌∷◌, ◌==◌, ltb, if◌then◌else◌, length, take, drop, ◌>>=◌,
}
use espp.Rtp.Packet.{RtpPacket, serialize, u32}
use espp.Rtp.JpegHeader.{JpegHeader}
use espp.Rtp.JpegPacket.{CharKind, RtpJpegPacket, first_packet, later_packet, from_packet}
use espp.Rtp.JpegFrame.{JpegFrame, get_scan_data, add_scan, is_complete}
use espp.Rtp.JpegFrame

-- The members of the server that `send_frame` uses. `clock` is the time in milliseconds that the
-- steady clock shows when the packet of an index is tagged.
pub record Server : Type 0 where
  pub ssrc : ℕ
  pub sequence_number : ℕ
  pub max_data_size : ℕ
  pub rtp_packets : List RtpJpegPacket

-- `frame_data.substr(start, count)`.
pub substr : ℕ → ℕ → List ℕ → List ℕ
substr start count bytes = take count (drop start bytes)

pub lesser : ℕ → ℕ → ℕ
lesser a b = if ltb b a then b else a

-- Packet `i` before it is tagged.
pub fragment : ℕ → JpegHeader → List ℕ → ℕ → Option RtpJpegPacket
unfolding substr lesser
fragment max_data_size header frame_data i =
    let start_index = i * max_data_size in
    let end_index = lesser (start_index + max_data_size) (length frame_data) in
    let scan = substr start_index (end_index - start_index) frame_data in
    if i == 0
    then first_packet 0 0 128 header.width header.height header.q0_table header.q1_table scan
    else some (later_packet 0 (u32 start_index) 0 96 header.width header.height scan)

-- The setters and `serialize` of the loop's body.
pub tag : Server → ℕ → ℕ → Bool → RtpJpegPacket → RtpJpegPacket
tag server sequence_number timestamp last p = record p { rtp = serialize tagged }
  where
    rtp : RtpPacket
    rtp = p.rtp

    tagged : RtpPacket
    tagged = record rtp {
      payload_type = 26;
      sequence_number = sequence_number;
      timestamp = u32 (timestamp * 90);
      ssrc = server.ssrc;
      marker = if last then true else rtp.marker;
    }

-- The loop: `left` packets to go, the next with index `i`. `sequence_number_++` wraps at 16 bits.
pub packets :
    Server
    → (ℕ → ℕ)
    → JpegHeader
    → List ℕ
    → (left i sequence_number : ℕ) → Option (List RtpJpegPacket)
unfolding fragment tag
packets server clock header frame_data zero i sequence_number = some []
packets server clock header frame_data (suc left) i sequence_number = do
  p ← fragment server.max_data_size header frame_data i
  rest ← packets server clock header frame_data left (i + 1) ((sequence_number + 1) % 2 ^ 16)
  some (tag server sequence_number (clock i) (left == 0) p ∷ rest)

-- `send_frame`; `none` where the frame is shorter than its header, a table is shorter than 64
-- bytes, or the packet size is 0, by which the source divides.
pub send_frame : (ℕ → ℕ) → JpegFrame → Server → Option Server
send_frame clock frame server = do
  frame_data ← get_scan_data frame
  let num_packets = length frame_data / server.max_data_size + 1
  ps ← packets server clock frame.header frame_data num_packets 0 server.sequence_number
  if server.max_data_size == 0
      then none
      else some (record server {
        rtp_packets = ps;
        sequence_number = (server.sequence_number + num_packets) % 2 ^ 16;
      })

-- The receiver's state is the frame that is being built. A complete frame is moved into
-- `on_jpeg_frame_`, which empties the slot, if that callback is set. The second part is the frame
-- that was handed over.
-- The tables of a frame's header are views into its first packet, which is gone after the call.
-- `gone` is what is found there then.
abbrev pub stale : List ℕ × List ℕ → JpegHeader → JpegHeader
stale gone h = record h { q0_table = gone.0; q1_table = gone.1 }

deliver : List ℕ × List ℕ → Bool → JpegFrame → Option JpegFrame × Option JpegFrame
deliver gone callback frame =
    if is_complete frame && callback
    then (none, some frame)
    else (some (record frame { header = stale gone frame.header }), none)

append_to :
    List ℕ × List ℕ
    → Bool
    → Option JpegFrame
    → RtpJpegPacket
    → Option (Option JpegFrame × Option JpegFrame)
unfolding deliver
append_to gone callback none packet = some (none, none)
append_to gone callback (some frame) packet = do
  frame' ← add_scan frame packet
  some (deliver gone callback frame')

-- `before` is what the packet's members held. `none` is a read past the end of the data.
pub handle_rtp_packet :
    CharKind
    → List ℕ × List ℕ
    → Bool
    → RtpPacket
    → Option JpegFrame
    → List ℕ
    → Option (Option JpegFrame × Option JpegFrame)
handle_rtp_packet kind gone callback before jpeg_frame bytes = do
  packet ← from_packet kind before bytes
  let first = (do frame ← JpegFrame.from_packet packet; some (deliver gone callback frame))
  let later = append_to gone callback jpeg_frame packet
  if packet.offset == 0 then first else later

-- The datagrams one after another, with the frames that were handed over.
pub receive :
    CharKind
    → List ℕ × List ℕ
    → Bool
    → RtpPacket
    → Option JpegFrame
    → List (List ℕ)
    → Option (Option JpegFrame × List JpegFrame)
receive kind gone callback before slot [] = some (slot, [])
receive kind gone callback before slot (bytes ∷ datagrams) = do
  handled ← handle_rtp_packet kind gone callback before slot bytes
  let (slot', frame) = handled
  rest ← receive kind gone callback before slot' datagrams
  let (slot'', frames) = rest
  some (slot'', elim frame [ none ↦ frames | some f ↦ f ∷ frames ])
