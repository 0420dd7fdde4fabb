-- ===== src/Rtp/JpegFrame.antt =====
-- components/rtsp/include/jpeg_frame.hpp, class JpegFrame.
use espp.Prelude.{
  ℕ, Bool, true, false, Option, none, some, List, ◌++◌, if◌then◌else◌, length, drop, ltb, ◌>>=◌,
}
use espp.Rtp.JpegHeader.{JpegHeader, from_fields, from_bytes}
use espp.Rtp.JpegPacket.{RtpJpegPacket, get_q_table, get_jpeg_data}

pub record JpegFrame : Type 0 where
  pub bytes : List ℕ
  pub header : JpegHeader
  pub finalized : Bool

-- `JpegFrame(const char *data, size_t size)`; `before` is what the header's sizes held.
unfoldable pub from_buffer : JpegHeader → List ℕ → Option JpegFrame
from_buffer before buffer = do
  header ← from_bytes before buffer
  some (record { bytes = buffer; header = header; finalized = false })

-- The `add_scan` of bytes: nothing is added to a finalized frame.
unfoldable pub add_bytes : JpegFrame → List ℕ → JpegFrame
add_bytes f scan = if f.finalized then f else record f { bytes = f.bytes ++ scan }

unfoldable pub finalize : JpegFrame → JpegFrame
finalize f = record f { finalized = true }

-- The `add_scan` of a packet, which is also `append`.
unfoldable pub add_scan : JpegFrame → RtpJpegPacket → Option JpegFrame
unfolding add_bytes finalize
add_scan f packet = do
  scan ← get_jpeg_data packet
  let f' = add_bytes f scan
  some (if packet.rtp.marker then finalize f' else f')

-- `JpegFrame(const RtpJpegPacket &packet)`, with `serialize_header`.
unfoldable pub from_packet : RtpJpegPacket → Option JpegFrame
unfolding add_scan
from_packet packet =
    let header =
      from_fields packet.width packet.height (get_q_table packet 0) (get_q_table packet 1) in
    add_scan (record { bytes = header.bytes; header = header; finalized = false }) packet

unfoldable pub is_complete : JpegFrame → Bool
is_complete f = f.finalized

-- `none` where the frame is shorter than its header.
unfoldable pub get_scan_data : JpegFrame → Option (List ℕ)
get_scan_data f =
    let header_size = length f.header.bytes in
    if ltb (length f.bytes) header_size then none else some (drop header_size f.bytes)
