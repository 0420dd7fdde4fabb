-- ===== src/Rtp.antt =====
-- components/rtsp: what is sent in the media stream. The RTP packet, the packet of RFC 2435 on top
-- of it, and the JPEG frame that the receiver puts together.
pub mod Packet
pub mod JpegPacket
pub mod JpegHeader
pub mod JpegFrame
pub mod Stream
mod Tests
