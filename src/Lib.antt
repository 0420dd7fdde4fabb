-- ===== src/Lib.antt =====
-- The espp library: components for embedded systems, and a model of the ones with logic of their
-- own.
--
-- Rtp: the media stream of components/rtsp. A server cuts a JPEG frame into RTP packets, a client
-- puts it together again.
-- - Rtp.Packet: RtpPacket of components/rtsp/include/rtp_packet.hpp, with its header's bytes.
-- - Rtp.JpegPacket: RtpJpegPacket of rtp_jpeg_packet.hpp, both constructors and the parser. Whether
--   `char` has a sign is a parameter of the parser, which reads the header's bytes as `char`.
-- - Rtp.JpegHeader: JpegHeader of jpeg_header.hpp; its parser is a state monad that stops where the
--   source returns early and faults where it reads past the end of the data.
-- - Rtp.JpegFrame: JpegFrame of jpeg_frame.hpp.
-- - Rtp.Stream: RtspServer::send_frame of rtsp_server.hpp and RtspClient::handle_rtp_packet of
--   rtsp_client.hpp. The packets of a frame are a list of byte sequences; sockets and
--   tasks are not modelled. A frame's tables are views into its first packet; what is found there
--   after the packet is gone is a parameter of the receiver; the server's session around the stream is RtspSession.
-- Peripheral: the register access of the drivers, components/base_peripheral/include/
-- base_peripheral.hpp. The callbacks of a driver's user are parameters, functions on the state of
-- the bus. Peripheral.RegisterFile states what a device with byte registers does on the bus; the
-- theorems on success take it as their hypothesis, and Peripheral.Memory is such a device.
-- Peripheral.Direct has what needs no register.
-- Bm8563: the clock of components/bm8563/include/bm8563.hpp, on top of that register access.
--
-- Kts1622: the GPIO expander of components/kts1622/include/kts1622.hpp, on the same register access;
-- Kts1622.Operations says what each operation should leave in the registers. The device is a file of
-- registers there, the bits that are written to clear an interrupt included: what its pins and
-- interrupts do on their own is not modelled.
--
-- Mcp23x17: the GPIO expander of components/mcp23x17/include/mcp23x17.hpp, in the same way; that its
-- control register has two addresses is not modelled.
-- Peripheral.Sequences and Peripheral.Effects hold what both drivers share.
--
-- Ads7138: the analog-to-digital converter of components/ads7138/include/ads7138.hpp.
-- Ads7138.Commands holds the driver's members and the commands it sends, Ads7138 the alerts and the
-- digital outputs, Ads7138.Setup the set-up, Ads7138.Readings and .Statistics what is read,
-- Ads7138.Voltages the voltages. The conversions between voltages and raw values are parameters, any
-- functions. The wait for a conversion has fuel; Ads7138.Conversions says how much is enough.
-- Ads7138.OpcodeFile is the device that the theorems on the set-up expect.
--
-- LineInput: the line editor of components/cli/include/line_input.hpp. A stream is a list of bytes;
-- the loop has the length of the stream as its fuel, which is enough since an iteration takes a byte
-- or more. The terminal's answers are parameters; what is printed is not modelled.
--
-- EventManager: components/event_manager/src/event_manager.cpp, each operation one step on what the
-- maps hold of one topic; EventManager.Agreement and .Registry are about their agreement, .Delivery
-- about the way of an event to the callbacks. Interleavings inside an operation are not modelled.
--
-- RtspSession: a client's session at the RTSP server, components/rtsp/include/rtsp_session.hpp.
-- RtspSession.Message holds the state, the answers' texts and the readers, RtspSession itself the
-- handlers; `transmit` of the control socket is a parameter, and what the socket gives in a round of
-- the control task is an argument. An exception (std::out_of_range, std::invalid_argument) is `none`.
--
-- StateMachine: components/state_machine/include/state_base.hpp and the history states beside it. The
-- functions that are generated from a model are entries in a log of calls; the walks over the tree
-- of states have fuel, and more than the height of the tree is enough.
--
-- Ftp: a client's session at the FTP server, components/ftp/include/ftp_client_session.hpp. Ftp.Machine
-- is the host, a parameter: the sockets and the file system as functions on a state of its own.
-- Ftp.State holds the session and the transfers, Ftp.Listing the text of a directory, Ftp.Account,
-- Ftp.Transfer and Ftp.Files the handlers, Ftp itself the requests and the rounds of the task. `none`
-- is a crash, the overflow of an `int` included. A file is sent in pieces with its length as fuel, which is enough since a piece has a
-- byte or more. What a data connection brings is a list of pieces: a connection without an end is
-- not modelled. Ftp.Steps, .Logins, .Changes and .Transfers carry what a step keeps through the
-- handlers, to Ftp.Safety and Ftp.Rounds.
--
-- Ndef: NFC records, components/ndef/include/ndef.hpp. Ndef.Codes holds the enumerations; the
-- readers in Ndef.Format, Ndef.Pairing and Ndef.Wifi follow the formats, not the code.
--
-- RtspClient: the RTSP client, components/rtsp/include/rtsp_client.hpp. RtspClient.Texts holds its
-- members, the requests' texts and the readers of a response, RtspClient the operations. Its sockets
-- are a link, a parameter; an exception is `none`; the sequence number has no bound.
-- RtspClient.Refusal is about links that answer in RTSP, .Served, .ServedSetup and .Dialogue about
-- the link to an RtspSession, a request to which is a round of the session's control task. What it does with RTP packets is in Rtp.
--
-- Not modelled: the other drivers over the register access, the FTP client and the FTP server's table
-- of sessions; what computes with floating point (motors, filters, colours, joysticks); what only
-- calls the platform or a vendored library (sockets, tasks, timers, Wi-Fi, Bluetooth, displays, the
-- file system); mutexes and interleavings inside an operation; the log.
--
-- Buffer and Prelude hold what the components share.
pub mod Prelude
pub mod Ads7138
pub mod Bm8563
pub mod Buffer
pub mod EventManager
pub mod Ftp
pub mod Kts1622
pub mod LineInput
pub mod Mcp23x17
pub mod Ndef
pub mod Peripheral
pub mod Rtp
pub mod RtspClient
pub mod RtspSession
pub mod StateMachine
