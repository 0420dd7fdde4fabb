-- ===== src/RtspClient.antt =====
-- The requests of an RtspClient: components/rtsp/include/rtsp_client.hpp. The error code is clear
-- before an operation. The sockets are a link, a parameter.
mod Texts
mod Refusal
mod Served
mod ServedSetup
mod Dialogue
mod Tests
use espp.Prelude.{
  ℕ, ◌^◌, ◌%◌, Bool, true, false, Option, none, some, List, [], ◌∷◌, ◌++◌, codes, ℤ, pos, to_string,
  ◌>>=◌,
}
pub use Texts.{
  ErrorCode, no_error, io_error, no_message, protocol_error, wrong_protocol_type,
  operation_canceled, Client,
}
unfoldable pub use Texts.{
  new_client, request_text, parse_response, read_description, other_lines, header_lines,
}

-- `exchange` sends a request and gives the response, `none` if it cannot be sent; without a response
-- it gives an empty one.
pub record Link (W : Type 0) : Type 0 where
  pub reinit : W → W
  pub connect : List ℕ → ℤ → W → Bool × W
  pub exchange : List ℕ → W → Option (List ℕ) × W
  pub start_rtp : ℕ → W → Bool × W
  pub start_rtcp : ℕ → W → Bool × W

-- The error, the response, the client and the link after an operation.
abbrev pub Result : Type 0 → Type 0
Result W = Option (ErrorCode × List ℕ × Client × W)

module _ {W : Type 0} where
  -- What follows `if (ec) return;`.
  unfoldable pub when_clear :
      ErrorCode × List ℕ × Client × W → (List ℕ → Client → W → Result W) → Result W
  when_clear (no_error, response, c, w) next = next response c w
  when_clear (e, response, c, w) next = some (e, [], c, w)

  -- A response is handed on only where it is accepted.
  unfoldable pub accepted : List ℕ → W → ErrorCode × Client → ErrorCode × List ℕ × Client × W
  accepted response w (no_error, c) = (no_error, response, c, w)
  accepted response w (e, c) = (e, [], c, w)

  unfoldable pub responded : Option (List ℕ) × W → Client → Result W
  responded (none, w) c = some (io_error, [], c, w)
  responded (some response, w) c = do
    parsed ← parse_response response c
    some (accepted response w parsed)

  unfoldable pub started : Bool × W → Client → (W → Result W) → Result W
  started (false, w) c next = some (operation_canceled, [], c, w)
  started (true, w) c next = next w

unfoldable pub transport : ℕ → ℕ → List ℕ
transport rtp_port rtcp_port =
    codes "RTP/AVP;unicast;client_port="
    ++ (to_string (pos rtp_port) ++ (codes "-" ++ to_string (pos rtcp_port)))

module _ {W : Type 0} (link : Link W) where
  unfoldable pub send_request : List ℕ → List ℕ → List (List ℕ × List ℕ) → Client → W → Result W
  send_request method path extra_headers c w =
      responded (link.exchange (request_text method path extra_headers c) w) c

  unfoldable pub after_connect : Bool × W → Client → Result W
  after_connect (false, w) c = some (io_error, [], c, w)
  after_connect (true, w) c = send_request (codes "OPTIONS") (codes "*") [] c w

  unfoldable pub connect : Client → W → Result W
  connect c w = after_connect (link.connect c.server_address c.rtsp_port (link.reinit w)) c

  unfoldable pub describe : Client → W → Result W
  describe c w = do
    answer ← send_request (codes "DESCRIBE") c.path [] c w
    when_clear answer
        (λ response c1 w1. do read ← read_description response c1; some (read.0, [], read.1, w1))

  unfoldable pub init_rtp : ℕ → Client → W → (W → Result W) → Result W
  init_rtp rtp_port c w next = started (link.start_rtp rtp_port w) c next

  unfoldable pub init_rtcp : ℕ → Client → W → (W → Result W) → Result W
  init_rtcp rtcp_port c w next = started (link.start_rtcp rtcp_port w) c next

  unfoldable pub setup : ℕ → ℕ → Client → W → Result W
  setup rtp_port rtcp_port c w = do
    answer ←
        send_request (codes "SETUP") c.path ((codes "Transport", transport rtp_port rtcp_port) ∷ [])
          c w
    when_clear answer (λ response c1 w1.
        init_rtp rtp_port c1 w1
          (λ w2. init_rtcp rtcp_port c1 w2 (λ w3. some (no_error, [], c1, w3))))

  -- Without ports.
  unfoldable pub setup_default : Client → W → Result W
  setup_default c w = setup 5000 50001 c w

  unfoldable pub play : Client → W → Result W
  play c w = send_request (codes "PLAY") c.path [] c w

  unfoldable pub pause : Client → W → Result W
  pause c w = send_request (codes "PAUSE") c.path [] c w

  unfoldable pub teardown : Client → W → Result W
  teardown c w = send_request (codes "TEARDOWN") c.path [] c w

  unfoldable pub disconnect : Client → W → Result W
  disconnect c w = do (e, response, c1, w1) ← teardown c w; some (e, [], c1, link.reinit w1)
