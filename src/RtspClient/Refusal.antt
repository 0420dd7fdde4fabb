-- ===== src/RtspClient/Refusal.antt =====
-- A client at servers that answer in RTSP: components/rtsp/include/rtsp_client.hpp.
use espp.Prelude.{
  ℕ, ◌≡◌, ◌≢◌, refl, ap, Bool, true, false, Option, none, some, List, [], ◌∷◌, codes, starts_with,
  ◌>>=◌,
}
use mathlib.Core.Bool.{false≢true}
use espp.RtspClient.{
  ErrorCode, no_error, io_error, no_message, protocol_error, wrong_protocol_type,
  operation_canceled, Client, parse_response, Link, Result, when_clear, accepted, responded,
  send_request, after_connect, connect, describe, setup, setup_default, play, pause, teardown,
  disconnect, request_text, transport,
}

pub data Method : Type 0 where
  op_connect op_describe op_setup_default op_play op_pause op_teardown op_disconnect : Method
  op_setup : ℕ → ℕ → Method

module _ {W : Type 0} (link : Link W) where
  unfoldable pub call : Method → Client → W → Result W
  call op_connect = connect link
  call op_describe = describe link
  call op_setup_default = setup_default link
  call op_play = play link
  call op_pause = pause link
  call op_teardown = teardown link
  call op_disconnect = disconnect link
  call (op_setup rtp rtcp) = setup link rtp rtcp

  unfoldable pub call_all : List Method → Client → W → Option (Client × W)
  call_all [] c w = some (c, w)
  call_all (op ∷ ops) c w = do (e, response, c1, w1) ← call op c w; call_all ops c1 w1

-- A response that starts as RTSP says, or none.
unfoldable pub InRtsp : Option (List ℕ) → Type 0
InRtsp none = Unit
InRtsp (some response) = starts_with (codes "RTSP/1.0") response ≡ true

-- An operation ends with an error and an empty response, and leaves the client as it was.
unfoldable pub Fails : {W : Type 0} → Client → Result W → Type 0
Fails {W} c r = (e : ErrorCode) × (w : W) × (r ≡ some (e, [], c, w)) × (e ≢ no_error)

is_clear : ErrorCode → Bool
is_clear no_error = true
is_clear e = false

pub refused : protocol_error ≢ no_error
unfolding is_clear
refused h = false≢true (ap is_clear h)

pub unsent : io_error ≢ no_error
unfolding is_clear
unsent h = false≢true (ap is_clear h)

pub parse_response-refused :
    (response : List ℕ) (c : Client)
    → starts_with (codes "RTSP/1.0") response ≡ true
    → parse_response response c ≡ some (protocol_error, c)
unfolding parse_response
parse_response-refused [] c h = absurd (false≢true h)
parse_response-refused (b ∷ response) c h = rw (h) refl

module _ {W : Type 0} (link : Link W)
    (rtsp : (request : List ℕ) (w : W) → InRtsp ((link.exchange request w).0)) where
  responded-Fails : (r : Option (List ℕ) × W) (c : Client) → InRtsp (r.0) → Fails c (responded r c)
  unfolding Fails InRtsp responded accepted
  responded-Fails (none, w) c h = (io_error, w, refl, unsent)
  responded-Fails (some response, w) c h =
      (protocol_error, w, rw (parse_response-refused response c h) refl, refused)

  send_request-Fails :
      (method path : List ℕ) (extra_headers : List (List ℕ × List ℕ)) (c : Client) (w : W)
      → Fails c (send_request link method path extra_headers c w)
  unfolding send_request
  send_request-Fails method path extra_headers c w =
      responded-Fails (link.exchange (request_text method path extra_headers c) w) c
        (rtsp (request_text method path extra_headers c) w)

  -- What follows a request that failed.
  after-Fails :
      (r : Result W) (c : Client) (next : List ℕ → Client → W → Result W)
      → Fails c r
      → Fails c (r >>= λ answer. when_clear answer next)
  unfolding Fails when_clear
  after-Fails r c next (no_error, w, h, n) = absurd (n refl)
  after-Fails r c next (io_error, w, h, n) = (io_error, w, rw h refl, n)
  after-Fails r c next (no_message, w, h, n) = (no_message, w, rw h refl, n)
  after-Fails r c next (protocol_error, w, h, n) = (protocol_error, w, rw h refl, n)
  after-Fails r c next (wrong_protocol_type, w, h, n) = (wrong_protocol_type, w, rw h refl, n)
  after-Fails r c next (operation_canceled, w, h, n) = (operation_canceled, w, rw h refl, n)

  after_connect-Fails : (r : Bool × W) (c : Client) → Fails c (after_connect link r c)
  unfolding after_connect Fails
  after_connect-Fails (false, w) c = (io_error, w, refl, unsent)
  after_connect-Fails (true, w) c = send_request-Fails (codes "OPTIONS") (codes "*") [] c w

  reset-Fails :
      (r : Result W) (c : Client)
      → Fails c r
      → Fails c (r >>= λ (e, response, c1, w1). some (e, [], c1, link.reinit w1))
  unfolding Fails
  reset-Fails r c (e, w, h, n) = (e, link.reinit w, rw h refl, n)

  setup-Fails : (rtp rtcp : ℕ) (c : Client) (w : W) → Fails c (setup link rtp rtcp c w)
  unfolding setup
  setup-Fails rtp rtcp c w =
      after-Fails
        (send_request link (codes "SETUP") c.path ((codes "Transport", transport rtp rtcp) ∷ []) c
          w)
        c _
        (send_request-Fails (codes "SETUP") c.path ((codes "Transport", transport rtp rtcp) ∷ []) c
          w)

  -- At a link whose every response starts with `RTSP/1.0`, each of the client's operations raises no
  -- exception, ends with an error and an empty response, and leaves the client as it was.
  pub call-Fails : (op : Method) (c : Client) (w : W) → Fails c (call link op c w)
  unfolding call connect describe setup setup_default play pause teardown disconnect
  call-Fails op_connect c w =
      after_connect-Fails (link.connect c.server_address c.rtsp_port (link.reinit w)) c
  call-Fails op_describe c w =
      after-Fails (send_request link (codes "DESCRIBE") c.path [] c w) c _
        (send_request-Fails (codes "DESCRIBE") c.path [] c w)
  call-Fails op_setup_default c w = setup-Fails 5000 50001 c w
  call-Fails op_play c w = send_request-Fails (codes "PLAY") c.path [] c w
  call-Fails op_pause c w = send_request-Fails (codes "PAUSE") c.path [] c w
  call-Fails op_teardown c w = send_request-Fails (codes "TEARDOWN") c.path [] c w
  call-Fails op_disconnect c w =
      reset-Fails (send_request link (codes "TEARDOWN") c.path [] c w) c
        (send_request-Fails (codes "TEARDOWN") c.path [] c w)
  call-Fails (op_setup rtp rtcp) c w = setup-Fails rtp rtcp c w

  -- One operation before the others.
  next-unchanged :
      (r : Result W) (c : Client) (ops : List Method)
      → Fails c r
      → ((w : W) → (w1 : W) × (call_all link ops c w ≡ some (c, w1)))
      → (w1 : W) × ((r >>= λ (e, response, c1, w1). call_all link ops c1 w1) ≡ some (c, w1))
  unfolding Fails
  next-unchanged r c ops (e, w, h, n) rest = let (w1, done) = rest w in (w1, rw h done)

  -- At such a link no list of operations changes the client.
  pub call_all-unchanged :
      (ops : List Method) (c : Client) (w : W) → (w1 : W) × (call_all link ops c w ≡ some (c, w1))
  unfolding call_all
  call_all-unchanged [] c w = (w, refl)
  call_all-unchanged (op ∷ ops) c w =
      next-unchanged (call link op c w) c ops (call-Fails op c w) (call_all-unchanged ops c)
