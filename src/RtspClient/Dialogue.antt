-- ===== src/RtspClient/Dialogue.antt =====
-- A client's operations one after the other at a session of the server:
-- components/rtsp/include/rtsp_client.hpp and components/rtsp/include/rtsp_session.hpp.
use espp.Prelude.{
  if◌then◌else◌, ℕ, ◌^◌, ◌<◌, ◌≤◌, ◌≡◌, refl, Bool, some, List, [], ◌∷◌, length, All,
}
use espp.RtspSession.{Session}
use espp.RtspSession.Setup.{set_up}
use espp.RtspSession.Parse.{Free}
use espp.RtspSession.Verbs.{
  Verb, verb_options, verb_describe, verb_play, verb_pause, verb_teardown, word, answered,
}
use espp.RtspClient.{Client, request_text, disconnect, setup_default}
use espp.RtspClient.Refusal.{
  Method, op_connect, op_describe, op_setup_default, op_play, op_pause, op_teardown, op_disconnect,
  op_setup, call, call_all,
}
use espp.RtspClient.Served.{failure, server_link, path_of, method_of, call-served}
use espp.RtspClient.ServedSetup.{setup_request, setup-served}

unfoldable pub VerbFits : Client → Verb → Type 0
VerbFits c w = length (request_text (word w) (path_of w c) [] c) ≤ 1024

unfoldable pub SetupFits : Client → ℕ → ℕ → Type 0
SetupFits c rtp rtcp = (rtp < 2 ^ 31) × (rtcp < 2 ^ 31) × (length (setup_request rtp rtcp c) ≤ 1024)

-- The request has at most 1024 bytes, and its ports are below 2^31.
unfoldable pub Fits : Client → Method → Type 0
Fits c op_connect = VerbFits c verb_options
Fits c op_describe = VerbFits c verb_describe
Fits c op_setup_default = SetupFits c 5000 50001
Fits c op_play = VerbFits c verb_play
Fits c op_pause = VerbFits c verb_pause
Fits c op_teardown = VerbFits c verb_teardown
Fits c op_disconnect = VerbFits c verb_teardown
Fits c (op_setup rtp rtcp) = SetupFits c rtp rtcp

module _ (c : Client) where
  -- What the server makes of an operation, where the session is open.
  unfoldable pub reaction : Method → Session → Session
  reaction op_connect s = answered verb_options c.cseq s
  reaction op_describe s = answered verb_describe c.cseq s
  reaction op_setup_default s = set_up c.cseq 5000 50001 s
  reaction op_play s = answered verb_play c.cseq s
  reaction op_pause s = answered verb_pause c.cseq s
  reaction op_teardown s = answered verb_teardown c.cseq s
  reaction op_disconnect s = answered verb_teardown c.cseq s
  reaction (op_setup rtp rtcp) s = set_up c.cseq rtp rtcp s

  unfoldable pub reactions : List Method → Session → Session
  reactions [] s = s
  reactions (op ∷ ops) s = reactions ops (if s.closed then s else reaction op s)

module _ (transmit : List ℕ → Bool) (c : Client) (unnamed : c.session_id ≡ [])
    (spaces : Free 32 c.path) (returns : Free 13 c.path) (counted : c.cseq < 2 ^ 31) where
  disconnect-kept :
      (s s1 : Session) (closed : Bool)
      → call (server_link transmit) op_teardown c s ≡ some (failure closed, [], c, s1)
      → call (server_link transmit) op_disconnect c s ≡ some (failure closed, [], c, s1)
  unfolding call disconnect server_link
  disconnect-kept s s1 closed h = rw h refl

  call-reaction :
      (op : Method) (s : Session)
      → Fits c op
      → call (server_link transmit) op c s
        ≡ some (failure s.closed, [], c, if s.closed then s else reaction c op s)
  unfolding Fits VerbFits SetupFits reaction call method_of setup_default
  call-reaction op_connect s h = call-served transmit verb_options c s spaces returns counted h
  call-reaction op_describe s h = call-served transmit verb_describe c s spaces returns counted h
  call-reaction op_setup_default s (hr, hc, h) =
      setup-served transmit 5000 50001 c s unnamed spaces returns counted hr hc h
  call-reaction op_play s h = call-served transmit verb_play c s spaces returns counted h
  call-reaction op_pause s h = call-served transmit verb_pause c s spaces returns counted h
  call-reaction op_teardown s h = call-served transmit verb_teardown c s spaces returns counted h
  call-reaction op_disconnect s h =
      disconnect-kept s _ s.closed (call-served transmit verb_teardown c s spaces returns counted h)
  call-reaction (op_setup rtp rtcp) s (hr, hc, h) =
      setup-served transmit rtp rtcp c s unnamed spaces returns counted hr hc h

  -- A client without a session, whose path has no space and no carriage return and whose sequence
  -- number is below 2^31, whose sockets start and whose requests are what the control task of one
  -- session receives, round by round, over a connection that is there: any list of operations, with
  -- requests of at most 1024 bytes and ports below 2^31, raises no exception. An open session
  -- answers each of them with the code 200 and follows it, up to the first teardown or disconnect,
  -- from which on it stays as it is; and the client is left as it was.
  pub call_all-served :
      (ops : List Method) (s : Session)
      → All (Fits c) ops
      → call_all (server_link transmit) ops c s ≡ some (c, reactions c ops s)
  unfolding call_all reactions
  call_all-served [] s h = refl
  call_all-served (op ∷ ops) s (h, hs) =
      rw (call-reaction op s h) (call_all-served ops (if s.closed then s else reaction c op s) hs)
