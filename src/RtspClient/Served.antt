-- ===== src/RtspClient/Served.antt =====
-- A client at a session of the server: components/rtsp/include/rtsp_client.hpp and
-- components/rtsp/include/rtsp_session.hpp.
use espp.Prelude.{
  false, if◌then◌else◌, ℕ, ◌^◌, ◌<◌, ◌≤◌, ◌≡◌, ◌≢◌, refl, ap, ◌∙◌, Bool, true, Option, none, some,
  List, [], ◌∷◌, length, take, codes, arith, decimal, to_string, starts_with,
}
use mathlib.Core.Path.{subst}
use espp.RtspSession.{Poll, control_task_fn, receive_request, Session, handle_rtsp_request}
use espp.RtspSession.Parse.{Free, cseq_request}
use espp.RtspSession.Dispatch.{line_request}
use espp.RtspSession.Verbs.{
  Verb, verb_options, verb_describe, verb_play, verb_pause, verb_teardown, answer, answered, word,
  handle_rtsp_request-word,
}
use espp.RtspClient.{
  ErrorCode, io_error, protocol_error, Client, request_text, other_lines, Link, when_clear,
  accepted, responded, send_request, after_connect, connect, describe, play, pause, teardown,
}
use espp.RtspClient.Refusal.{
  Method, op_connect, op_describe, op_play, op_pause, op_teardown, call, parse_response-refused,
}

-- What the client receives of what a session sent, at most 1024 bytes.
unfoldable pub received : List (List ℕ) → List ℕ
received [] = []
received (text ∷ texts) = take 1024 text

-- A task that has stopped answers nothing.
unfoldable pub reply : Option (Bool × Session) → Session → Option (List ℕ) × Session
reply none s = (none, s)
reply (some (true, s1)) s = (none, s1)
reply (some (false, s1)) s = (some (received s1.sent), s1)

abbrev pub round : List ℕ → Poll
round request = record { valid = true; connected = true; received = some request }

-- The client's sockets start, and each of its requests is what one round of the session's control
-- task receives over a connection that is there; the last answer of the session comes back.
unfoldable pub server_link : (List ℕ → Bool) → Link Session
server_link transmit = record {
  reinit = λ s. s;
  connect = λ address port s. (true, s);
  exchange = λ request s. reply (control_task_fn transmit (round request) s) s;
  start_rtp = λ port s. (true, s);
  start_rtcp = λ port s. (true, s);
}

-- The error of a request to a session, which may be closed.
unfoldable pub failure : Bool → ErrorCode
failure true = io_error
failure false = protocol_error

unfoldable pub method_of : Verb → Method
method_of verb_options = op_connect
method_of verb_describe = op_describe
method_of verb_play = op_play
method_of verb_pause = op_pause
method_of verb_teardown = op_teardown

unfoldable pub path_of : Verb → Client → List ℕ
path_of verb_options c = codes "*"
path_of verb_describe c = c.path
path_of verb_play c = c.path
path_of verb_pause c = c.path
path_of verb_teardown c = c.path

answer-InRtsp :
    (w : Verb) (n : ℕ) (s : Session)
    → starts_with (codes "RTSP/1.0") (received (answered w n s).sent) ≡ true
unfolding answer answered received
answer-InRtsp verb_options n s = refl
answer-InRtsp verb_describe n s = refl
answer-InRtsp verb_play n s = refl
answer-InRtsp verb_pause n s = refl
answer-InRtsp verb_teardown n s = refl

request_text-line :
    (w : Verb) (c : Client)
    → request_text (word w) (path_of w c) [] c
      ≡ line_request
          (word w)
          (path_of w c)
          (codes "RTSP/1.0")
          (cseq_request [] c.cseq (10 ∷ other_lines c.session_id []))
unfolding request_text line_request cseq_request decimal to_string word path_of
request_text-line verb_options c = refl
request_text-line verb_describe c = refl
request_text-line verb_play c = refl
request_text-line verb_pause c = refl
request_text-line verb_teardown c = refl

path_of-Free : (a : ℕ) (w : Verb) (c : Client) → 42 ≢ a → Free a c.path → Free a (path_of w c)
unfolding path_of
path_of-Free a verb_options c n h = (n, tt)
path_of-Free a verb_describe c n h = h
path_of-Free a verb_play c n h = h
path_of-Free a verb_pause c n h = h
path_of-Free a verb_teardown c n h = h

module _ (transmit : List ℕ → Bool) where
  -- What is left of a request to a session that is closed, or that answers it.
  pub exchange-refused :
      (request : List ℕ) (c : Client) (s s1 : Session) (handled closed : Bool)
      → s.closed ≡ closed
      → handle_rtsp_request transmit request s ≡ some (handled, s1)
      → starts_with (codes "RTSP/1.0") (received s1.sent) ≡ true
      → responded (reply (control_task_fn transmit (round request) s) s) c
        ≡ some (failure closed, [], c, if closed then s else s1)
  unfolding control_task_fn receive_request reply responded accepted failure
  exchange-refused request c s s1 handled true e h r =
      ap
        (λ b.
          responded
            (reply (if b then some (true, s) else receive_request transmit (some request) s) s) c)
        e
  exchange-refused request c s s1 handled false e h r =
      ap
        (λ b.
          responded
            (reply (if b then some (true, s) else receive_request transmit (some request) s) s) c)
        e
      ∙ rw (h, parse_response-refused (received s1.sent) c r) refl

  -- A request that is refused is all of its operation.
  call-refused :
      (w : Verb) (c : Client) (s s1 : Session) (closed : Bool)
      → responded
          (reply (control_task_fn transmit (round (request_text (word w) (path_of w c) [] c)) s) s)
          c
        ≡ some (failure closed, [], c, s1)
      → call (server_link transmit) (method_of w) c s ≡ some (failure closed, [], c, s1)
  unfolding call method_of connect after_connect describe play pause teardown send_request
      server_link word path_of when_clear failure
  call-refused verb_options c s s1 closed h = h
  call-refused verb_describe c s s1 true h = rw h refl
  call-refused verb_describe c s s1 false h = rw h refl
  call-refused verb_play c s s1 closed h = h
  call-refused verb_pause c s s1 closed h = h
  call-refused verb_teardown c s s1 closed h = h

  word-answered :
      (w : Verb) (c : Client) (s : Session)
      → Free 32 c.path
      → Free 13 c.path
      → c.cseq < 2 ^ 31
      → length (request_text (word w) (path_of w c) [] c) ≤ 1024
      → handle_rtsp_request transmit (request_text (word w) (path_of w c) [] c) s
        ≡ some (transmit (answer w c.cseq s), answered w c.cseq s)
  word-answered w c s ps pr hn hl =
      ap (λ request. handle_rtsp_request transmit request s) (request_text-line w c)
      ∙ handle_rtsp_request-word transmit w (path_of w c) (codes "RTSP/1.0") []
          (10 ∷ other_lines c.session_id []) c.cseq s (path_of-Free 32 w c (omega arith) ps)
          (path_of-Free 13 w c (omega arith) pr) (omega arith) tt hn
          (subst (λ request. length request ≤ 1024) (request_text-line w c) hl)

  -- A client whose path has no space and no carriage return and whose sequence number is below
  -- 2^31, at a session of the server: connect, describe, play, pause and teardown, with a request of
  -- at most 1024 bytes, end with an error, an empty response and the client as it was. A closed
  -- session stays as it is; an open one answers with the code 200 and follows the method.
  pub call-served :
      (w : Verb) (c : Client) (s : Session)
      → Free 32 c.path
      → Free 13 c.path
      → c.cseq < 2 ^ 31
      → length (request_text (word w) (path_of w c) [] c) ≤ 1024
      → call (server_link transmit) (method_of w) c s
        ≡ some (failure s.closed, [], c, if s.closed then s else answered w c.cseq s)
  call-served w c s ps pr hn hl = call-refused w c s _ s.closed (
      exchange-refused (request_text (word w) (path_of w c) [] c) c s (answered w c.cseq s)
        (transmit (answer w c.cseq s)) s.closed refl (word-answered w c s ps pr hn hl)
        (answer-InRtsp w c.cseq s))
