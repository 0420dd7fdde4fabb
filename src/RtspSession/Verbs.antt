-- ===== src/RtspSession/Verbs.antt =====
-- The requests that only carry a sequence number, and the parameters of a SETUP.
use espp.Prelude.{
  ap, true, false, ◌∷◌, to_string, decimal, digits, same_text, ℕ, ◌^◌, ◌<◌, ◌≤◌, ◌≡◌, refl, ◌∙◌,
  Bool, some, List, [], ◌++◌, length, arith, codes, ℤ, pos,
}
use espp.RtspSession.{
  response, cseq_line, is_minus_one, body_part, crlf, origin, path_url, Session,
  handle_rtsp_request, handle_method, send_response, play, pause, teardown, session_header,
  describe_headers, sdp, handle_rtsp_options, handle_rtsp_describe, handle_rtsp_play,
  handle_rtsp_pause, handle_rtsp_teardown, with_sequence, with_parsed, ok,
}
use espp.RtspSession.Parse.{Free, cseq_request, parse-cseq_request}
use espp.RtspSession.Dispatch.{line_request, handle_rtsp_request-line, body-fits}

pub data Verb : Type 0 where
  verb_options verb_describe verb_play verb_pause verb_teardown : Verb

unfoldable pub word : Verb → List ℕ
word verb_options = codes "OPTIONS"
word verb_describe = codes "DESCRIBE"
word verb_play = codes "PLAY"
word verb_pause = codes "PAUSE"
word verb_teardown = codes "TEARDOWN"

-- What a request asks of the session.
unfoldable pub effect : Verb → Session → Session
effect verb_options s = s
effect verb_describe s = s
effect verb_play s = play s
effect verb_pause s = pause s
effect verb_teardown s = teardown s

unfoldable pub headers_of : Verb → Session → List ℕ
headers_of verb_options s = codes "Public: DESCRIBE, SETUP, TEARDOWN, PLAY, PAUSE\r\n"
headers_of verb_describe s = describe_headers s
headers_of verb_play s = session_header s ++ codes "Range: npt=0.000-\r\n"
headers_of verb_pause s = session_header s
headers_of verb_teardown s = session_header s

unfoldable pub content_of : Verb → Session → List ℕ
content_of verb_options s = []
content_of verb_describe s = sdp s
content_of verb_play s = []
content_of verb_pause s = []
content_of verb_teardown s = []

word-space : (w : Verb) → Free 32 (word w)
unfolding word
word-space verb_options = omega arith
word-space verb_describe = omega arith
word-space verb_play = omega arith
word-space verb_pause = omega arith
word-space verb_teardown = omega arith

word-return : (w : Verb) → Free 13 (word w)
unfolding word
word-return verb_options = omega arith
word-return verb_describe = omega arith
word-return verb_play = omega arith
word-return verb_pause = omega arith
word-return verb_teardown = omega arith

module _ (transmit : List ℕ → Bool) where
  handle_method-word :
      (w : Verb) (b : List ℕ) (s : Session)
      → handle_method transmit (word w) b s
        ≡ with_sequence transmit b
            (λ n. ok transmit n (headers_of w s) (content_of w s) (effect w s))
            s
  unfolding handle_method word same_text handle_rtsp_options handle_rtsp_describe handle_rtsp_play
      handle_rtsp_pause handle_rtsp_teardown headers_of content_of effect
  handle_method-word verb_options b s = refl
  handle_method-word verb_describe b s = refl
  handle_method-word verb_play b s = refl
  handle_method-word verb_pause b s = refl
  handle_method-word verb_teardown b s = refl

  with_sequence-cseq :
      (lead rest : List ℕ) (n : ℕ) (answer : ℤ → Bool × Session) (s : Session)
      → Free 67 lead
      → n < 2 ^ 31
      → length (cseq_request lead n rest) ≤ 1024
      → with_sequence transmit (cseq_request lead n rest) answer s ≡ some (answer (pos n))
  unfolding with_sequence with_parsed
  with_sequence-cseq lead rest n answer s f hn hl = rw (parse-cseq_request lead n rest f hn hl) refl

  pub handle_rtsp_request-sent :
      (w : Verb) (path version lead rest : List ℕ) (n : ℕ) (s : Session)
      → Free 32 path
      → Free 13 path
      → Free 13 version
      → Free 67 lead
      → n < 2 ^ 31
      → length (line_request (word w) path version (cseq_request lead n rest)) ≤ 1024
      → handle_rtsp_request transmit
          (line_request (word w) path version (cseq_request lead n rest))
          s
        ≡ some (
            send_response transmit 200
              (codes "OK")
              (pos n)
              (headers_of w s)
              (content_of w s)
              (effect w s))
  unfolding ok
  handle_rtsp_request-sent w path version lead rest n s ps pr vr f hn hl =
      handle_rtsp_request-line (word w) path version (cseq_request lead n rest) (word-space w) ps
        (word-return w) pr vr hl transmit s
      ∙ handle_method-word w (cseq_request lead n rest) s
      ∙ with_sequence-cseq lead rest n
          (λ n. ok transmit n (headers_of w s) (content_of w s) (effect w s)) s f hn
          (body-fits (word w) path version (cseq_request lead n rest) (word-space w) ps
            (word-return w) pr vr hl)

-- What the session is answered with, and what becomes of it, written out.
unfoldable pub url : Session → List ℕ
url s = codes "rtsp://" ++ s.server_address ++ codes "/" ++ s.rtsp_path

unfoldable pub description : Session → List ℕ
description s =
    codes "v=0\r\n"
    ++ (codes "o=- "
        ++ to_string (pos s.session_id)
        ++ codes " 1 IN IP4 "
        ++ s.server_address
        ++ codes "\r\n")
    ++ codes "s=MJPEG Stream\r\ni=MJPEG Stream\r\nt=0 0\r\na=control:"
    ++ url s
    ++ codes "\r\na=mimetype:string;\"video/x-motion-jpeg\"\r\nm=video 0 RTP/AVP 26\r\n"
    ++ codes "c=IN IP4 0.0.0.0\r\nb=AS:256\r\na=control:"
    ++ url s
    ++ codes "\r\na=udp-only\r\n"

unfoldable pub session_text : Session → List ℕ
session_text s = codes "Session: " ++ to_string (pos s.session_id) ++ codes "\r\n"

-- The headers behind the sequence number, with the empty line and the body.
unfoldable pub answer_headers : Verb → Session → List ℕ
answer_headers verb_options s = codes "Public: DESCRIBE, SETUP, TEARDOWN, PLAY, PAUSE\r\n"
answer_headers verb_describe s =
    codes "Content-Type: application/sdp\r\nContent-Base: " ++ url s ++ codes "\r\n"
answer_headers verb_play s = session_text s ++ codes "Range: npt=0.000-\r\n"
answer_headers verb_pause s = session_text s
answer_headers verb_teardown s = session_text s

unfoldable pub answer_body : Verb → Session → List ℕ
answer_body verb_options s = codes "\r\n"
answer_body verb_describe s =
    codes "Content-Length: "
    ++ to_string (pos (length (description s)))
    ++ codes "\r\n"
    ++ codes "\r\n"
    ++ description s
answer_body verb_play s = codes "\r\n"
answer_body verb_pause s = codes "\r\n"
answer_body verb_teardown s = codes "\r\n"

unfoldable pub answer : Verb → ℕ → Session → List ℕ
answer w n s =
    codes "RTSP/1.0 200 OK\r\n"
    ++ (codes "CSeq: " ++ to_string (pos n) ++ codes "\r\n")
    ++ answer_headers w s
    ++ answer_body w s

unfoldable pub answered : Verb → ℕ → Session → Session
answered verb_options n s = record s { sent = answer verb_options n s ∷ s.sent }
answered verb_describe n s = record s { sent = answer verb_describe n s ∷ s.sent }
answered verb_play n s = record s { session_active = true; sent = answer verb_play n s ∷ s.sent }
answered verb_pause n s = record s { session_active = false; sent = answer verb_pause n s ∷ s.sent }
answered verb_teardown n s = record s {
  session_active = false;
  closed = true;
  sent = answer verb_teardown n s ∷ s.sent;
}

module _ (transmit : List ℕ → Bool) where
  send-answered :
      (w : Verb) (n : ℕ) (s : Session)
      → send_response transmit 200
          (codes "OK")
          (pos n)
          (headers_of w s)
          (content_of w s)
          (effect w s)
        ≡ (transmit (answer w n s), answered w n s)
  unfolding send_response headers_of content_of effect answered answer answer_headers answer_body
      session_text description url response cseq_line is_minus_one body_part crlf session_header
      describe_headers sdp origin path_url to_string decimal digits
  send-answered verb_options n s = refl
  send-answered verb_describe n s = refl
  send-answered verb_play n s = refl
  send-answered verb_pause n s = refl
  send-answered verb_teardown n s = refl

  -- An OPTIONS, DESCRIBE, PLAY, PAUSE or TEARDOWN request of at most 1024 bytes, with a path that
  -- has no space and no carriage return, a version without a carriage return, and a header
  -- `CSeq: n` with n below 2^31 behind header lines without the letter C, leaves no exception: it is
  -- answered once, with the text that is written out for the method, with the code 200 and the
  -- request's sequence number. PLAY makes the session active, PAUSE makes it inactive, TEARDOWN
  -- makes it inactive and closes it, and nothing else of it changes but the log.
  pub handle_rtsp_request-word :
      (w : Verb) (path version lead rest : List ℕ) (n : ℕ) (s : Session)
      → Free 32 path
      → Free 13 path
      → Free 13 version
      → Free 67 lead
      → n < 2 ^ 31
      → length (line_request (word w) path version (cseq_request lead n rest)) ≤ 1024
      → handle_rtsp_request transmit
          (line_request (word w) path version (cseq_request lead n rest))
          s
        ≡ some (transmit (answer w n s), answered w n s)
  handle_rtsp_request-word w path version lead rest n s ps pr vr f hn hl =
      handle_rtsp_request-sent transmit w path version lead rest n s ps pr vr f hn hl
      ∙ ap some (send-answered w n s)
