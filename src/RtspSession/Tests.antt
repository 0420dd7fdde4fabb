-- ===== src/RtspSession/Tests.antt =====
-- A session at concrete requests.
use espp.Prelude.{
  same_text, ℕ, ◌≡◌, ◌≤◌, refl, Bool, true, false, ◌∷◌, [], List, some, none, length, codes, pos,
  decimal, digits, arith, find_from, position, sub_string, add64, sub64, stoi, skip_spaces, signed,
  leading_digits, positive,
}
use espp.RtspSession.{
  Session, Poll, response, transmitted, session_header, teardown, handle_rtsp_request,
  handle_method, handle_rtsp_play, with_sequence, parse_rtsp_command_sequence, is_empty,
}
use espp.RtspSession.Parse.{cseq_request}
use espp.RtspSession.Dispatch.{line_request}
use espp.RtspSession.Verbs.{verb_play, answer, answered, word, handle_rtsp_request-word}
use espp.RtspSession.SetupText.{setup_text}
use espp.RtspSession.Setup.{setup_answer, set_up, handle_rtsp_request-setup}
use espp.RtspSession.Lifetime.{Returns, IsSettled}
use espp.RtspSession.Rounds.{Bounded, rounds, rounds-Bounded, rounds-teardown}

abbrev fresh : Session
fresh = record {
  session_id = 77;
  closed = false;
  session_active = false;
  server_address = codes "10.0.0.9";
  rtsp_path = codes "mjpeg/1";
  client_rtp_port = pos 0;
  client_rtcp_port = pos 0;
  sent = [];
}

-- A socket that sends what has at least one byte.
abbrev link : List ℕ → Bool
link [] = false
link (c ∷ text) = true

abbrev here : List ℕ
here = codes "rtsp://10.0.0.9/mjpeg/1"

play_fits :
    length (
      line_request
        (word verb_play)
        here
        (codes "RTSP/1.0")
        (cseq_request (codes "User-Agent: x\r\n") 4 (codes "\n\r\n")))
    ≤ 1024
unfolding word line_request cseq_request decimal digits
play_fits = omega arith

handle_rtsp_request-word_example :
    handle_rtsp_request link
      (line_request
        (word verb_play)
        here
        (codes "RTSP/1.0")
        (cseq_request (codes "User-Agent: x\r\n") 4 (codes "\n\r\n")))
      fresh
    ≡ some (link (answer verb_play 4 fresh), answered verb_play 4 fresh)
handle_rtsp_request-word_example =
    handle_rtsp_request-word link verb_play here (codes "RTSP/1.0") (codes "User-Agent: x\r\n")
      (codes "\n\r\n") 4 fresh (omega arith) (omega arith) (omega arith) (omega arith) (omega arith)
      play_fits

abbrev setup_request : List ℕ
setup_request =
    line_request (codes "SETUP") here (codes "RTSP/1.0")
      (setup_text (decimal 3) (decimal 8000) (decimal 8001) (codes "\n\r\n"))

setup_fits : length setup_request ≤ 1024
unfolding line_request setup_text decimal digits
setup_fits = omega arith

handle_rtsp_request-setup_example :
    handle_rtsp_request link setup_request fresh
    ≡ some (link (setup_answer 3 8000 8001 fresh), set_up 3 8000 8001 fresh)
handle_rtsp_request-setup_example =
    handle_rtsp_request-setup link here (codes "RTSP/1.0") (codes "\n\r\n") 3 8000 8001 fresh
      (omega arith) (omega arith) (omega arith) (omega arith) (omega arith) (omega arith) setup_fits

abbrev teardown_request : List ℕ
teardown_request =
    line_request (codes "TEARDOWN") here (codes "RTSP/1.0")
      (cseq_request (codes "Session: 77\r\n") 5 (codes "\n\r\n"))

teardown_fits : length teardown_request ≤ 1024
unfolding line_request cseq_request decimal digits
teardown_fits = omega arith

abbrev round : List ℕ → Poll
round request = record { valid = true; connected = true; received = some request }

-- The SETUP that comes after the TEARDOWN is not read.
rounds-teardown_example :
    rounds link (round teardown_request ∷ round setup_request ∷ []) fresh
    ≡ some
        (transmitted (response 200 (codes "OK") (pos 5) (session_header fresh) []) (teardown fresh))
rounds-teardown_example =
    rounds-teardown link here (codes "RTSP/1.0") (codes "Session: 77\r\n") (codes "\n\r\n") 5
      (round setup_request ∷ []) fresh refl (omega arith) (omega arith) (omega arith) (omega arith)
      (omega arith) teardown_fits

fresh-IsSettled : IsSettled fresh
unfolding IsSettled
fresh-IsSettled h = refl

rounds-Bounded_example :
    Returns
      (Bounded 2 fresh)
      (rounds link (round setup_request ∷ round teardown_request ∷ []) fresh)
rounds-Bounded_example =
    rounds-Bounded link (round setup_request ∷ round teardown_request ∷ []) fresh fresh-IsSettled

-- A request that ends behind the first line's carriage return, and one whose number is none.
request-throws : handle_rtsp_request link (codes "PLAY a b\r") fresh ≡ none
unfolding handle_rtsp_request find_from position sub_string add64 sub64
request-throws = refl

number-throws : handle_rtsp_request link (codes "PLAY a b\r\nCSeq: x\r\n") fresh ≡ none
unfolding handle_rtsp_request handle_method handle_rtsp_play same_text with_sequence
    parse_rtsp_command_sequence is_empty stoi skip_spaces signed leading_digits positive find_from
    position sub_string add64 sub64
number-throws = refl
