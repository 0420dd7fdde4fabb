-- ===== src/RtspClient/Tests.antt =====
-- A client at concrete links.
use espp.Prelude.{
  All, ℕ, ◌+◌, ◌≡◌, refl, Bool, true, false, some, List, [], ◌∷◌, length, codes, pos, arith,
  decimal, digits, to_string, find_from, position, sub_string, add64, sub64, stoi, skip_spaces,
  signed, leading_digits, positive, value,
}
use espp.RtspSession.{Session}
use espp.RtspSession.Verbs.{verb_options, verb_describe, verb_play, verb_teardown, answered, word}
use espp.RtspClient.{
  no_error, Client, new_client, request_text, other_lines, parse_response, Link, transport,
}
use espp.RtspClient.Texts.{
  session_line, header_lines, read_status, read_session, is_ok, find_text_from,
}
use espp.RtspSession.Setup.{set_up}
use espp.RtspClient.Refusal.{
  Method, op_connect, op_describe, op_play, op_teardown, op_setup_default, op_setup, InRtsp, Fails,
  call, call_all, call-Fails,
}
use espp.RtspClient.Served.{server_link, path_of}
use espp.RtspClient.Dialogue.{VerbFits, SetupFits, Fits, reaction, reactions, call_all-served}

abbrev camera : Client
camera = record {
  server_address = codes "10.0.0.9";
  rtsp_port = pos 8554;
  path = codes "rtsp://10.0.0.9:8554/mjpeg/1";
  cseq = 0;
  session_id = [];
  video_port = pos 0;
  video_payload_type = pos 0;
}

new_client-camera : new_client (codes "10.0.0.9") (pos 8554) (codes "/mjpeg/1") ≡ camera
unfolding new_client to_string decimal digits
new_client-camera = refl

-- A server that answers every request in RTSP, and counts.
abbrev agreeing : Link ℕ
agreeing = record {
  reinit = λ n. n;
  connect = λ address port n. (true, n);
  exchange = λ request n. (some (codes "RTSP/1.0 200 OK\r\nCSeq: 0\r\n\r\n"), n + 1);
  start_rtp = λ port n. (true, n);
  start_rtcp = λ port n. (true, n);
}

agreeing-InRtsp : (request : List ℕ) (n : ℕ) → InRtsp ((agreeing.exchange request n).0)
unfolding InRtsp
agreeing-InRtsp request n = refl

call-Fails_example : Fails camera (call agreeing (op_setup 5000 5001) camera 0)
call-Fails_example = call-Fails agreeing agreeing-InRtsp (op_setup 5000 5001) camera 0

-- What the code accepts.
headless-accepted :
    parse_response (codes "HTTP/1.0 200 OK\r\nSession: 7\r\n\r\n") camera
    ≡ some (no_error, record camera { cseq = 1; session_id = codes "7" })
unfolding parse_response read_status read_session is_ok find_text_from find_from position sub_string
    add64 sub64 stoi skip_spaces signed leading_digits positive value
headless-accepted = refl

abbrev fresh : Session
fresh = record {
  session_id = 77;
  closed = false;
  session_active = false;
  server_address = codes "10.0.0.9";
  rtsp_path = codes "mjpeg/1";
  client_rtp_port = pos 0;
  client_rtcp_port = pos 0;
  sent = [];
}

abbrev sends : List ℕ → Bool
sends [] = false
sends (c ∷ text) = true

abbrev dialogue : List Method
dialogue = op_connect ∷ op_describe ∷ op_setup_default ∷ op_play ∷ op_teardown ∷ op_play ∷ []

connect_request-Fits : VerbFits camera verb_options
unfolding VerbFits word path_of request_text other_lines session_line header_lines to_string decimal
    digits
connect_request-Fits = omega arith

describe_request-Fits : VerbFits camera verb_describe
unfolding VerbFits word path_of request_text other_lines session_line header_lines to_string decimal
    digits
describe_request-Fits = omega arith

play_request-Fits : VerbFits camera verb_play
unfolding VerbFits word path_of request_text other_lines session_line header_lines to_string decimal
    digits
play_request-Fits = omega arith

teardown_request-Fits : VerbFits camera verb_teardown
unfolding VerbFits word path_of request_text other_lines session_line header_lines to_string decimal
    digits
teardown_request-Fits = omega arith

setup_request-Fits : SetupFits camera 5000 50001
unfolding SetupFits transport request_text other_lines session_line header_lines to_string decimal
    digits
setup_request-Fits = (omega arith, omega arith, omega arith)

dialogue-Fits : All (Fits camera) dialogue
unfolding Fits
dialogue-Fits = (
  connect_request-Fits,
  (
    describe_request-Fits,
    (setup_request-Fits, (play_request-Fits, (teardown_request-Fits, (play_request-Fits, tt)))),
  ),
)

call_all-served_example :
    call_all (server_link sends) dialogue camera fresh
    ≡ some (camera, reactions camera dialogue fresh)
call_all-served_example =
    call_all-served sends camera refl (omega arith) (omega arith) (omega arith) dialogue fresh
      dialogue-Fits

-- The session is closed and has sent five answers, none to the PLAY behind the TEARDOWN.
dialogue-closed : (reactions camera dialogue fresh).closed ≡ true
unfolding reactions reaction answered set_up
dialogue-closed = refl

dialogue-answers : length (reactions camera dialogue fresh).sent ≡ 5
unfolding reactions reaction answered set_up
dialogue-answers = refl
