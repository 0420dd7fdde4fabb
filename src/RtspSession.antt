-- ===== src/RtspSession.antt =====
-- components/rtsp/include/rtsp_session.hpp: what an RtspSession does with a request.
mod Message
pub mod Parse
pub mod Dispatch
pub mod Verbs
pub mod SetupText
mod SetupPorts
pub mod Setup
mod Lifetime
mod Rounds
mod Tests
use espp.Prelude.{
  same_text, ℕ, ◌+◌, ◌==◌, ◌<◌, ◌^◌, Bool, true, false, not, ◌&&◌, ◌||◌, Option, none, some, List,
  [], ◌∷◌, ◌++◌, length, codes, ℤ, pos, negsuc, to_string, stoi, if◌then◌else◌, ◌>>=◌, find_char,
  find_text, find_from, position, sub_string, npos, add64, sub64,
}
-- `sent` is the log of what was passed to `transmit`, the last first.
pub use Message.{Session, Poll, play, pause, teardown, save_ports, transmitted}
unfoldable pub use Message.{
  is_empty, is_minus_one, crlf, cseq_line, body_part, response, parse_rtsp_command_sequence,
  parse_rtsp_path, session_header, transport_header, path_url, origin, sdp, describe_headers,
  parse_ports,
}

module _ (transmit : List ℕ → Bool) where
  unfoldable pub send_response : ℕ → List ℕ → ℤ → List ℕ → List ℕ → Session → Bool × Session
  send_response code message sequence_number headers body s =
      let text = response code message sequence_number headers body in
      (transmit text, transmitted text s)

  unfoldable pub refuse : Option ℤ → Session → Bool × Session
  refuse none s = send_response 400 (codes "Bad Request") (negsuc 0) [] [] s
  refuse (some n) s = send_response 400 (codes "Bad Request") n [] [] s

  unfoldable pub handle_rtsp_invalid_request : List ℕ → Session → Option (Bool × Session)
  handle_rtsp_invalid_request request s = do
    parsed ← parse_rtsp_command_sequence request
    some (refuse parsed s)

  -- A handler behind its reading of the sequence number.
  unfoldable pub with_parsed :
      Option ℤ → List ℕ → (ℤ → Bool × Session) → Session → Option (Bool × Session)
  with_parsed none request answer s = handle_rtsp_invalid_request request s
  with_parsed (some n) request answer s = some (answer n)

  -- The first step of the handlers.
  unfoldable pub with_sequence : List ℕ → (ℤ → Bool × Session) → Session → Option (Bool × Session)
  with_sequence request answer s = do
    parsed ← parse_rtsp_command_sequence request
    with_parsed parsed request answer s

  unfoldable pub ok : ℤ → List ℕ → List ℕ → Session → Bool × Session
  ok n headers body s = send_response 200 (codes "OK") n headers body s

  unfoldable pub handle_rtsp_options : List ℕ → Session → Option (Bool × Session)
  unfolding with_sequence ok
  handle_rtsp_options request s =
      with_sequence request
        (λ n. ok n (codes "Public: DESCRIBE, SETUP, TEARDOWN, PLAY, PAUSE\r\n") [] s) s

  unfoldable pub handle_rtsp_describe : List ℕ → Session → Option (Bool × Session)
  handle_rtsp_describe request s =
      with_sequence request (λ n. ok n (describe_headers s) (sdp s) s) s

  unfoldable pub handle_rtsp_play : List ℕ → Session → Option (Bool × Session)
  handle_rtsp_play request s =
      with_sequence request
        (λ n. ok n (session_header s ++ codes "Range: npt=0.000-\r\n") [] (play s)) s

  unfoldable pub handle_rtsp_pause : List ℕ → Session → Option (Bool × Session)
  handle_rtsp_pause request s = with_sequence request (λ n. ok n (session_header s) [] (pause s)) s

  unfoldable pub handle_rtsp_teardown : List ℕ → Session → Option (Bool × Session)
  handle_rtsp_teardown request s =
      with_sequence request (λ n. ok n (session_header s) [] (teardown s)) s

  -- With the place of the TCP transport, which is refused.
  unfoldable pub parse_unless_tcp : Option ℕ → List ℕ → Session → Option (Option (ℤ × ℤ) × Session)
  parse_unless_tcp none request s = do ports ← parse_ports request; some (ports, s)
  parse_unless_tcp (some n) request s =
      some (none, (send_response 461 (codes "Unsupported Transport") (negsuc 0) [] [] s).1)

  unfoldable pub parse_transport : List ℕ → Session → Option (Option (ℤ × ℤ) × Session)
  parse_transport request s =
      let transport_index = position 0 (find_text (codes "Transport: ") request) in
      let transport_end_index = find_from 13 request transport_index in
      if transport_index == npos
      then some (none, s)
      else if transport_end_index == npos
      then some (none, s)
      else (do
        transport ←
            sub_string (add64 transport_index 11)
              (sub64 (sub64 transport_end_index transport_index) 11) request
        (if is_empty transport
            then some (none, s)
            else parse_unless_tcp (find_text (codes "RTP/AVP/TCP") transport) request s))

  -- Looks for the client's two ports; `none` in the pair is a request that was not understood.
  unfoldable pub parse_rtsp_setup_request : List ℕ → Session → Option (Option (ℤ × ℤ) × Session)
  parse_rtsp_setup_request request s = do
    path ← parse_rtsp_path request
    if is_empty path then some (none, s) else parse_transport request s

  unfoldable pub answer_setup : List ℕ → Option (ℤ × ℤ) → Session → Option (Bool × Session)
  answer_setup request none s = some (false, s)
  answer_setup request (some (rtp, rtcp)) s =
      with_sequence request
        (λ n. ok n (session_header s ++ transport_header rtp rtcp) [] (save_ports rtp rtcp s)) s

  unfoldable pub handle_rtsp_setup : List ℕ → Session → Option (Bool × Session)
  handle_rtsp_setup request s = do
    (ports, s1) ← parse_rtsp_setup_request request s
    answer_setup request ports s1

  unfoldable pub handle_method : List ℕ → List ℕ → Session → Option (Bool × Session)
  handle_method method request_body s =
      if same_text method (codes "OPTIONS")
      then handle_rtsp_options request_body s
      else if same_text method (codes "DESCRIBE")
      then handle_rtsp_describe request_body s
      else if same_text method (codes "SETUP")
      then handle_rtsp_setup request_body s
      else if same_text method (codes "PLAY")
      then handle_rtsp_play request_body s
      else if same_text method (codes "PAUSE")
      then handle_rtsp_pause request_body s
      else if same_text method (codes "TEARDOWN")
      then handle_rtsp_teardown request_body s
      else handle_rtsp_invalid_request request_body s

  unfoldable pub handle_rtsp_request : List ℕ → Session → Option (Bool × Session)
  handle_rtsp_request request s =
      let first_space_index = find_from 32 request 0 in
      let second_space_index = find_from 32 request (add64 first_space_index 1) in
      let end_of_line_index = find_from 13 request 0 in
      if (first_space_index == npos) || (second_space_index == npos) || (end_of_line_index == npos)
      then handle_rtsp_invalid_request request s
      else (do
        method ← sub_string 0 first_space_index request
        rtsp_path ←
            sub_string (add64 first_space_index 1)
              (sub64 (sub64 second_space_index first_space_index) 1) request
        rtsp_version ←
            sub_string (add64 second_space_index 1)
              (sub64 (sub64 end_of_line_index second_space_index) 1) request
        request_body ← sub_string (add64 end_of_line_index 2) npos request
        handle_method method request_body s)

  unfoldable pub receive_request : Option (List ℕ) → Session → Option (Bool × Session)
  receive_request none s = some (false, s)
  receive_request (some request) s = do
    (handled, s1) ← handle_rtsp_request request s
    some (false, s1)

  -- One round of the control task, with what the socket gives: the answer `true` stops the task.
  unfoldable pub control_task_fn : Poll → Session → Option (Bool × Session)
  control_task_fn p s =
      if s.closed
      then some (true, s)
      else if not p.valid
      then some (true, teardown s)
      else if not p.connected
      then some (true, teardown s)
      else receive_request p.received s
