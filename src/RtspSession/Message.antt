-- ===== src/RtspSession/Message.antt =====
-- The state of an RtspSession, the texts it sends and the readers of what it receives:
-- components/rtsp/include/rtsp_session.hpp. A text is a list of bytes.
use espp.Prelude.{
  ℕ, ◌==◌, Bool, true, false, Option, none, some, List, [], ◌∷◌, ◌++◌, length, codes, ℤ, pos,
  negsuc, to_string, stoi, if◌then◌else◌, ◌>>=◌, find_text, find_from, position, sub_string, npos,
  add64, sub64,
}

-- `sent` is the log of what was passed to `transmit`, the last first.
pub record Session : Type 0 where
  pub session_id : ℕ
  pub closed : Bool
  pub session_active : Bool
  pub server_address : List ℕ
  pub rtsp_path : List ℕ
  pub client_rtp_port : ℤ
  pub client_rtcp_port : ℤ
  pub sent : List (List ℕ)

abbrev pub play : Session → Session
play s = record s { session_active = true }

abbrev pub pause : Session → Session
pause s = record s { session_active = false }

abbrev pub teardown : Session → Session
teardown s = record s { session_active = false; closed = true }

abbrev pub save_ports : ℤ → ℤ → Session → Session
save_ports rtp rtcp s = record s { client_rtp_port = rtp; client_rtcp_port = rtcp }

abbrev pub transmitted : List ℕ → Session → Session
transmitted text s = record s { sent = text ∷ s.sent }

unfoldable pub is_empty : List ℕ → Bool
is_empty [] = true
is_empty (c ∷ s) = false

unfoldable pub is_minus_one : ℤ → Bool
is_minus_one (pos n) = false
is_minus_one (negsuc n) = n == 0

unfoldable pub crlf : List ℕ
crlf = 13 ∷ 10 ∷ []

unfoldable pub cseq_line : ℤ → List ℕ
unfolding is_minus_one
cseq_line n = if is_minus_one n then [] else codes "CSeq: " ++ to_string n ++ crlf

unfoldable pub body_part : List ℕ → List ℕ
body_part [] = crlf
body_part (c ∷ body) =
    codes "Content-Length: " ++ to_string (pos (length (c ∷ body))) ++ crlf ++ crlf ++ (c ∷ body)

unfoldable pub response : ℕ → List ℕ → ℤ → List ℕ → List ℕ → List ℕ
response code message sequence_number headers body =
    codes "RTSP/1.0 "
    ++ to_string (pos code)
    ++ codes " "
    ++ message
    ++ crlf
    ++ cseq_line sequence_number
    ++ headers
    ++ body_part body

-- In what follows `none` is an exception that leaves the function.
unfoldable pub parse_rtsp_command_sequence : List ℕ → Option (Option ℤ)
parse_rtsp_command_sequence request =
    let cseq_index = position 0 (find_text (codes "CSeq: ") request) in
    let cseq_end_index = find_from 13 request cseq_index in
    if cseq_index == npos
    then some none
    else if cseq_end_index == npos
    then some none
    else (sub_string (add64 cseq_index 6) (sub64 (sub64 cseq_end_index cseq_index) 6) request
        >>= λ cseq_str.
            if is_empty cseq_str then some none else stoi cseq_str >>= λ cseq. some (some cseq))

unfoldable pub parse_rtsp_path : List ℕ → Option (List ℕ)
parse_rtsp_path request =
    let first = find_from 32 request 0 in
    sub_string (add64 first 1) (sub64 (sub64 (find_from 32 request (add64 first 1)) first) 1)
      request

-- What a round of the control task finds at its socket: a socket, a connection, a request.
pub record Poll : Type 0 where
  pub valid : Bool
  pub connected : Bool
  pub received : Option (List ℕ)

unfoldable pub session_header : Session → List ℕ
session_header s = codes "Session: " ++ to_string (pos s.session_id) ++ crlf

unfoldable pub transport_header : ℤ → ℤ → List ℕ
transport_header rtp rtcp =
    codes "Transport: RTP/AVP;unicast;client_port="
    ++ to_string rtp
    ++ codes "-"
    ++ to_string rtcp
    ++ crlf

unfoldable pub path_url : Session → List ℕ
path_url s = codes "rtsp://" ++ s.server_address ++ codes "/" ++ s.rtsp_path

unfoldable pub origin : Session → List ℕ
origin s =
    codes "o=- " ++ to_string (pos s.session_id) ++ codes " 1 IN IP4 " ++ s.server_address ++ crlf

unfoldable pub sdp : Session → List ℕ
sdp s =
    codes "v=0\r\n"
    ++ origin s
    ++ codes "s=MJPEG Stream\r\ni=MJPEG Stream\r\nt=0 0\r\na=control:"
    ++ path_url s
    ++ codes "\r\na=mimetype:string;\"video/x-motion-jpeg\"\r\nm=video 0 RTP/AVP 26\r\n"
    ++ codes "c=IN IP4 0.0.0.0\r\nb=AS:256\r\na=control:"
    ++ path_url s
    ++ codes "\r\na=udp-only\r\n"

unfoldable pub describe_headers : Session → List ℕ
describe_headers s = codes "Content-Type: application/sdp\r\nContent-Base: " ++ path_url s ++ crlf

unfoldable pub parse_ports : List ℕ → Option (Option (ℤ × ℤ))
parse_ports request =
    let client_port_index = position 0 (find_text (codes "client_port=") request) in
    let dash_index = find_from 45 request client_port_index in
    sub_string (add64 client_port_index 12) (sub64 (sub64 dash_index client_port_index) 12) request
    >>= λ rtp_port.
        (if is_empty rtp_port
          then some none
          else (sub_string (add64 dash_index 1)
                (sub64 (sub64 (find_from 13 request client_port_index) dash_index) 1) request
              >>= λ rtcp_port.
                  (if is_empty rtcp_port
                    then some none
                    else (do rtp ← stoi rtp_port; rtcp ← stoi rtcp_port; some (some (rtp, rtcp))))))
