-- ===== src/RtspClient/Texts.antt =====
-- What an RtspClient writes and reads: components/rtsp/include/rtsp_client.hpp. A text is a list of
-- bytes, and `none` is an exception that leaves the function.
use espp.Prelude.{
  ◌+◌, ℕ, ◌==◌, Bool, false, Option, some, List, [], ◌∷◌, ◌++◌, length, drop, codes, ℤ, pos, negsuc,
  to_string, stoi, if◌then◌else◌, ◌>>=◌, leb, find_text, find_from, position, starts_with,
  sub_string, npos, add64, sub64,
}

-- What the error code holds.
pub data ErrorCode : Type 0 where
  no_error io_error no_message protocol_error wrong_protocol_type operation_canceled : ErrorCode

pub record Client : Type 0 where
  pub server_address : List ℕ
  pub rtsp_port : ℤ
  pub path : List ℕ
  pub cseq : ℕ
  pub session_id : List ℕ
  pub video_port : ℤ
  pub video_payload_type : ℤ

unfoldable pub new_client : List ℕ → ℤ → List ℕ → Client
new_client server_address rtsp_port path = record {
  server_address = server_address;
  rtsp_port = rtsp_port;
  path = codes "rtsp://" ++ (server_address ++ (codes ":" ++ (to_string rtsp_port ++ path)));
  cseq = 0;
  session_id = [];
  video_port = pos 0;
  video_payload_type = pos 0;
}

-- `s.find(text, from)`.
unfoldable pub find_text_from : List ℕ → List ℕ → ℕ → ℕ
find_text_from text s from =
    if leb from (length s) then position from (find_text text (drop from s)) else npos

unfoldable pub session_line : List ℕ → List ℕ
session_line [] = []
session_line (c ∷ id) = codes "Session: " ++ ((c ∷ id) ++ codes "\r\n")

unfoldable pub header_lines : List (List ℕ × List ℕ) → List ℕ
header_lines [] = []
header_lines ((key, value) ∷ headers) =
    key ++ (codes ": " ++ (value ++ (codes "\r\n" ++ header_lines headers)))

-- Behind the sequence number.
unfoldable pub other_lines : List ℕ → List (List ℕ × List ℕ) → List ℕ
other_lines session_id extra_headers =
    session_line session_id
    ++ (header_lines extra_headers
        ++ codes "User-Agent: rtsp-client\r\nAccept: application/sdp\r\n\r\n")

unfoldable pub request_text : List ℕ → List ℕ → List (List ℕ × List ℕ) → Client → List ℕ
request_text method path extra_headers c =
    method
    ++ (codes " "
        ++ (path
            ++ (codes " RTSP/1.0\r\nCSeq: "
                ++ (to_string (pos c.cseq)
                    ++ (codes "\r\n" ++ other_lines c.session_id extra_headers)))))

-- The session's identifier, where the response has one.
unfoldable pub read_session : ℕ → List ℕ → Client → Option (ErrorCode × Client)
read_session session_pos response c =
    if session_pos == npos then some (no_error, record c { cseq = c.cseq + 1 }) else (do
      id ←
          sub_string (add64 session_pos 9)
            (sub64 (sub64 (find_text_from (codes "\r\n") response session_pos) session_pos) 9)
            response
      some (no_error, record c { session_id = id; cseq = c.cseq + 1 }))

unfoldable pub is_ok : ℤ → Bool
is_ok (pos n) = n == 200
is_ok (negsuc n) = false

-- The code and the message, which is only logged.
unfoldable pub read_status : List ℕ → Client → Option (ErrorCode × Client)
read_status response c = do
  code_text ← sub_string 9 3 response
  status_code ← stoi code_text
  status_message ← sub_string 13 (sub64 (find_text_from (codes "\r\n") response 0) 13) response
  (if is_ok status_code
      then read_session (find_text_from (codes "Session: ") response 0) response c
      else some (protocol_error, c))

-- A response is refused where it starts with the name of the protocol.
unfoldable pub parse_response : List ℕ → Client → Option (ErrorCode × Client)
parse_response [] c = some (no_message, c)
parse_response (b ∷ response) c =
    if starts_with (codes "RTSP/1.0") (b ∷ response)
    then some (protocol_error, c)
    else read_status (b ∷ response) c

-- The reader of the session description. `none` inside is an error, which the error code shows.
unfoldable pub read_numbers : List ℕ → Client → Option (ErrorCode × Client)
read_numbers sdp c =
    let port_start = find_from 32 sdp 0 in
    let port_end = find_from 32 sdp (add64 port_start 1) in
    let payload_type_start = find_from 32 sdp (add64 port_end 1) in
    if port_start == npos
    then some (protocol_error, c)
    else if port_end == npos
    then some (protocol_error, c)
    else (do
      port ← sub_string (add64 port_start 1) (sub64 (sub64 port_end port_start) 1) sdp
      video_port ← stoi port
      (if payload_type_start == npos
          then some (protocol_error, record c { video_port = video_port })
          else (do
            payload_type ←
                sub_string (add64 payload_type_start 1)
                  (sub64 (sub64 (length sdp) payload_type_start) 1) sdp
            video_payload_type ← stoi payload_type
            some (
              no_error,
              record c { video_port = video_port; video_payload_type = video_payload_type },
            ))))

unfoldable pub read_description : List ℕ → Client → Option (ErrorCode × Client)
read_description response c =
    let sdp_start = find_text_from (codes "m=video") response 0 in
    let sdp_end = find_text_from (codes "\r\n") response sdp_start in
    if sdp_start == npos
    then some (wrong_protocol_type, c)
    else if sdp_end == npos
    then some (protocol_error, c)
    else (do sdp ← sub_string sdp_start (sub64 sdp_end sdp_start) response; read_numbers sdp c)
