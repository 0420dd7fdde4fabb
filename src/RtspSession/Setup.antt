-- ===== src/RtspSession/Setup.antt =====
-- The SETUP request: the client's two ports are read and kept.
use espp.Prelude.{
  ap, to_string, digits, same_text, ℕ, ◌+◌, ◌^◌, ◌<◌, ◌≤◌, ◌≡◌, refl, ◌∙◌, Bool, false, some, List,
  [], ◌∷◌, ◌++◌, length, arith, codes, pos, decimal, stoi, stoi-decimal, IsDigit, decimal-IsDigit,
  All, length-append, position, add64, sub64, npos, ◌==◌,
}
use espp.Prelude.{◌>>=◌}
use espp.RtspSession.{
  response, cseq_line, is_minus_one, body_part, crlf, Session, handle_rtsp_request, handle_method,
  send_response, parse_rtsp_path, parse_ports, parse_rtsp_command_sequence, parse_transport,
  parse_rtsp_setup_request, is_empty,
}
use espp.RtspSession.Parse.{Free, cseq_request, parse-cseq_request}
use espp.RtspSession.Dispatch.{line_request, handle_rtsp_request-line, body-fits}
use espp.RtspSession.{
  answer_setup, handle_rtsp_setup, save_ports, session_header, transport_header, with_sequence,
  with_parsed, parse_unless_tcp, ok,
}
use espp.RtspSession.Parse.{decimal-filled, parse-cseq_request}
use espp.RtspSession.SetupText.{
  setup_text, first_gap, second_gap, path_read, transport_found, transport_end, transport_read,
  not_tcp,
}
use espp.RtspSession.SetupPorts.{
  client_port_found, dash_found, rtp_port_read, ports_end, rtcp_port_read,
}

append-filled : (x y : List ℕ) → is_empty x ≡ false → is_empty (x ++ y) ≡ false
unfolding is_empty
append-filled [] y h = absurd (ground (arith, h))
append-filled (c ∷ x) y h = refl

near : (a b e : ℕ) → a + b ≡ e → e ≤ 8192 → add64 a b ≡ e
unfolding add64
near a b e h l = omega arith

between : (a k n e : ℕ) → e ≡ a + k + n → e ≤ 8192 → k ≤ 8192 → sub64 (sub64 e a) k ≡ n
unfolding sub64
between a k n e h l m = omega arith

away : (a : ℕ) → a ≤ 8192 → (a == npos) ≡ false
away a h = ground arith

at_start : (n : ℕ) → position 0 (some n) ≡ n
unfolding position
at_start n = omega arith

module _ (x y z rest : List ℕ) (xd : All IsDigit x) (yd : All IsDigit y) (zd : All IsDigit z)
    (fx : is_empty x ≡ false) (fy : is_empty y ≡ false) (fz : is_empty z ≡ false)
    (hl : length (setup_text x y z rest) ≤ 1024) where
  sizes : length x + length y + length z ≤ 1024
  unfolding setup_text
  sizes = omega (
    arith,
    hl,
    length-append x
        (codes "\r\nTransport: RTP/AVP;unicast;client_port=" ++ (y ++ (45 ∷ (z ++ (13 ∷ rest))))),
    length-append y (45 ∷ (z ++ (13 ∷ rest))),
    length-append z (13 ∷ rest),
  )

  path-read : parse_rtsp_path (setup_text x y z rest) ≡ some (x ++ codes "\r\nTransport:")
  unfolding parse_rtsp_path
  path-read =
      rw
        (
          first_gap x y z rest xd yd zd,
          near 5 1 6 refl (omega arith),
          second_gap x y z rest xd yd zd,
          between 5 1 (length x + 12) (length x + 18) (omega arith) (omega (arith, sizes))
              (omega arith),
          path_read x y z rest xd yd zd,
        )
        refl

  ports-read :
      (rtp rtcp : ℕ)
      → stoi y ≡ some (pos rtp)
      → stoi z ≡ some (pos rtcp)
      → parse_ports (setup_text x y z rest) ≡ some (some (pos rtp, pos rtcp))
  unfolding parse_ports
  ports-read rtp rtcp ey ez =
      rw
        (
          client_port_found x y z rest xd yd zd,
          at_start (length x + 35),
          dash_found x y z rest xd yd zd,
          ports_end x y z rest xd yd zd,
          near (length x + 35) 12 (length x + 47) (omega arith) (omega (arith, sizes)),
          near (length x + 47 + length y) 1 (length x + 48 + length y) (omega arith)
              (omega (arith, sizes)),
          between (length x + 35) 12 (length y) (length x + 47 + length y) (omega arith)
              (omega (arith, sizes)) (omega arith),
          rtp_port_read x y z rest xd yd zd,
          between (length x + 47 + length y) 1 (length z) (length x + 48 + length y + length z)
              (omega arith) (omega (arith, sizes)) (omega arith),
          rtcp_port_read x y z rest xd yd zd,
          fy,
          fz,
          ey,
          ez,
        )
        refl

  transport-read :
      (transmit : List ℕ → Bool) (s : Session)
      → parse_transport transmit (setup_text x y z rest) s
        ≡ (parse_ports (setup_text x y z rest) >>= λ ports. some (ports, s))
  unfolding parse_transport is_empty parse_unless_tcp
  transport-read transmit s =
      rw
        (
          transport_found x y z rest xd yd zd,
          at_start (length x + 8),
          transport_end x y z rest xd yd zd,
          away (length x + 8) (omega (arith, sizes)),
          away (length x + 48 + length y + length z) (omega (arith, sizes)),
          near (length x + 8) 11 (length x + 19) (omega arith) (omega (arith, sizes)),
          between (length x + 8) 11 (29 + length y + length z) (length x + 48 + length y + length z)
              (omega arith) (omega (arith, sizes)) (omega arith),
          transport_read x y z rest xd yd zd,
          not_tcp x y z rest xd yd zd,
        )
        refl

  setup-read :
      (transmit : List ℕ → Bool) (s : Session) (rtp rtcp : ℕ)
      → stoi y ≡ some (pos rtp)
      → stoi z ≡ some (pos rtcp)
      → parse_rtsp_setup_request transmit (setup_text x y z rest) s
        ≡ some (some (pos rtp, pos rtcp), s)
  unfolding parse_rtsp_setup_request
  setup-read transmit s rtp rtcp ey ez =
      rw
        (
          path-read,
          append-filled x (codes "\r\nTransport:") fx,
          transport-read transmit s,
          ports-read rtp rtcp ey ez,
        )
        refl

setup-cseq :
    (n : ℕ) (y z rest : List ℕ)
    → n < 2 ^ 31
    → length (setup_text (decimal n) y z rest) ≤ 1024
    → parse_rtsp_command_sequence (setup_text (decimal n) y z rest) ≡ some (some (pos n))
unfolding setup_text cseq_request
setup-cseq n y z rest hn hl =
    parse-cseq_request [] n
      (codes "\nTransport: RTP/AVP;unicast;client_port=" ++ (y ++ (45 ∷ (z ++ (13 ∷ rest))))) tt hn
      hl

setup-answered :
    (transmit : List ℕ → Bool) (n rtp rtcp : ℕ) (rest : List ℕ) (s : Session)
    → n < 2 ^ 31
    → rtp < 2 ^ 31
    → rtcp < 2 ^ 31
    → length (setup_text (decimal n) (decimal rtp) (decimal rtcp) rest) ≤ 1024
    → handle_rtsp_setup transmit (setup_text (decimal n) (decimal rtp) (decimal rtcp) rest) s
      ≡ some (
          send_response transmit 200
            (codes "OK")
            (pos n)
            (session_header s ++ transport_header (pos rtp) (pos rtcp))
            []
            (save_ports (pos rtp) (pos rtcp) s))
unfolding handle_rtsp_setup answer_setup with_sequence with_parsed ok
setup-answered transmit n rtp rtcp rest s hn hr hc hl =
    rw
      (
        setup-read (decimal n) (decimal rtp) (decimal rtcp) rest (decimal-IsDigit n)
            (decimal-IsDigit rtp) (decimal-IsDigit rtcp) (decimal-filled n) (decimal-filled rtp)
            (decimal-filled rtcp) hl transmit s rtp rtcp (stoi-decimal rtp hr)
            (stoi-decimal rtcp hc),
        setup-cseq n (decimal rtp) (decimal rtcp) rest hn hl,
      )
      refl

pub handle_rtsp_request-ports :
    (transmit : List ℕ → Bool) (path version rest : List ℕ) (n rtp rtcp : ℕ) (s : Session)
    → Free 32 path
    → Free 13 path
    → Free 13 version
    → n < 2 ^ 31
    → rtp < 2 ^ 31
    → rtcp < 2 ^ 31
    → length (
        line_request
          (codes "SETUP")
          path
          version
          (setup_text (decimal n) (decimal rtp) (decimal rtcp) rest))
      ≤ 1024
    → handle_rtsp_request transmit
        (line_request
          (codes "SETUP")
          path
          version
          (setup_text (decimal n) (decimal rtp) (decimal rtcp) rest))
        s
      ≡ some (
          send_response transmit 200
            (codes "OK")
            (pos n)
            (session_header s ++ transport_header (pos rtp) (pos rtcp))
            []
            (save_ports (pos rtp) (pos rtcp) s))
unfolding handle_method same_text
handle_rtsp_request-ports transmit path version rest n rtp rtcp s ps pr vr hn hr hc hl =
    let body = setup_text (decimal n) (decimal rtp) (decimal rtcp) rest in
    let fits : length body ≤ 1024 =
      body-fits (codes "SETUP") path version body (omega arith) ps (omega arith) pr vr hl in
    handle_rtsp_request-line (codes "SETUP") path version body (omega arith) ps (omega arith) pr vr
      hl transmit s
    ∙ setup-answered transmit n rtp rtcp rest s hn hr hc fits

-- The answer, written out.
unfoldable pub setup_answer : ℕ → ℕ → ℕ → Session → List ℕ
setup_answer n rtp rtcp s =
    codes "RTSP/1.0 200 OK\r\n"
    ++ (codes "CSeq: " ++ to_string (pos n) ++ codes "\r\n")
    ++ (codes "Session: "
        ++ to_string (pos s.session_id)
        ++ codes "\r\n"
        ++ (codes "Transport: RTP/AVP;unicast;client_port="
            ++ to_string (pos rtp)
            ++ codes "-"
            ++ to_string (pos rtcp)
            ++ codes "\r\n"))
    ++ codes "\r\n"

unfoldable pub set_up : ℕ → ℕ → ℕ → Session → Session
set_up n rtp rtcp s = record s {
  client_rtp_port = pos rtp;
  client_rtcp_port = pos rtcp;
  sent = setup_answer n rtp rtcp s ∷ s.sent;
}

send-set_up :
    (transmit : List ℕ → Bool) (n rtp rtcp : ℕ) (s : Session)
    → send_response transmit 200
        (codes "OK")
        (pos n)
        (session_header s ++ transport_header (pos rtp) (pos rtcp))
        []
        (save_ports (pos rtp) (pos rtcp) s)
      ≡ (transmit (setup_answer n rtp rtcp s), set_up n rtp rtcp s)
unfolding send_response response cseq_line is_minus_one body_part crlf session_header
    transport_header set_up setup_answer to_string decimal digits
send-set_up transmit n rtp rtcp s = refl

-- A SETUP request of at most 1024 bytes, with a path and a version as in any request line and the
-- headers `CSeq: n` and `Transport: RTP/AVP;unicast;client_port=rtp-rtcp`, its numbers below 2^31,
-- leaves no exception: the first port is kept as the client's RTP port and the second one as its
-- RTCP port, and the answer, with the code 200 and the request's sequence number, has the text that
-- is written out and names them in this order. Nothing else of the session changes but the log.
pub handle_rtsp_request-setup :
    (transmit : List ℕ → Bool) (path version rest : List ℕ) (n rtp rtcp : ℕ) (s : Session)
    → Free 32 path
    → Free 13 path
    → Free 13 version
    → n < 2 ^ 31
    → rtp < 2 ^ 31
    → rtcp < 2 ^ 31
    → length (
        line_request
          (codes "SETUP")
          path
          version
          (setup_text (decimal n) (decimal rtp) (decimal rtcp) rest))
      ≤ 1024
    → handle_rtsp_request transmit
        (line_request
          (codes "SETUP")
          path
          version
          (setup_text (decimal n) (decimal rtp) (decimal rtcp) rest))
        s
      ≡ some (transmit (setup_answer n rtp rtcp s), set_up n rtp rtcp s)
handle_rtsp_request-setup transmit path version rest n rtp rtcp s ps pr vr hn hr hc hl =
    handle_rtsp_request-ports transmit path version rest n rtp rtcp s ps pr vr hn hr hc hl
    ∙ ap some (send-set_up transmit n rtp rtcp s)
