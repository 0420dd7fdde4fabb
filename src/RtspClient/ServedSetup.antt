-- ===== src/RtspClient/ServedSetup.antt =====
-- A client's SETUP at a session of the server: components/rtsp/include/rtsp_client.hpp and
-- components/rtsp/include/rtsp_session.hpp.
use espp.Prelude.{
  true, false, starts_with, if◌then◌else◌, ℕ, ◌^◌, ◌<◌, ◌≤◌, ◌≡◌, refl, ap, ◌∙◌, Bool, some, List,
  [], ◌∷◌, ◌++◌, length, codes, arith, decimal, to_string,
}
use mathlib.Core.List.{append_assoc}
use mathlib.Core.Path.{subst}
use espp.RtspSession.{control_task_fn, Session, handle_rtsp_request}
use espp.RtspSession.Parse.{Free}
use espp.RtspSession.Dispatch.{line_request}
use espp.RtspSession.SetupText.{setup_text}
use espp.RtspSession.Setup.{setup_answer, set_up, handle_rtsp_request-setup}
use espp.RtspClient.{
  Client, other_lines, request_text, when_clear, responded, send_request, transport, setup,
}
use espp.RtspClient.Texts.{session_line, header_lines}
use espp.RtspClient.Served.{received, reply, round, failure, server_link, exchange-refused}

abbrev common_lines : List ℕ
common_lines = codes "User-Agent: rtsp-client\r\nAccept: application/sdp\r\n\r\n"

abbrev pub setup_request : ℕ → ℕ → Client → List ℕ
setup_request rtp rtcp c =
    request_text (codes "SETUP") c.path ((codes "Transport", transport rtp rtcp) ∷ []) c

ports_text :
    (y z : List ℕ)
    → ((y ++ (45 ∷ z)) ++ codes "\r\n") ++ common_lines
      ≡ y ++ (45 ∷ (z ++ (13 ∷ (10 ∷ common_lines))))
ports_text y z = rw (append_assoc y, append_assoc y, append_assoc z) refl

setup_lines :
    (rtp rtcp : ℕ)
    → other_lines [] ((codes "Transport", transport rtp rtcp) ∷ [])
      ≡ codes "Transport: RTP/AVP;unicast;client_port="
        ++ (decimal rtp ++ (45 ∷ (decimal rtcp ++ (13 ∷ (10 ∷ common_lines)))))
unfolding other_lines session_line header_lines transport decimal to_string
setup_lines rtp rtcp =
    ap (λ t. codes "Transport: RTP/AVP;unicast;client_port=" ++ t)
      (ports_text (decimal rtp) (decimal rtcp))

setup_request-line :
    (rtp rtcp : ℕ) (c : Client)
    → c.session_id ≡ []
    → setup_request rtp rtcp c
      ≡ line_request
          (codes "SETUP")
          c.path
          (codes "RTSP/1.0")
          (setup_text (decimal c.cseq) (decimal rtp) (decimal rtcp) (10 ∷ common_lines))
unfolding request_text line_request setup_text transport other_lines session_line header_lines
    decimal to_string
setup_request-line rtp rtcp c h = rw (h, setup_lines rtp rtcp) refl

setup-InRtsp :
    (n rtp rtcp : ℕ) (s : Session)
    → starts_with (codes "RTSP/1.0") (received (set_up n rtp rtcp s).sent) ≡ true
unfolding setup_answer set_up received
setup-InRtsp n rtp rtcp s = refl

module _ (transmit : List ℕ → Bool) where
  setup-refused :
      (rtp rtcp : ℕ) (c : Client) (s s1 : Session) (closed : Bool)
      → responded (reply (control_task_fn transmit (round (setup_request rtp rtcp c)) s) s) c
        ≡ some (failure closed, [], c, s1)
      → setup (server_link transmit) rtp rtcp c s ≡ some (failure closed, [], c, s1)
  unfolding setup send_request server_link when_clear failure
  setup-refused rtp rtcp c s s1 true h = rw h refl
  setup-refused rtp rtcp c s s1 false h = rw h refl

  -- A client without a session, whose path has no space and no carriage return, its sequence
  -- number and the ports below 2^31, at a session of the server: a setup whose request has at most
  -- 1024 bytes ends with an error, an empty response and the client as it was. A closed session
  -- stays as it is; an open one keeps the ports and answers with the code 200.
  pub setup-served :
      (rtp rtcp : ℕ) (c : Client) (s : Session)
      → c.session_id ≡ []
      → Free 32 c.path
      → Free 13 c.path
      → c.cseq < 2 ^ 31
      → rtp < 2 ^ 31
      → rtcp < 2 ^ 31
      → length (setup_request rtp rtcp c) ≤ 1024
      → setup (server_link transmit) rtp rtcp c s
        ≡ some (failure s.closed, [], c, if s.closed then s else set_up c.cseq rtp rtcp s)
  setup-served rtp rtcp c s hs ps pr hn hr hc hl =
      let line = setup_request-line rtp rtcp c hs in
      setup-refused rtp rtcp c s _ s.closed (
        exchange-refused transmit (setup_request rtp rtcp c) c s (set_up c.cseq rtp rtcp s)
          (transmit (setup_answer c.cseq rtp rtcp s)) s.closed refl
          (ap (λ request. handle_rtsp_request transmit request s) line
            ∙ handle_rtsp_request-setup transmit c.path (codes "RTSP/1.0") (10 ∷ common_lines)
                c.cseq rtp rtcp s ps pr (omega arith) hn hr hc
                (subst (λ request. length request ≤ 1024) line hl))
          (setup-InRtsp c.cseq rtp rtcp s))
