-- ===== src/RtspSession/SetupPorts.antt =====
-- Where the two ports of a SETUP request stand.
use espp.Prelude.{
  ℕ, ◌+◌, ◌≡◌, inl, inr, ◌≢◌, refl, some, List, [], ◌∷◌, ◌++◌, length, arith, codes, IsDigit, All,
  All-append, length-append, find_from, find_text, sub_string,
}
use mathlib.Core.List.{append_assoc}
use espp.RtspSession.Parse.{digits-Free}
use espp.RtspSession.SetupText.{setup_text, find_at, sub_at, found_at, around-Free, length-around}

module _ (x y z rest : List ℕ) (xd : All IsDigit x) (yd : All IsDigit y) (zd : All IsDigit z) where
  abbrev tail : List ℕ
  tail = y ++ (45 ∷ (z ++ (13 ∷ rest)))

  pub client_port_found :
      find_text (codes "client_port=") (setup_text x y z rest) ≡ some (length x + 35)
  unfolding setup_text
  client_port_found =
      found_at 99 5 (length x + 35) (codes "lient_port=") (setup_text x y z rest)
        (codes "CSeq: " ++ (x ++ codes "\r\nTransport: RTP/AVP;uni"))
        (codes "cast;client_port=" ++ tail) (rw (append_assoc x) refl)
        (around-Free 99 (codes "CSeq: ") x (codes "\r\nTransport: RTP/AVP;uni") (omega arith)
          (digits-Free 99 x (inr (omega arith)) xd) (omega arith))
        refl (omega (arith, length-around (codes "CSeq: ") x (codes "\r\nTransport: RTP/AVP;uni")))

  pub dash_found : find_from 45 (setup_text x y z rest) (length x + 35) ≡ length x + 47 + length y
  unfolding setup_text
  dash_found =
      find_at 45 (length x + 35) (length x + 47 + length y) (setup_text x y z rest)
        (codes "CSeq: " ++ (x ++ codes "\r\nTransport: RTP/AVP;unicast;"))
        (codes "client_port=" ++ y) (z ++ (13 ∷ rest)) (rw (append_assoc x) refl)
        (omega (arith, length-around (codes "CSeq: ") x (codes "\r\nTransport: RTP/AVP;unicast;")))
        (omega arith)
        (All-append (λ c. c ≢ 45) (codes "client_port=") y (omega arith)
          (digits-Free 45 y (inl (omega arith)) yd))

  pub rtp_port_read : sub_string (length x + 47) (length y) (setup_text x y z rest) ≡ some y
  unfolding setup_text
  rtp_port_read =
      sub_at (length x + 47) (length y) (setup_text x y z rest)
        (codes "CSeq: " ++ (x ++ codes "\r\nTransport: RTP/AVP;unicast;client_port=")) y
        (45 ∷ (z ++ (13 ∷ rest))) (rw (append_assoc x) refl)
        (omega (
          arith,
          length-around (codes "CSeq: ") x (codes "\r\nTransport: RTP/AVP;unicast;client_port="),
        ))
        refl

  pub ports_end :
      find_from 13 (setup_text x y z rest) (length x + 35) ≡ length x + 48 + length y + length z
  unfolding setup_text
  ports_end =
      find_at 13 (length x + 35) (length x + 48 + length y + length z) (setup_text x y z rest)
        (codes "CSeq: " ++ (x ++ codes "\r\nTransport: RTP/AVP;unicast;"))
        (codes "client_port=" ++ (y ++ (45 ∷ z))) rest (rw (append_assoc x, append_assoc y) refl)
        (omega (arith, length-around (codes "CSeq: ") x (codes "\r\nTransport: RTP/AVP;unicast;")))
        (omega (arith, length-around (codes "client_port=") y (45 ∷ z)))
        (around-Free 13 (codes "client_port=") y (45 ∷ z) (omega arith)
          (digits-Free 13 y (inl (omega arith)) yd)
          (omega arith, digits-Free 13 z (inl (omega arith)) zd))

  pub rtcp_port_read :
      sub_string (length x + 48 + length y) (length z) (setup_text x y z rest) ≡ some z
  unfolding setup_text
  rtcp_port_read =
      sub_at (length x + 48 + length y) (length z) (setup_text x y z rest)
        (codes "CSeq: "
          ++ (x ++ (codes "\r\nTransport: RTP/AVP;unicast;client_port=" ++ (y ++ (45 ∷ [])))))
        z (13 ∷ rest) (rw (append_assoc x, append_assoc y) refl)
        (omega (
          arith,
          length-around (codes "CSeq: ") x
              (codes "\r\nTransport: RTP/AVP;unicast;client_port=" ++ (y ++ (45 ∷ []))),
          length-append y (45 ∷ []),
        ))
        refl
