-- ===== src/RtspSession/SetupText.antt =====
-- Where the transport header of a SETUP request stands.
use espp.Prelude.{
  ℕ, ◌+◌, ◌≡◌, inl, inr, ◌≢◌, refl, ap, ◌∙◌, none, some, List, [], ◌∷◌, ◌++◌, length, arith, codes,
  IsDigit, All, All-append, length-append, find_from, find_text, sub_string, find_text-skip,
  find_text-none, find_from-append, sub_string-append,
}
use mathlib.Core.List.{append_assoc}
use espp.RtspSession.Parse.{Free, digits-Free}

-- `CSeq: x`, then the transport header with the ports y and z.
unfoldable pub setup_text : List ℕ → List ℕ → List ℕ → List ℕ → List ℕ
setup_text x y z rest =
    codes "CSeq: "
    ++ (x
        ++ (codes "\r\nTransport: RTP/AVP;unicast;client_port="
            ++ (y ++ (45 ∷ (z ++ (13 ∷ rest))))))

abbrev pub transport_text : List ℕ → List ℕ → List ℕ
transport_text y z = codes "RTP/AVP;unicast;client_port=" ++ (y ++ (45 ∷ z))

-- The two searches in a text that is cut into three parts.
pub find_at :
    (c i e : ℕ) (t pre xs ys : List ℕ)
    → t ≡ pre ++ (xs ++ (c ∷ ys))
    → length pre ≡ i
    → i + length xs ≡ e
    → Free c xs
    → find_from c t i ≡ e
find_at c i e t pre xs ys et ei ee f = rw et (find_from-append c i pre xs ys ei f ∙ ee)

pub sub_at :
    (i n : ℕ) (t pre xs ys : List ℕ)
    → t ≡ pre ++ (xs ++ ys)
    → length pre ≡ i
    → length xs ≡ n
    → sub_string i n t ≡ some xs
sub_at i n t pre xs ys et ei en = rw et (sub_string-append i n pre xs ys ei en)

pub around-Free : (c : ℕ) (a x b : List ℕ) → Free c a → Free c x → Free c b → Free c (a ++ (x ++ b))
around-Free c a x b fa fx fb =
    All-append (λ d. d ≢ c) a (x ++ b) fa (All-append (λ d. d ≢ c) x b fx fb)

pub length-around : (a x b : List ℕ) → length (a ++ (x ++ b)) ≡ length a + length x + length b
length-around a x b = rw (length-append a (x ++ b), length-append x b) (omega arith)

pub found_at :
    (c n e : ℕ) (cs t pre ys : List ℕ)
    → t ≡ pre ++ ys
    → Free c pre
    → find_text (c ∷ cs) ys ≡ some n
    → length pre + n ≡ e
    → find_text (c ∷ cs) t ≡ some e
found_at c n e cs t pre ys et f h ee = rw et (find_text-skip c cs pre ys n f h ∙ ap some ee)

module _ (x y z rest : List ℕ) (xd : All IsDigit x) (yd : All IsDigit y) (zd : All IsDigit z) where
  abbrev tail : List ℕ
  tail = y ++ (45 ∷ (z ++ (13 ∷ rest)))

  pub first_gap : find_from 32 (setup_text x y z rest) 0 ≡ 5
  unfolding setup_text
  first_gap =
      find_at 32 0 5 (setup_text x y z rest) [] (codes "CSeq:")
        (x ++ (codes "\r\nTransport: RTP/AVP;unicast;client_port=" ++ tail)) refl refl refl
        (omega arith)

  pub second_gap : find_from 32 (setup_text x y z rest) 6 ≡ length x + 18
  unfolding setup_text
  second_gap =
      find_at 32 6 (length x + 18) (setup_text x y z rest) (codes "CSeq: ")
        (x ++ codes "\r\nTransport:") (codes "RTP/AVP;unicast;client_port=" ++ tail)
        (rw (append_assoc x) refl) refl (omega (arith, length-append x (codes "\r\nTransport:")))
        (All-append (λ c. c ≢ 32) x (codes "\r\nTransport:")
          (digits-Free 32 x (inl (omega arith)) xd) (omega arith))

  pub path_read :
      sub_string 6 (length x + 12) (setup_text x y z rest) ≡ some (x ++ codes "\r\nTransport:")
  unfolding setup_text
  path_read =
      sub_at 6 (length x + 12) (setup_text x y z rest) (codes "CSeq: ")
        (x ++ codes "\r\nTransport:") (32 ∷ (codes "RTP/AVP;unicast;client_port=" ++ tail))
        (rw (append_assoc x) refl) refl (omega (arith, length-append x (codes "\r\nTransport:")))

  pub transport_found :
      find_text (codes "Transport: ") (setup_text x y z rest) ≡ some (length x + 8)
  unfolding setup_text
  transport_found =
      found_at 84 0 (length x + 8) (codes "ransport: ") (setup_text x y z rest)
        (codes "CSeq: " ++ (x ++ codes "\r\n"))
        (codes "Transport: RTP/AVP;unicast;client_port=" ++ tail) (rw (append_assoc x) refl)
        (around-Free 84 (codes "CSeq: ") x (codes "\r\n") (omega arith)
          (digits-Free 84 x (inr (omega arith)) xd) (omega arith))
        refl (omega (arith, length-around (codes "CSeq: ") x (codes "\r\n")))

  pub transport_end :
      find_from 13 (setup_text x y z rest) (length x + 8) ≡ length x + 48 + length y + length z
  unfolding setup_text
  transport_end =
      find_at 13 (length x + 8) (length x + 48 + length y + length z) (setup_text x y z rest)
        (codes "CSeq: " ++ (x ++ codes "\r\n"))
        (codes "Transport: RTP/AVP;unicast;client_port=" ++ (y ++ (45 ∷ z))) rest
        (rw (append_assoc x, append_assoc y) refl)
        (omega (arith, length-around (codes "CSeq: ") x (codes "\r\n")))
        (omega (arith, length-around (codes "Transport: RTP/AVP;unicast;client_port=") y (45 ∷ z)))
        (around-Free 13 (codes "Transport: RTP/AVP;unicast;client_port=") y (45 ∷ z) (omega arith)
          (digits-Free 13 y (inl (omega arith)) yd)
          (omega arith, digits-Free 13 z (inl (omega arith)) zd))

  pub transport_read :
      sub_string (length x + 19) (29 + length y + length z) (setup_text x y z rest)
      ≡ some (transport_text y z)
  unfolding setup_text
  transport_read =
      sub_at (length x + 19) (29 + length y + length z) (setup_text x y z rest)
        (codes "CSeq: " ++ (x ++ codes "\r\nTransport: ")) (transport_text y z) (13 ∷ rest)
        (rw (append_assoc x, append_assoc y) refl)
        (omega (arith, length-around (codes "CSeq: ") x (codes "\r\nTransport: ")))
        (omega (arith, length-around (codes "RTP/AVP;unicast;client_port=") y (45 ∷ z)))

  pub not_tcp : find_text (codes "RTP/AVP/TCP") (transport_text y z) ≡ none
  not_tcp =
      rw
        (find_text-none 82 (codes "TP/AVP/TCP") (y ++ (45 ∷ z)) (
          All-append (λ c. c ≢ 82) y (45 ∷ z) (digits-Free 82 y (inr (omega arith)) yd)
            (omega arith, digits-Free 82 z (inr (omega arith)) zd)))
        refl
