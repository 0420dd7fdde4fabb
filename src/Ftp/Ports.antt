-- ===== src/Ftp/Ports.antt =====
-- What PASV offers is what PORT reads: handle_pasv and handle_port of components/ftp/include/
-- ftp_client_session.hpp.
use espp.Prelude.{
  ℕ, suc, ◌+◌, ◌*◌, ◌/◌, ◌%◌, ◌^◌, ◌<◌, ◌≤◌, ◌≡◌, ◌≢◌, ◌==◌, refl, sym, ap, ap₂, ◌∙◌, true, false,
  some, List, [], ◌∷◌, ◌++◌, All, arith, codes, pos, to_string, decimal, stoi, decimal-IsDigit,
  stoi-decimal, stoi-decimal-then, if◌then◌else◌, IsDigit,
}
use mathlib.Core.List.{append_assoc}
use espp.Ftp.Machine.{Host}
use espp.Ftp.State.{Session, send_response}
use espp.Ftp.Transfer.{
  cut_comma, parts, word16, commas, dot, passive_port, passive_message, set_port, fits_int,
  port_parts, handle_port, handle_pasv, bind_passive, listen_passive,
}

-- A part of an address.
unfoldable pub IsPart : List ℕ → Type 0
IsPart = All (λ c. (c ≢ 44) × (c ≢ 46))

unfoldable pub dotted : List ℕ → List ℕ → List ℕ → List ℕ → List ℕ
dotted a b c d = a ++ (dot ++ (b ++ (dot ++ (c ++ (dot ++ d)))))

-- What stands between the parentheses of the answer to a PASV.
unfoldable pub offer : List ℕ → ℕ → List ℕ
offer address port =
    commas address ++ (44 ∷ (to_string (pos (port / 256)) ++ (44 ∷ to_string (pos (port % 256)))))

numbers-append :
    (x h l t : List ℕ) → (x ++ (44 ∷ (h ++ (44 ∷ l)))) ++ t ≡ x ++ (44 ∷ (h ++ (44 ∷ (l ++ t))))
numbers-append x h l t =
    append_assoc x (44 ∷ (h ++ (44 ∷ l))) t ∙ ap (λ m. x ++ (44 ∷ m)) (append_assoc h (44 ∷ l) t)

address-append :
    (a b c d t : List ℕ)
    → (a ++ (44 ∷ (b ++ (44 ∷ (c ++ (44 ∷ d)))))) ++ t
      ≡ a ++ (44 ∷ (b ++ (44 ∷ (c ++ (44 ∷ (d ++ t))))))
address-append a b c d t =
    append_assoc a _ t
    ∙ ap (λ m. a ++ (44 ∷ m))
        (append_assoc b _ t ∙ ap (λ m. b ++ (44 ∷ m)) (append_assoc c (44 ∷ d) t))

pub passive_message-offer :
    (address : List ℕ) (port : ℕ)
    → passive_message address port
      ≡ codes "Entering Passive Mode (" ++ (offer address port ++ codes ")")
unfolding passive_message offer
passive_message-offer address port =
    ap (λ m. codes "Entering Passive Mode (" ++ m)
      (sym (
        numbers-append (commas address) (to_string (pos (port / 256)))
          (to_string (pos (port % 256))) (codes ")")))

pub passive_port-bounds :
    (random : ℕ) → (1024 ≤ passive_port random) × (passive_port random < 11024)
unfolding passive_port
passive_port-bounds random = omega arith

cut_comma-append :
    (xs ys : List ℕ) → All (λ c. c ≢ 44) xs → cut_comma (xs ++ (44 ∷ ys)) ≡ some (xs, ys)
unfolding cut_comma
cut_comma-append [] ys h = refl
cut_comma-append (c ∷ xs) ys h = ground (arith, h.0, cut_comma-append xs ys (h.1))

parts-cons :
    (n : ℕ) (xs ys : List ℕ) (l : List (List ℕ))
    → All (λ c. c ≢ 44) xs
    → parts n ys ≡ some l
    → parts (suc n) (xs ++ (44 ∷ ys)) ≡ some (xs ∷ l)
unfolding parts
parts-cons n xs ys l h e = rw (cut_comma-append xs ys h, e) refl

parts-last : (text : List ℕ) → parts 0 text ≡ some (text ∷ [])
unfolding parts
parts-last text = refl

commas-append : (xs ys : List ℕ) → commas (xs ++ ys) ≡ commas xs ++ commas ys
unfolding commas
commas-append [] ys = refl
commas-append (c ∷ xs) ys = ap (λ l. (if c == 46 then 44 else c) ∷ l) (commas-append xs ys)

commas-part : (xs : List ℕ) → IsPart xs → commas xs ≡ xs
unfolding commas IsPart
commas-part [] h = refl
commas-part (c ∷ xs) h = ground (arith, h.0.1, commas-part xs (h.1))

comma_free : (xs : List ℕ) → IsPart xs → All (λ c. c ≢ 44) xs
unfolding IsPart
comma_free [] h = tt
comma_free (c ∷ xs) h = (h.0.0, comma_free xs (h.1))

digits_comma_free : (xs : List ℕ) → All IsDigit xs → All (λ c. c ≢ 44) xs
digits_comma_free [] h = tt
digits_comma_free (c ∷ xs) h = (omega (arith, h.0), digits_comma_free xs (h.1))

commas-dotted :
    (a b c d : List ℕ)
    → IsPart a
    → IsPart b
    → IsPart c
    → IsPart d
    → commas (dotted a b c d) ≡ a ++ (44 ∷ (b ++ (44 ∷ (c ++ (44 ∷ d)))))
unfolding dotted commas
commas-dotted a b c d ha hb hc hd =
    commas-append a _
    ∙ ap₂ (λ x y. x ++ (44 ∷ y)) (commas-part a ha)
        (commas-append b _
          ∙ ap₂ (λ x y. x ++ (44 ∷ y)) (commas-part b hb)
              (commas-append c _
                ∙ ap₂ (λ x y. x ++ (44 ∷ y)) (commas-part c hc) (commas-part d hd)))

module _ (a b c d : List ℕ) (ha : IsPart a) (hb : IsPart b) (hc : IsPart c) (hd : IsPart d)
    (port : ℕ) (hp : port < 2 ^ 16) where
  abbrev address : List ℕ
  address = dotted a b c d

  abbrev high : List ℕ
  high = decimal (port / 256)

  abbrev low : List ℕ
  low = decimal (port % 256) ++ (13 ∷ (10 ∷ []))

  offer-line :
      offer address port ++ (13 ∷ (10 ∷ []))
      ≡ a ++ (44 ∷ (b ++ (44 ∷ (c ++ (44 ∷ (d ++ (44 ∷ (high ++ (44 ∷ low)))))))))
  unfolding offer to_string
  offer-line =
      numbers-append (commas address) high (decimal (port % 256)) (13 ∷ (10 ∷ []))
      ∙ ap (λ x. x ++ (44 ∷ (high ++ (44 ∷ low)))) (commas-dotted a b c d ha hb hc hd)
      ∙ address-append a b c d (44 ∷ (high ++ (44 ∷ low)))

  offer-parts :
      parts 5 (offer address port ++ (13 ∷ (10 ∷ [])))
      ≡ some (a ∷ (b ∷ (c ∷ (d ∷ (high ∷ (low ∷ []))))))
  offer-parts =
      ap (parts 5) offer-line
      ∙ parts-cons 4 a _ _ (comma_free a ha) (
          parts-cons 3 b _ _ (comma_free b hb) (
            parts-cons 2 c _ _ (comma_free c hc) (
              parts-cons 1 d _ _ (comma_free d hd) (
                parts-cons 0 high low _ (digits_comma_free high (decimal-IsDigit (port / 256)))
                  (parts-last low)))))

  word16-high : word16 (pos (port / 256)) ≡ port / 256
  unfolding word16
  word16-high = omega (arith, hp)

  word16-low : word16 (pos (port % 256)) ≡ port % 256
  unfolding word16
  word16-low = omega arith

  port-whole : (word16 (pos (port / 256)) * 256 + word16 (pos (port % 256))) % 2 ^ 16 ≡ port
  port-whole = rw (word16-high, word16-low) (omega (arith, hp))

  port-fits : fits_int (pos (port / 256)) (pos (port % 256)) ≡ true
  unfolding fits_int
  port-fits = ground (arith, hp)

  stoi-high : stoi high ≡ some (pos (port / 256))
  stoi-high = stoi-decimal (port / 256) (omega (arith, hp))

  stoi-low : stoi low ≡ some (pos (port % 256))
  stoi-low = stoi-decimal-then (port % 256) (10 ∷ []) (omega arith)

  module _ {W : Type 0} (host : Host W) (s : Session W) where
    -- A PORT whose arguments are what PASV offers for an address of four parts without commas and
    -- dots and a port below 2^16, up to the end of the line, is answered with the code 200; the
    -- session then has exactly this address and port, a data socket and the active mode.
    pub handle_port-offer :
        handle_port host (offer address port ++ (13 ∷ (10 ∷ []))) s
        ≡ send_response host 200 (codes "PORT command successful.") (record s {
          data_ip_address = address;
          data_port = port;
          data_socket = true;
          is_passive_data_connection = false;
        })
    unfolding handle_port port_parts set_port dotted
    handle_port-offer = rw (offer-parts, stoi-high, stoi-low, port-fits, port-whole) refl

module _ {W : Type 0} (host : Host W) (s : Session W) where
  -- A PASV that can bind and listen at the port it draws is answered with the code 227 and the
  -- server's own address with the port that was bound, in the form that PORT reads; it is one of the
  -- 10,000 from 1024 on, the session has the passive mode and no data socket, and nothing else of the
  -- session changes.
  pub handle_pasv-offer :
      (arguments : List ℕ) (w1 w2 : W)
      → host.bind (passive_port ((host.random s.world).0)) (host.reinit ((host.random s.world).1))
        ≡ (true, w1)
      → host.listen w1 ≡ (true, w2)
      → (port : ℕ) × (1024 ≤ port)
        × (port < 11024)
        × (host.bind port (host.reinit ((host.random s.world).1)) ≡ (true, w1))
        × (handle_pasv host arguments s
            ≡ send_response host 227
                (codes "Entering Passive Mode (" ++ (offer s.local_ip_address port ++ codes ")"))
                (record s { data_socket = false; is_passive_data_connection = true; world = w2 }))
  unfolding handle_pasv bind_passive listen_passive
  handle_pasv-offer arguments w1 w2 e f =
      let port = passive_port ((host.random s.world).0) in
      let h = passive_port-bounds ((host.random s.world).0) in
      (port, h.0, h.1, e, rw (e, f, passive_message-offer s.local_ip_address port) refl)
