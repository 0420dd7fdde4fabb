-- ===== src/Ftp/Active.antt =====
-- A transfer that is asked for twice in active mode: components/ftp/include/ftp_client_session.hpp.
use espp.Prelude.{ℕ, ◌≡◌, refl, sym, ap, ◌∙◌, Bool, true, false, none, some, List, ◌∷◌, codes}
use mathlib.Core.Path.{subst}
use espp.Ftp.Machine.{Host}
use espp.Ftp.State.{
  Session, Outcome, when_true, when_either, send, send_response, response, open_data, close_data,
  transmit_data, send_data,
}
use espp.Ftp.Steps.{if_true, if_false, Ends, Ends-either}
use espp.Ftp.Transfer.{opening, finished, handle_list}

abbrev pub announcement : List ℕ
announcement = response 150 (codes "File status okay; about to open data connection.") false

module _ {W : Type 0} (host : Host W) where
  -- The active mode without a data socket.
  unfoldable pub IsGone : Session W → Type 0
  IsGone s = (s.data_socket ≡ false) × (s.is_passive_data_connection ≡ false)

  IsActive : Session W → Type 0
  IsActive s = s.is_passive_data_connection ≡ false

  open_data-active :
      (s : Session W) (w : W)
      → s.is_passive_data_connection ≡ false
      → s.data_socket ≡ true
      → host.connect s.data_ip_address s.data_port s.world ≡ (true, w)
      → open_data host s ≡ some (true, record s { world = w })
  unfolding open_data
  open_data-active s w p d e =
      if_false s.is_passive_data_connection _ _ p
      ∙ if_true s.data_socket _ _ d
      ∙ ap (λ r. some (r.0, record s { world = r.1 })) e

  open_data-gone : (s : Session W) → IsGone s → open_data host s ≡ none
  unfolding open_data IsGone
  open_data-gone s (d, p) =
      if_false s.is_passive_data_connection _ _ p ∙ if_false s.data_socket _ _ d

  send-IsGone : (text : List ℕ) (s : Session W) → IsGone s → Ends ⊥ IsGone (send host text s)
  unfolding send Ends IsGone
  send-IsGone text s h = h

  transmit_data-IsActive :
      (bytes : List ℕ) (s : Session W) → IsActive s → Ends ⊥ IsActive (transmit_data host bytes s)
  unfolding transmit_data Ends IsActive
  transmit_data-IsActive bytes s h = h

  close_data-IsGone : (s : Session W) → IsActive s → IsGone (close_data host s)
  unfolding close_data IsGone IsActive
  close_data-IsGone s h = (refl, h)

  send_data-IsGone :
      (bytes : List ℕ) (s : Session W) (w : W)
      → s.is_passive_data_connection ≡ false
      → s.data_socket ≡ true
      → host.connect s.data_ip_address s.data_port s.world ≡ (true, w)
      → Ends ⊥ IsGone (send_data host bytes s)
  unfolding send_data when_true Ends IsActive
  send_data-IsGone bytes s w p d e = rw (open_data-active s w p d e) (
      Ends-either ⊥ IsGone IsActive (transmit_data host bytes (record s { world = w })) _ _
        (transmit_data-IsActive bytes (record s { world = w }) p) (λ s2 h. close_data-IsGone s2 h)
        (λ s2 h. close_data-IsGone s2 h))

  finished-IsGone : (m : Outcome W) → Ends ⊥ IsGone m → Ends ⊥ IsGone (finished host m)
  unfolding finished send_response
  finished-IsGone m h =
      Ends-either ⊥ IsGone IsGone m _ _ h (λ s1 g. send-IsGone _ s1 g) (λ s1 g. send-IsGone _ s1 g)

  opening-sent :
      (s : Session W) (w : W)
      → host.transmit announcement s.world ≡ (true, w)
      → opening host s ≡ some (true, record s { sent = announcement ∷ s.sent; world = w })
  unfolding send_response send
  opening-sent s w e =
      ap (λ r. some (r.0, record s { sent = announcement ∷ s.sent; world = r.1 })) e

  when_true-some :
      (o : Outcome W) (next : Session W → Outcome W) (s : Session W)
      → o ≡ some (true, s)
      → when_true o next ≡ next s
  unfolding when_true
  when_true-some o next s e = ap (λ o. when_true o next) e

  when_true-none :
      (o : Outcome W) (next : Session W → Outcome W) → o ≡ none → when_true o next ≡ none
  unfolding when_true
  when_true-none o next e = ap (λ o. when_true o next) e

  finished-none : (m : Outcome W) → m ≡ none → finished host m ≡ none
  unfolding finished when_either
  finished-none m e = ap (finished host) e

  handle_list-gone :
      (arguments : List ℕ) (s : Session W) (w : W)
      → IsGone s
      → host.transmit announcement s.world ≡ (true, w)
      → handle_list host arguments s ≡ none
  unfolding handle_list send_data IsGone
  handle_list-gone arguments s w g e =
      when_true-some (opening host s) _ _ (opening-sent s w e)
      ∙ finished-none _ (when_true-none _ _ (open_data-gone _ g))

  handle_list-IsGone :
      (arguments : List ℕ) (s : Session W) (w w1 : W)
      → s.is_passive_data_connection ≡ false
      → s.data_socket ≡ true
      → host.transmit announcement s.world ≡ (true, w)
      → host.connect s.data_ip_address s.data_port w ≡ (true, w1)
      → Ends ⊥ IsGone (handle_list host arguments s)
  unfolding handle_list
  handle_list-IsGone arguments s w w1 p d e f =
      subst (Ends ⊥ IsGone) (sym (when_true-some (opening host s) _ _ (opening-sent s w e)))
        (finished-IsGone _ (send_data-IsGone _ _ w1 p d f))

  Ends-some :
      (P : Session W → Type 0) (o : Outcome W)
      → Ends ⊥ P o
      → (b : Bool) × (s : Session W) × (o ≡ some (b, s)) × P s
  unfolding Ends
  Ends-some P none h = absurd h
  Ends-some P (some (b, s)) h = (b, s, refl, h)

  -- In active mode with a data socket, where the announcement is sent and the client is connected
  -- to, a LIST ends without a crash; the next LIST, if its announcement is sent too, crashes.
  pub handle_list-twice :
      (first second : List ℕ) (s : Session W) (w w1 : W)
      → s.is_passive_data_connection ≡ false
      → s.data_socket ≡ true
      → host.transmit announcement s.world ≡ (true, w)
      → host.connect s.data_ip_address s.data_port w ≡ (true, w1)
      → (b : Bool) × (s1 : Session W) × (handle_list host first s ≡ some (b, s1))
        × ((w2 : W)
            → host.transmit announcement s1.world ≡ (true, w2)
            → handle_list host second s1 ≡ none)
  handle_list-twice first second s w w1 p d e f =
      let r = Ends-some IsGone _ (handle_list-IsGone first s w w1 p d e f) in
      (r.0, r.1, r.2, λ w2 g. handle_list-gone second (r.1) w2 (r.3) g)
