-- ===== src/Ftp/Transfers.antt =====
-- What a transfer keeps of a session, and when it crashes: components/ftp/include/
-- ftp_client_session.hpp.
use espp.Prelude.{
  ℕ, zero, suc, ◌≤◌, ◌≡◌, refl, Bool, true, false, Option, none, some, List, [], ◌∷◌, length, arith,
  length-drop, take, drop,
}
use espp.Ftp.Machine.{Host, Accepted, refused, invalid, accepted}
use espp.Ftp.State.{
  Session, Outcome, when_true, send, send_response, accept_data, open_data, close_data,
  transmit_data, send_data, store_data, receive_file, send_pieces, send_contents, send_file,
}
use espp.Ftp.Transfer.{opening, finished}
use espp.Ftp.Steps.{
  IsStep, Ends, Ends-test, Ends-when, Ends-either, Ends-weaken, IsStep-same, IsStep-then,
  IsStep-more, send-Step,
}

module _ {W : Type 0} (host : Host W) (N : Type 0) where
  -- There is something to open a data connection with, or else `N`.
  unfoldable pub HasData : Session W → Type 0
  HasData s = s.is_passive_data_connection ≡ false → s.data_socket ≡ false → N

  accept_data-Step : (r : Accepted × W) (s : Session W) → Ends N (IsStep 0 s) (accept_data host r s)
  unfolding accept_data Ends
  accept_data-Step (refused, w) s = IsStep-same 0 s _ refl refl refl
  accept_data-Step (invalid, w) s = IsStep-same 0 s _ refl refl refl
  accept_data-Step (accepted, w) s = IsStep-same 0 s _ refl refl refl

  open_data-Step : (s : Session W) → HasData s → Ends N (IsStep 0 s) (open_data host s)
  unfolding open_data Ends HasData
  open_data-Step s h =
      Ends-test N (IsStep 0 s) s.is_passive_data_connection _ _
        (λ e.
          Ends-test N (IsStep 0 s) (host.is_valid s.world) _ _
            (λ f. accept_data-Step (host.accept s.world) s) (λ f. IsStep-same 0 s s refl refl refl))
        (λ e.
          Ends-test N (IsStep 0 s) s.data_socket _ _ (λ f. IsStep-same 0 s _ refl refl refl)
            (λ f. h e f))

  close_data-Step : (s s1 : Session W) → IsStep 0 s s1 → IsStep 0 s (close_data host s1)
  unfolding close_data
  close_data-Step s s1 p = IsStep-then 0 0 s s1 _ p (IsStep-same 0 s1 _ refl refl refl)

  transmit_data-Step :
      (bytes : List ℕ) (s s1 : Session W)
      → IsStep 0 s s1
      → Ends N (IsStep 0 s) (transmit_data host bytes s1)
  unfolding transmit_data Ends
  transmit_data-Step bytes s s1 p = IsStep-then 0 0 s s1 _ p (IsStep-same 0 s1 _ refl refl refl)

  pub send_data-Step :
      (bytes : List ℕ) (s : Session W) → HasData s → Ends N (IsStep 0 s) (send_data host bytes s)
  unfolding send_data Ends
  send_data-Step bytes s h =
      Ends-when N (IsStep 0 s) (IsStep 0 s) (open_data host s) _ (open_data-Step s h) (λ s1 p. p)
        (λ s1 p.
          Ends-either N (IsStep 0 s) (IsStep 0 s) (transmit_data host bytes s1) _ _
            (transmit_data-Step bytes s s1 p) (λ s2 q. close_data-Step s s2 q)
            (λ s2 q. close_data-Step s s2 q))

  store_data-Step :
      (path : List ℕ) (r : Bool × W) (s s1 : Session W)
      → IsStep 0 s s1
      → Ends N (IsStep 0 s) (store_data host path r s1)
  unfolding store_data close_data Ends
  store_data-Step path (false, w) s s1 p =
      IsStep-then 0 0 s s1 _ p (IsStep-same 0 s1 _ refl refl refl)
  store_data-Step path (true, w) s s1 p =
      IsStep-then 0 0 s s1 _ p (IsStep-same 0 s1 _ refl refl refl)

  pub receive_file-Step :
      (path : List ℕ) (s : Session W) → HasData s → Ends N (IsStep 0 s) (receive_file host path s)
  unfolding receive_file
  receive_file-Step path s h =
      Ends-when N (IsStep 0 s) (IsStep 0 s) (open_data host s) _ (open_data-Step s h) (λ s1 p. p)
        (λ s1 p. store_data-Step path (host.open_for_writing path s1.world) s s1 p)

  -- With fuel for the bytes, the loop ends.
  send_pieces-Step :
      (fuel : ℕ) (bytes : List ℕ) (s s1 : Session W)
      → length bytes ≤ fuel
      → IsStep 0 s s1
      → Ends N (IsStep 0 s) (send_pieces host fuel bytes s1)
  unfolding send_pieces Ends
  send_pieces-Step fuel [] s s1 hf p = p
  send_pieces-Step zero (b ∷ bytes) s s1 hf p = absurd (omega (arith, hf))
  send_pieces-Step (suc fuel) (b ∷ bytes) s s1 hf p =
      Ends-when N (IsStep 0 s) (IsStep 0 s) (transmit_data host (take 1024 (b ∷ bytes)) s1) _
        (transmit_data-Step _ s s1 p) (λ s2 q. q)
        (λ s2 q.
          send_pieces-Step fuel (drop 1024 (b ∷ bytes)) s s2
            (omega (arith, length-drop 1024 (b ∷ bytes), hf)) q)

  send_contents-Step :
      (o : Option (List ℕ)) (s s1 : Session W)
      → IsStep 0 s s1
      → Ends N (IsStep 0 s) (send_contents host o s1)
  unfolding send_contents Ends
  send_contents-Step none s s1 p = p
  send_contents-Step (some bytes) s s1 p =
      Ends-when N (IsStep 0 s) (IsStep 0 s) (send_pieces host (length bytes) bytes s1) _
        (send_pieces-Step (length bytes) bytes s s1 (omega arith) p) (λ s2 q. q)
        (λ s2 q. close_data-Step s s2 q)

  pub send_file-Step :
      (path : List ℕ) (s : Session W) → HasData s → Ends N (IsStep 0 s) (send_file host path s)
  unfolding send_file
  send_file-Step path s h =
      Ends-when N (IsStep 0 s) (IsStep 0 s) (open_data host s) _ (open_data-Step s h) (λ s1 p. p)
        (λ s1 p. send_contents-Step (host.read_file path s1.world) s s1 p)

  finished-Step :
      (m : Outcome W) (s : Session W)
      → Ends N (IsStep 1 s) m
      → Ends N (IsStep 2 s) (finished host m)
  unfolding finished send_response
  finished-Step m s h =
      Ends-either N (IsStep 2 s) (IsStep 1 s) m _ _ h (λ s1 p. send-Step host N 1 _ s s1 p)
        (λ s1 p. send-Step host N 1 _ s s1 p)

  opening-Step :
      (s : Session W) → HasData s → Ends N (λ s1. IsStep 1 s s1 × HasData s1) (opening host s)
  unfolding Ends HasData send_response send
  opening-Step s h = (send-Step host N 0 _ s s (IsStep-same 0 s s refl refl refl), h)

  -- A transfer that is announced first, and answered.
  pub transfer-Step :
      (t : Session W → Outcome W) (s : Session W)
      → ((s1 : Session W) → HasData s1 → Ends N (IsStep 0 s1) (t s1))
      → HasData s
      → Ends N (IsStep 2 s) (when_true (opening host s) (λ s1. finished host (t s1)))
  transfer-Step t s k h =
      Ends-when N (IsStep 2 s) (λ s1. IsStep 1 s s1 × HasData s1) (opening host s) _
        (opening-Step s h) (λ s1 p. IsStep-more 1 s s1 (p.0))
        (λ s1 p. finished-Step (t s1) s (
          Ends-weaken N (IsStep 1 s) (IsStep 0 s1) (t s1) (k s1 (p.1))
            (λ s2 q. IsStep-then 1 0 s s1 s2 (p.0) q)))
