-- ===== src/Ftp/State.antt =====
-- The state of an FtpClientSession and its connections: components/ftp/include/
-- ftp_client_session.hpp. In what follows `none` is a crash: a null pointer that is followed, an
-- exception that nothing catches, or an overflow of `int`.
use espp.Prelude.{
  ℕ, zero, suc, Bool, true, false, Option, none, some, List, [], ◌∷◌, ◌++◌, length, take, drop, pos,
  to_string, if◌then◌else◌, find_text,
}
use espp.Ftp.Machine.{Host, Accepted, refused, invalid, accepted}

-- `data_socket` says whether the pointer to the data socket is not null; `sent` is the log of what
-- was passed to `transmit`, the last first.
pub record Session (W : Type 0) : Type 0 where
  pub local_ip_address : List ℕ
  pub username : List ℕ
  pub password : List ℕ
  pub current_directory : List ℕ
  pub rename_from : List ℕ
  pub socket : Bool
  pub data_socket : Bool
  pub is_passive_data_connection : Bool
  pub data_ip_address : List ℕ
  pub data_port : ℕ
  pub sent : List (List ℕ)
  pub world : W

abbrev pub Outcome : Type 0 → Type 0
Outcome W = Option (Bool × Session W)

module _ {W : Type 0} where
  -- `if (!m) { return false; }`.
  unfoldable pub when_true : Outcome W → (Session W → Outcome W) → Outcome W
  when_true none next = none
  when_true (some (false, s)) next = some (false, s)
  when_true (some (true, s)) next = next s

  -- `if (test) { met } else { unmet }` with a test that may throw.
  unfoldable pub if_test : Option Bool → Outcome W → Outcome W → Outcome W
  if_test none met unmet = none
  if_test (some true) met unmet = met
  if_test (some false) met unmet = unmet

  -- Either way on.
  unfoldable pub when_either :
      Outcome W → (Session W → Outcome W) → (Session W → Outcome W) → Outcome W
  when_either none bad good = none
  when_either (some (false, s)) bad good = bad s
  when_either (some (true, s)) bad good = good s

-- The status code, the message and the end of the line.
unfoldable pub response : ℕ → List ℕ → Bool → List ℕ
response status_code message multiline =
    to_string (pos status_code) ++ ((if multiline then 45 else 32) ∷ (message ++ (13 ∷ (10 ∷ []))))

module _ {W : Type 0} (host : Host W) where
  unfoldable pub send : List ℕ → Session W → Outcome W
  send text s =
      let r = host.transmit text s.world in
      some (r.0, record s { sent = text ∷ s.sent; world = r.1 })

  unfoldable pub send_response : ℕ → List ℕ → Session W → Outcome W
  send_response status_code message s = send (response status_code message false) s

  unfoldable pub accept_data : Accepted × W → Session W → Outcome W
  accept_data (refused, w) s = some (false, record s { data_socket = false; world = w })
  accept_data (invalid, w) s = some (false, record s { data_socket = true; world = w })
  accept_data (accepted, w) s = some (true, record s { data_socket = true; world = w })

  -- The first part of each transfer: a client is accepted or connected to.
  unfoldable pub open_data : Session W → Outcome W
  open_data s =
      if s.is_passive_data_connection
      then (if host.is_valid s.world then accept_data (host.accept s.world) s else some (false, s))
      else if s.data_socket
      then (let r = host.connect s.data_ip_address s.data_port s.world in
          some (r.0, record s { world = r.1 }))
      else none

  unfoldable pub close_data : Session W → Session W
  close_data s = record s { data_socket = false; world = host.data_close s.world }

  unfoldable pub transmit_data : List ℕ → Session W → Outcome W
  transmit_data bytes s =
      let r = host.data_transmit bytes s.world in some (r.0, record s { world = r.1 })

  unfoldable pub send_data : List ℕ → Session W → Outcome W
  send_data bytes s = when_true (open_data s) (λ s1.
      when_either (transmit_data bytes s1) (λ s2. some (false, close_data s2))
        (λ s2. some (true, close_data s2)))

  -- The loop that writes what is received, up to the first empty piece.
  unfoldable pub write_pieces : List ℕ → List (List ℕ) → W → W
  write_pieces path [] w = w
  write_pieces path ([] ∷ pieces) w = w
  write_pieces path ((b ∷ piece) ∷ pieces) w =
      write_pieces path pieces (host.append_to path (b ∷ piece) w)

  unfoldable pub store_data : List ℕ → Bool × W → Session W → Outcome W
  store_data path (false, w) s = some (false, record s { world = w })
  store_data path (true, w) s =
      let r = host.incoming w in
      some (true, close_data (record s { world = write_pieces path (r.0) (r.1) }))

  unfoldable pub receive_file : List ℕ → Session W → Outcome W
  receive_file path s =
      when_true (open_data s) (λ s1. store_data path (host.open_for_writing path s1.world) s1)

  -- The loop that sends a file in pieces of 1024 bytes, with the number of bytes as fuel.
  unfoldable pub send_pieces : ℕ → List ℕ → Session W → Outcome W
  send_pieces fuel [] s = some (true, s)
  send_pieces zero (b ∷ bytes) s = none
  send_pieces (suc fuel) (b ∷ bytes) s =
      when_true (transmit_data (take 1024 (b ∷ bytes)) s)
        (λ s1. send_pieces fuel (drop 1024 (b ∷ bytes)) s1)

  unfoldable pub send_contents : Option (List ℕ) → Session W → Outcome W
  send_contents none s = some (false, s)
  send_contents (some bytes) s =
      when_true (send_pieces (length bytes) bytes s) (λ s1. some (true, close_data s1))

  unfoldable pub send_file : List ℕ → Session W → Outcome W
  send_file path s = when_true (open_data s) (λ s1. send_contents (host.read_file path s1.world) s1)

-- The arguments up to the end of the line; `none` without an end.
unfoldable pub before_end : Option ℕ → List ℕ → Option (List ℕ)
before_end none arguments = none
before_end (some n) arguments = some (take n arguments)

unfoldable pub line : List ℕ → Option (List ℕ)
unfolding before_end
line arguments = before_end (find_text (13 ∷ (10 ∷ [])) arguments) arguments
