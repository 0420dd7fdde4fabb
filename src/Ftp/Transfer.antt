-- ===== src/Ftp/Transfer.antt =====
-- The data connection and the transfers: components/ftp/include/ftp_client_session.hpp.
use espp.Prelude.{
  Bool, not, true, false, ltb, leb, ◌+◌, ◌*◌, ◌^◌, ◌>>=◌, ℕ, zero, suc, ◌/◌, ◌%◌, ◌-◌, ◌==◌, Option,
  none, some, List, [], ◌∷◌, ◌++◌, codes, ℤ, pos, negsuc, to_string, stoi, if◌then◌else◌,
}
use espp.Ftp.Machine.{Host}
use espp.Ftp.Listing.{list_directory}
use espp.Ftp.State.{Session, Outcome, when_true, when_either, send_data, receive_file, send_file}
use espp.Ftp.Replies.{reply, syntax_error, with_path, with_file}

-- The arguments are cut at the first comma.
unfoldable pub cut_comma : List ℕ → Option (List ℕ × List ℕ)
cut_comma [] = none
cut_comma (c ∷ text) =
    let rest : Option (List ℕ × List ℕ) = elim (cut_comma text) [
      | none ↦ none
      | some (a, b) ↦ some (c ∷ a, b)
    ] in
    if c == 44 then some ([], text) else rest

-- The first five of six parts, and the last one.
unfoldable pub parts : ℕ → List ℕ → Option (List (List ℕ))
parts zero text = some (text ∷ [])
parts (suc n) text = do cut ← cut_comma text; more ← parts n (cut.1); some ((cut.0) ∷ more)

-- An `int` as a `uint16_t`.
unfoldable pub word16 : ℤ → ℕ
word16 (pos n) = n % 2 ^ 16
word16 (negsuc n) = 2 ^ 16 - 1 - n % 2 ^ 16

-- Whether neither the product nor the sum of `high * 256 + low` overflows an `int`.
unfoldable pub fits_int : ℤ → ℤ → Bool
fits_int (pos high) (pos low) = ltb (high * 256 + low) (2 ^ 31)
fits_int (pos high) (negsuc low) = ltb (high * 256) (2 ^ 31)
fits_int (negsuc high) (pos low) = leb ((high + 1) * 256) (2 ^ 31)
fits_int (negsuc high) (negsuc low) = leb ((high + 1) * 256 + (low + 1)) (2 ^ 31)

unfoldable pub commas : List ℕ → List ℕ
commas [] = []
commas (c ∷ text) = (if c == 46 then 44 else c) ∷ commas text

abbrev pub dot : List ℕ
dot = 46 ∷ []

unfoldable pub passive_port : ℕ → ℕ
passive_port random = random % 10000 + 1024

unfoldable pub passive_message : List ℕ → ℕ → List ℕ
passive_message address port =
    codes "Entering Passive Mode ("
    ++ (commas address
        ++ (44
            ∷ (to_string (pos (port / 256)) ++ (44 ∷ (to_string (pos (port % 256)) ++ codes ")")))))

module _ {W : Type 0} (host : Host W) where
  unfoldable pub listen_passive : ℕ → Bool × W → Session W → Outcome W
  listen_passive port (false, w) s =
      reply host 425 (codes "Failed to create data connection.") (record s { world = w })
  listen_passive port (true, w) s =
      reply host 227 (passive_message s.local_ip_address port)
        (record s { is_passive_data_connection = true; world = w })

  unfoldable pub bind_passive : ℕ → Bool × W → Session W → Outcome W
  bind_passive port (false, w) s =
      reply host 425 (codes "Failed to create data connection.") (record s { world = w })
  bind_passive port (true, w) s = listen_passive port (host.listen w) s

  unfoldable pub handle_pasv : List ℕ → Session W → Outcome W
  handle_pasv arguments s =
      let r = host.random s.world in
      let port = passive_port (r.0) in
      bind_passive port (host.bind port (host.reinit (r.1))) (record s { data_socket = false })

  -- An overflow is undefined behaviour, `none` as a crash.
  unfoldable pub set_port : List ℕ → Option ℤ → Option ℤ → Session W → Outcome W
  set_port address none low s = none
  set_port address (some high) none s = none
  set_port address (some high) (some low) s =
      if not (fits_int high low)
      then none
      else reply host 200 (codes "PORT command successful.") (record s {
        data_ip_address = address;
        data_port = (word16 high * 256 + word16 low) % 2 ^ 16;
        data_socket = true;
        is_passive_data_connection = false;
      })

  unfoldable pub port_parts : Option (List (List ℕ)) → Session W → Outcome W
  port_parts (some (a ∷ (b ∷ (c ∷ (d ∷ (high ∷ (low ∷ []))))))) s =
      set_port (a ++ (dot ++ (b ++ (dot ++ (c ++ (dot ++ d)))))) (stoi high) (stoi low) s
  port_parts _ s = syntax_error host s

  unfoldable pub handle_port : List ℕ → Session W → Outcome W
  handle_port arguments s = port_parts (parts 5 arguments) s

  abbrev pub opening : Session W → Outcome W
  opening s = reply host 150 (codes "File status okay; about to open data connection.") s

  -- The answer after a transfer.
  unfoldable pub finished : Outcome W → Outcome W
  finished m =
      when_either m (λ s. reply host 426 (codes "Connection closed; transfer aborted.") s)
        (λ s. reply host 226 (codes "Closing data connection. Requested file action successful.") s)

  unfoldable pub handle_list : List ℕ → Session W → Outcome W
  handle_list arguments s = when_true (opening s) (λ s1.
      finished (send_data host (list_directory (host.entries s1.current_directory s1.world)) s1))

  unfoldable pub size_reply : Option ℕ → Session W → Outcome W
  size_reply none s = reply host 550 (codes "Failed to get file size.") s
  size_reply (some size) s = reply host 213 (to_string (pos size)) s

  unfoldable pub handle_size : List ℕ → Session W → Outcome W
  handle_size arguments s =
      with_file host arguments s (λ path. size_reply (host.size_of path s.world) s)

  unfoldable pub handle_retr : List ℕ → Session W → Outcome W
  handle_retr arguments s =
      with_file host arguments s
        (λ path. when_true (opening s) (λ s1. finished (send_file host path s1)))

  unfoldable pub handle_stor : List ℕ → Session W → Outcome W
  handle_stor arguments s =
      with_path host arguments s
        (λ path. when_true (opening s) (λ s1. finished (receive_file host path s1)))
