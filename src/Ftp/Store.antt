-- ===== src/Ftp/Store.antt =====
-- What a STOR receives is what a RETR sends: receive_file and send_file of components/ftp/include/
-- ftp_client_session.hpp.
use espp.Prelude.{
  ℕ, zero, suc, ◌+◌, ◌*◌, ◌≤◌, ◌≡◌, refl, sym, ap, ◌∙◌, Bool, true, false, Option, none, some, List,
  [], ◌∷◌, ◌++◌, length, take, drop, arith, length-drop, take-append-drop, if◌then◌else◌,
}
use mathlib.Core.List.{append_assoc, append-nil}
use mathlib.Core.Path.{subst}
use mathlib.Core.Bool.{false≢true}
use espp.Ftp.Machine.{Host, Accepted, refused, invalid, accepted}
use espp.Ftp.State.{
  Session, Outcome, when_true, accept_data, open_data, close_data, transmit_data, write_pieces,
  store_data, receive_file, send_pieces, send_contents, send_file,
}

-- What is received: all up to the first empty piece.
unfoldable pub received : List (List ℕ) → List ℕ
received [] = []
received ([] ∷ pieces) = []
received ((b ∷ piece) ∷ pieces) = (b ∷ piece) ++ received pieces

-- A host whose files keep what is appended to them, and on which `data_sent` is all that was sent
-- over data connections.
pub record IsStore {W : Type 0} (host : Host W) (data_sent : W → List ℕ) : Type 0 where
  pub stored_open :
      (path : List ℕ) (w w1 : W)
      → host.open_for_writing path w ≡ (true, w1)
      → host.read_file path w1 ≡ some []
  pub stored_append :
      (path bytes old : List ℕ) (w : W)
      → host.read_file path w ≡ some old
      → host.read_file path (host.append_to path bytes w) ≡ some (old ++ bytes)
  pub stored_incoming :
      (path : List ℕ) (w : W) → host.read_file path ((host.incoming w).1) ≡ host.read_file path w
  pub stored_close :
      (path : List ℕ) (w : W) → host.read_file path (host.data_close w) ≡ host.read_file path w
  pub stored_accept :
      (path : List ℕ) (w : W) → host.read_file path ((host.accept w).1) ≡ host.read_file path w
  pub sent_accept : (w : W) → data_sent ((host.accept w).1) ≡ data_sent w
  pub sent_close : (w : W) → data_sent (host.data_close w) ≡ data_sent w
  pub sent_transmit :
      (bytes : List ℕ) (w w1 : W)
      → host.data_transmit bytes w ≡ (true, w1)
      → data_sent w1 ≡ data_sent w ++ bytes
  pub unsent_transmit :
      (bytes : List ℕ) (w w1 : W)
      → host.data_transmit bytes w ≡ (false, w1)
      → data_sent w1 ≡ data_sent w

module _ {W : Type 0} (data_sent : W → List ℕ) where
  -- What is sent of `bytes` from a session on: all of it, or a whole number of pieces.
  unfoldable pub Delivers : List ℕ → Session W → Outcome W → Type 0
  Delivers bytes s none = ⊥
  Delivers bytes s (some (true, s1)) = data_sent s1.world ≡ data_sent s.world ++ bytes
  Delivers bytes s (some (false, s1)) =
      (n : ℕ) × (data_sent s1.world ≡ data_sent s.world ++ take (n * 1024) bytes)

module _ {W : Type 0} (host : Host W) where
  -- A session after a file was received.
  unfoldable pub stored : List ℕ → Session W → W → Session W
  stored path s0 w1 =
      close_data host
        (record s0 { world = write_pieces host path ((host.incoming w1).0) ((host.incoming w1).1) })

take-nil : (n : ℕ) → ◌≡◌ {A = List ℕ} (take n []) []
take-nil zero = refl
take-nil (suc n) = refl

take-sum : (m n : ℕ) (xs : List ℕ) → take (m + n) xs ≡ take m xs ++ take n (drop m xs)
take-sum zero n xs = ap (λ k. take k xs) (omega arith)
take-sum (suc m) n [] = take-nil (suc m + n) ∙ sym (take-nil n)
take-sum (suc m) n (x ∷ xs) =
    let e : suc m + n ≡ suc (m + n) = omega arith in
    ap (λ k. take k (x ∷ xs)) e ∙ ap (λ l. x ∷ l) (take-sum m n xs)

module _ {W : Type 0} (host : Host W) (data_sent : W → List ℕ) (laws : IsStore host data_sent) where
  write_pieces-stored :
      (path : List ℕ) (pieces : List (List ℕ)) (old : List ℕ) (w : W)
      → host.read_file path w ≡ some old
      → host.read_file path (write_pieces host path pieces w) ≡ some (old ++ received pieces)
  unfolding write_pieces received
  write_pieces-stored path [] old w h = h ∙ ap some (sym (append-nil old))
  write_pieces-stored path ([] ∷ pieces) old w h = h ∙ ap some (sym (append-nil old))
  write_pieces-stored path ((b ∷ piece) ∷ pieces) old w h =
      write_pieces-stored path pieces (old ++ (b ∷ piece)) _
        (laws.stored_append path (b ∷ piece) old w h)
      ∙ ap some (append_assoc old (b ∷ piece) (received pieces))

  module _ (bytes : List ℕ) (s s1 : Session W)
      (e : data_sent s1.world ≡ data_sent s.world ++ take 1024 bytes) where
    rest-Delivers :
        (o : Outcome W) → Delivers data_sent (drop 1024 bytes) s1 o → Delivers data_sent bytes s o
    unfolding Delivers
    rest-Delivers none h = h
    rest-Delivers (some (true, s2)) h =
        h
        ∙ ap (λ l. l ++ drop 1024 bytes) e
        ∙ append_assoc (data_sent s.world) (take 1024 bytes) (drop 1024 bytes)
        ∙ ap (λ l. data_sent s.world ++ l) (take-append-drop 1024 bytes)
    rest-Delivers (some (false, s2)) (n, h) = (
      suc n,
      h
          ∙ ap (λ l. l ++ take (n * 1024) (drop 1024 bytes)) e
          ∙ append_assoc (data_sent s.world) (take 1024 bytes) (take (n * 1024) (drop 1024 bytes))
          ∙ ap (λ l. data_sent s.world ++ l) (sym (take-sum 1024 (n * 1024) bytes))
          ∙ ap (λ k. data_sent s.world ++ take k bytes) (omega arith),
    )

  transmitted-Delivers :
      (bytes : List ℕ) (s : Session W) (next : Session W → Outcome W) (r : Bool × W)
      → host.data_transmit (take 1024 bytes) s.world ≡ r
      → ((s1 : Session W) → Delivers data_sent (drop 1024 bytes) s1 (next s1))
      → Delivers data_sent bytes s (when_true (some (r.0, record s { world = r.1 })) next)
  unfolding when_true Delivers
  transmitted-Delivers bytes s next (false, w) e h =
      (0, laws.unsent_transmit (take 1024 bytes) s.world w e ∙ sym (append-nil (data_sent s.world)))
  transmitted-Delivers bytes s next (true, w) e h =
      rest-Delivers bytes s (record s { world = w })
        (laws.sent_transmit (take 1024 bytes) s.world w e) _ (h (record s { world = w }))

  send_pieces-Delivers :
      (fuel : ℕ) (bytes : List ℕ) (s : Session W)
      → length bytes ≤ fuel
      → Delivers data_sent bytes s (send_pieces host fuel bytes s)
  unfolding send_pieces Delivers transmit_data
  send_pieces-Delivers fuel [] s h = sym (append-nil (data_sent s.world))
  send_pieces-Delivers zero (b ∷ bytes) s h = absurd (omega (arith, h))
  send_pieces-Delivers (suc fuel) (b ∷ bytes) s h =
      transmitted-Delivers (b ∷ bytes) s _ (host.data_transmit (take 1024 (b ∷ bytes)) s.world) refl
        (λ s1.
          send_pieces-Delivers fuel (drop 1024 (b ∷ bytes)) s1
            (omega (arith, length-drop 1024 (b ∷ bytes), h)))

  closed-Delivers :
      (bytes : List ℕ) (s : Session W) (o : Outcome W)
      → Delivers data_sent bytes s o
      → Delivers data_sent bytes s (when_true o (λ s1. some (true, close_data host s1)))
  unfolding Delivers when_true close_data
  closed-Delivers bytes s none h = h
  closed-Delivers bytes s (some (true, s1)) h = laws.sent_close s1.world ∙ h
  closed-Delivers bytes s (some (false, s1)) h = h

  Delivers-from :
      (bytes : List ℕ) (s s1 : Session W) (o : Outcome W)
      → data_sent s1.world ≡ data_sent s.world
      → Delivers data_sent bytes s1 o
      → Delivers data_sent bytes s o
  unfolding Delivers
  Delivers-from bytes s s1 none e h = h
  Delivers-from bytes s s1 (some (true, s2)) e h = h ∙ ap (λ l. l ++ bytes) e
  Delivers-from bytes s s1 (some (false, s2)) e (n, h) =
      (n, h ∙ ap (λ l. l ++ take (n * 1024) bytes) e)

  undelivered :
      (bytes : List ℕ) (s s1 : Session W)
      → data_sent s1.world ≡ data_sent s.world
      → Delivers data_sent bytes s (some (false, s1))
  unfolding Delivers
  undelivered bytes s s1 e = (0, e ∙ sym (append-nil (data_sent s.world)))

  contents-Delivers :
      (bytes : List ℕ) (s : Session W) (o : Option (List ℕ))
      → o ≡ some bytes
      → Delivers data_sent bytes s (send_contents host o s)
  unfolding send_contents
  contents-Delivers bytes s o e =
      subst (λ o. Delivers data_sent bytes s (send_contents host o s)) (sym e)
        (closed-Delivers bytes s _ (send_pieces-Delivers (length bytes) bytes s (omega arith)))

  accepted-Delivers :
      (path bytes : List ℕ) (s : Session W) (r : Accepted × W)
      → data_sent (r.1) ≡ data_sent s.world
      → host.read_file path (r.1) ≡ some bytes
      → Delivers data_sent bytes s (
          when_true
            (accept_data host r s)
            (λ s1. send_contents host (host.read_file path s1.world) s1))
  unfolding when_true accept_data
  accepted-Delivers path bytes s (refused, w) e h = undelivered bytes s _ e
  accepted-Delivers path bytes s (invalid, w) e h = undelivered bytes s _ e
  accepted-Delivers path bytes s (accepted, w) e h =
      Delivers-from bytes s (record s { data_socket = true; world = w }) _ e
        (contents-Delivers bytes _ (host.read_file path w) h)

  valid-Delivers :
      (path bytes : List ℕ) (s : Session W) (b : Bool)
      → host.read_file path s.world ≡ some bytes
      → Delivers data_sent bytes s (
          when_true
            (if b then accept_data host (host.accept s.world) s else some (false, s))
            (λ s1. send_contents host (host.read_file path s1.world) s1))
  unfolding when_true
  valid-Delivers path bytes s true h =
      accepted-Delivers path bytes s (host.accept s.world) (laws.sent_accept s.world)
        (laws.stored_accept path s.world ∙ h)
  valid-Delivers path bytes s false h = undelivered bytes s s refl

  passive-Delivers :
      (bytes : List ℕ) (s : Session W) (b : Bool) (x y : Outcome W) (next : Session W → Outcome W)
      → b ≡ true
      → Delivers data_sent bytes s (when_true x next)
      → Delivers data_sent bytes s (when_true (if b then x else y) next)
  passive-Delivers bytes s true x y next e h = h
  passive-Delivers bytes s false x y next e h = absurd (false≢true e)

  send_file-Delivers :
      (path bytes : List ℕ) (s : Session W)
      → s.is_passive_data_connection ≡ true
      → host.read_file path s.world ≡ some bytes
      → Delivers data_sent bytes s (send_file host path s)
  unfolding send_file open_data
  send_file-Delivers path bytes s p h =
      passive-Delivers bytes s s.is_passive_data_connection _ _ _ p
        (valid-Delivers path bytes s (host.is_valid s.world) h)

  receive_file-stored :
      (path : List ℕ) (s s0 : Session W) (w1 : W)
      → open_data host s ≡ some (true, s0)
      → host.open_for_writing path s0.world ≡ (true, w1)
      → receive_file host path s ≡ some (true, stored host path s0 w1)
  unfolding receive_file when_true store_data stored
  receive_file-stored path s s0 w1 e f = rw (e, f) refl

  -- On a host whose files keep what is written: when a session's data connection opens in passive
  -- mode and so does the file, a file that is received succeeds, and when it is sent next, nothing
  -- crashes; if the sending succeeds, the bytes that are sent are exactly the bytes that were
  -- received, up to the first empty piece, and if it fails, they are a whole number of pieces of
  -- 1,024 bytes from the start of these.
  pub receive-send :
      (path : List ℕ) (s s0 : Session W) (w1 : W)
      → open_data host s ≡ some (true, s0)
      → s0.is_passive_data_connection ≡ true
      → host.open_for_writing path s0.world ≡ (true, w1)
      → (receive_file host path s ≡ some (true, stored host path s0 w1))
        × Delivers data_sent
            (received ((host.incoming w1).0))
            (stored host path s0 w1)
            (send_file host path (stored host path s0 w1))
  unfolding stored close_data
  receive-send path s s0 w1 e p f = (
    receive_file-stored path s s0 w1 e f,
    send_file-Delivers path (received ((host.incoming w1).0)) (stored host path s0 w1) p (
        laws.stored_close path _
        ∙ write_pieces-stored path ((host.incoming w1).0) [] _
            (laws.stored_incoming path w1 ∙ laws.stored_open path s0.world w1 f)),
  )
