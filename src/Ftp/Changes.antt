-- ===== src/Ftp/Changes.antt =====
-- What the commands on files and the data connection keep of a session, and when they crash:
-- components/ftp/include/ftp_client_session.hpp.
use espp.Prelude.{ℕ, ◌≡◌, refl, Bool, true, false, not, Option, none, some, List, [], ◌∷◌, ℤ}
use espp.Ftp.FilePath.{join}
use espp.Ftp.Machine.{Host}
use espp.Ftp.State.{if_test, Session, Outcome, line}
use espp.Ftp.Replies.{reply, with_path, with_file}
use espp.Ftp.Transfer.{
  listen_passive, bind_passive, size_reply, handle_pasv, handle_port, handle_list, handle_size,
  handle_retr, handle_stor,
}
use espp.Ftp.Files.{
  changed, created, renamed, rename_to, handle_dele, handle_mkd, handle_rmd, handle_rnfr,
  handle_rnto,
}
use espp.Ftp.Steps.{Ends-test, Ends-if_test, IsStep, Ends, IsStep-same, IsStep-then}
use espp.Ftp.Transfers.{HasData, send_data-Step, receive_file-Step, send_file-Step, transfer-Step}
use espp.Ftp.Logins.{
  OnThrow, exists_throws, is_directory_throws, is_regular_file_throws, Good, reply-Good, same,
  on_line-Good,
}
use espp.Ftp.Transfer.{fits_int, parts, port_parts, set_port}
use espp.Prelude.{sym, stoi, ◌⊎◌, inl, inr}

-- The port of the two numbers overflows an `int`.
unfoldable pub Overflows : List ℕ → List ℕ → Type 0
Overflows high low =
    (a : ℤ) × (b : ℤ) × (stoi high ≡ some a) × (stoi low ≡ some b) × (fits_int a b ≡ false)

module _ {W : Type 0} (host : Host W) (N : Type 0) (s : Session W) where
  abbrev Fine : Outcome W → Type 0
  Fine = Good host N s

  abbrev Kept : Session W → Type 0
  Kept = IsStep 2 s

  answer : (status_code : ℕ) (message : List ℕ) → Fine (reply host status_code message s)
  answer status_code message = reply-Good host N s status_code message s (same host N s)

  with_path-Good :
      (arguments : List ℕ) (next : List ℕ → Outcome W)
      → ((name : List ℕ) → line arguments ≡ some name → Fine (next (join s.current_directory name)))
      → Fine (with_path host arguments s next)
  unfolding with_path
  with_path-Good a next h = on_line-Good host N s (line a) _ _ (answer 501 _) h

  -- The test for existence of the path of a line.
  exists-Good :
      (arguments name : List ℕ) (x y : Outcome W)
      → OnThrow host N s arguments
      → line arguments ≡ some name
      → (host.exists (join s.current_directory name) s.world ≡ some true → Fine x)
      → (host.exists (join s.current_directory name) s.world ≡ some false → Fine y)
      → Fine (if_test (host.exists (join s.current_directory name) s.world) x y)
  exists-Good a name x y throws e h k =
      Ends-if_test N Kept (host.exists (join s.current_directory name) s.world) x y
        (λ f. throws name _ e (inr refl) (exists_throws f)) h k

  with_file-Good :
      (arguments : List ℕ) (next : List ℕ → Outcome W)
      → OnThrow host N s arguments
      → ((path : List ℕ) → Fine (next path))
      → Fine (with_file host arguments s next)
  unfolding with_file
  with_file-Good a next throws h = with_path-Good a _ (λ name e.
      exists-Good a name _ _ throws e
        (λ f.
          Ends-if_test N Kept (host.is_regular_file (join s.current_directory name) s.world) _ _
            (λ g. throws name _ e (inr refl) (is_regular_file_throws f g)) (λ g. h _)
            (λ g. answer 550 _))
        (λ f. answer 550 _))

  changed-Good : (r : Bool × W) (failure success : List ℕ) → Fine (changed host r failure success s)
  unfolding changed
  changed-Good (false, w) f g = reply-Good host N s 550 _ _ (IsStep-same 1 s _ refl refl refl)
  changed-Good (true, w) f g = reply-Good host N s 250 _ _ (IsStep-same 1 s _ refl refl refl)

  pub dele-Good :
      (arguments : List ℕ) → OnThrow host N s arguments → Fine (handle_dele host arguments s)
  unfolding handle_dele
  dele-Good a throws =
      with_file-Good a _ throws (λ path. changed-Good (host.unlink path s.world) _ _)

  pub rmd-Good :
      (arguments : List ℕ) → OnThrow host N s arguments → Fine (handle_rmd host arguments s)
  unfolding handle_rmd
  rmd-Good a throws = with_path-Good a _ (λ name e.
      exists-Good a name _ _ throws e
        (λ f.
          Ends-if_test N Kept (host.is_directory (join s.current_directory name) s.world) _ _
            (λ g. throws name _ e (inr refl) (is_directory_throws f g))
            (λ g. changed-Good (host.rmdir _ s.world) _ _) (λ g. answer 550 _))
        (λ f. answer 550 _))

  created-Good : (path : List ℕ) (o : Option W) → (o ≡ none → N) → Fine (created host path o s)
  unfolding created Ends
  created-Good path none h = h refl
  created-Good path (some w) h = reply-Good host N s 257 _ _ (IsStep-same 1 s _ refl refl refl)

  pub mkd-Good :
      (arguments : List ℕ)
      → OnThrow host N s arguments
      → ((name : List ℕ)
          → line arguments ≡ some name
          → host.exists (join s.current_directory name) s.world ≡ some false
          → host.create_directory (join s.current_directory name) s.world ≡ none
          → N)
      → Fine (handle_mkd host arguments s)
  unfolding handle_mkd
  mkd-Good a throws h = with_path-Good a _ (λ name e.
      exists-Good a name _ _ throws e (λ f. answer 550 _)
        (λ f. created-Good _ (host.create_directory _ s.world) (h name e f)))

  pub rnfr-Good :
      (arguments : List ℕ) → OnThrow host N s arguments → Fine (handle_rnfr host arguments s)
  unfolding handle_rnfr
  rnfr-Good a throws = with_path-Good a _ (λ name e.
      exists-Good a name _ _ throws e
        (λ f. reply-Good host N s 350 _ _ (IsStep-same 1 s _ refl refl refl)) (λ f. answer 550 _))

  renamed-Good : (r : Bool × W) → Fine (renamed host r s)
  unfolding renamed
  renamed-Good (false, w) = reply-Good host N s 550 _ _ (IsStep-same 1 s _ refl refl refl)
  renamed-Good (true, w) = reply-Good host N s 250 _ _ (IsStep-same 1 s _ refl refl refl)

  rename_to-Good :
      (arguments from : List ℕ)
      → OnThrow host N s arguments
      → Fine (rename_to host arguments from s)
  unfolding rename_to
  rename_to-Good a [] throws = answer 503 _
  rename_to-Good a (c ∷ from) throws = with_path-Good a _ (λ name e.
      exists-Good a name _ _ throws e (λ f. answer 550 _)
        (λ f. renamed-Good (host.rename (c ∷ from) _ s.world)))

  pub rnto-Good :
      (arguments : List ℕ) → OnThrow host N s arguments → Fine (handle_rnto host arguments s)
  unfolding handle_rnto
  rnto-Good a throws = rename_to-Good a s.rename_from throws

  size_reply-Good : (o : Option ℕ) → Fine (size_reply host o s)
  unfolding size_reply
  size_reply-Good none = answer 550 _
  size_reply-Good (some n) = answer 213 _

  pub size-Good :
      (arguments : List ℕ) → OnThrow host N s arguments → Fine (handle_size host arguments s)
  unfolding handle_size
  size-Good a throws =
      with_file-Good a _ throws (λ path. size_reply-Good (host.size_of path s.world))

  listen_passive-Good :
      (port : ℕ) (r : Bool × W) (s1 : Session W)
      → IsStep 1 s s1
      → Fine (listen_passive host port r s1)
  unfolding listen_passive
  listen_passive-Good port (false, w) s1 p =
      reply-Good host N s 425 _ _ (IsStep-then 1 0 s s1 _ p (IsStep-same 0 s1 _ refl refl refl))
  listen_passive-Good port (true, w) s1 p =
      reply-Good host N s 227 _ _ (IsStep-then 1 0 s s1 _ p (IsStep-same 0 s1 _ refl refl refl))

  bind_passive-Good :
      (port : ℕ) (r : Bool × W) (s1 : Session W)
      → IsStep 1 s s1
      → Fine (bind_passive host port r s1)
  unfolding bind_passive
  bind_passive-Good port (false, w) s1 p =
      reply-Good host N s 425 _ _ (IsStep-then 1 0 s s1 _ p (IsStep-same 0 s1 _ refl refl refl))
  bind_passive-Good port (true, w) s1 p = listen_passive-Good port (host.listen w) s1 p

  pub pasv-Good : (arguments : List ℕ) → Fine (handle_pasv host arguments s)
  unfolding handle_pasv
  pasv-Good a = bind_passive-Good _ _ _ (IsStep-same 1 s _ refl refl refl)

  not-true : (b : Bool) → not b ≡ true → b ≡ false
  not-true true e = sym e
  not-true false e = refl

  set_port-Good :
      (address : List ℕ) (high low : Option ℤ)
      → (high ≡ none → N)
      → (low ≡ none → N)
      → ((a b : ℤ) → high ≡ some a → low ≡ some b → fits_int a b ≡ false → N)
      → Fine (set_port host address high low s)
  unfolding set_port Ends
  set_port-Good address none low h k o = h refl
  set_port-Good address (some high) none h k o = k refl
  set_port-Good address (some high) (some low) h k o =
      Ends-test N Kept (not (fits_int high low)) _ _
        (λ e. o high low refl refl (not-true (fits_int high low) e))
        (λ e. reply-Good host N s 200 _ _ (IsStep-same 1 s _ refl refl refl))

  -- With the two numbers of a PORT that `stoi` may throw on.
  port_parts-Good :
      (o : Option (List (List ℕ)))
      → ((a b c d high low : List ℕ)
          → o ≡ some (a ∷ (b ∷ (c ∷ (d ∷ (high ∷ (low ∷ []))))))
          → (stoi high ≡ none) ⊎ ((stoi low ≡ none) ⊎ Overflows high low)
          → N)
      → Fine (port_parts host o s)
  unfolding port_parts Overflows
  port_parts-Good (some (a ∷ (b ∷ (c ∷ (d ∷ (high ∷ (low ∷ []))))))) h =
      set_port-Good _ (stoi high) (stoi low) (λ e. h a b c d high low refl (inl e))
        (λ e. h a b c d high low refl (inr (inl e)))
        (λ x y e f o. h a b c d high low refl (inr (inr (x, y, e, f, o))))
  port_parts-Good _ h = answer 501 _

  pub port-Good :
      (arguments : List ℕ)
      → ((a b c d high low : List ℕ)
          → parts 5 arguments ≡ some (a ∷ (b ∷ (c ∷ (d ∷ (high ∷ (low ∷ []))))))
          → (stoi high ≡ none) ⊎ ((stoi low ≡ none) ⊎ Overflows high low)
          → N)
      → Fine (handle_port host arguments s)
  unfolding handle_port
  port-Good a h = port_parts-Good (parts 5 a) h

  module _ (has : HasData host N s) where
    pub list-Good : (arguments : List ℕ) → Fine (handle_list host arguments s)
    unfolding handle_list
    list-Good a = transfer-Step host N _ s (λ s1 h. send_data-Step host N _ s1 h) has

    pub retr-Good :
        (arguments : List ℕ) → OnThrow host N s arguments → Fine (handle_retr host arguments s)
    unfolding handle_retr
    retr-Good a throws =
        with_file-Good a _ throws
          (λ path. transfer-Step host N _ s (λ s1 h. send_file-Step host N path s1 h) has)

    pub stor-Good : (arguments : List ℕ) → Fine (handle_stor host arguments s)
    unfolding handle_stor
    stor-Good a =
        with_path-Good a _
          (λ name e. transfer-Step host N _ s (λ s1 h. receive_file-Step host N _ s1 h) has)
