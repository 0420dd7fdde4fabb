-- ===== src/Ftp/Logins.antt =====
-- What the commands without files keep of a session: components/ftp/include/
-- ftp_client_session.hpp.
use espp.Prelude.{
  ◌⊎◌, inl, inr, ℕ, ◌≡◌, refl, Bool, true, false, Option, none, some, List, codes, same_text,
  if◌then◌else◌,
}
use espp.Ftp.FilePath.{is_absolute, join}
use espp.Ftp.Paths.{join-absolute, parent_path-absolute}
use espp.Ftp.Machine.{Host}
use espp.Ftp.State.{Session, Outcome, response, send, send_response, line}
use espp.Ftp.Replies.{reply, on_line}
use espp.Ftp.Account.{
  features, change_to, closed, handle_user, handle_pass, handle_feat, handle_cwd, handle_cdup,
  handle_type, handle_quit,
}
use espp.Ftp.Steps.{
  IsStep, Ends, Ends-if, Ends-if_test, Ends-when, IsStep-same, IsStep-then, IsStep-more, send-Step,
}

-- A test of the file system throws on a path: whether it exists or, where it does, which type it
-- has.
pub data Throws {W : Type 0} (host : Host W) (path : List ℕ) (w : W) : Type 0 where
  exists_throws : host.exists path w ≡ none → Throws host path w
  is_directory_throws :
      host.exists path w ≡ some true → host.is_directory path w ≡ none → Throws host path w
  is_regular_file_throws :
      host.exists path w ≡ some true → host.is_regular_file path w ≡ none → Throws host path w

module _ {W : Type 0} (host : Host W) (N : Type 0) (s : Session W) where
  abbrev pub Good : Outcome W → Type 0
  Good = Ends N (IsStep 2 s)

  -- One reply, from a session with the same directory.
  pub reply-Good :
      (status_code : ℕ) (message : List ℕ) (s1 : Session W)
      → IsStep 1 s s1
      → Good (reply host status_code message s1)
  unfolding send_response
  reply-Good status_code message s1 p = send-Step host N 1 _ s s1 p

  pub same : IsStep 1 s s
  same = IsStep-same 1 s s refl refl refl

  -- What follows where a test throws on the path that the line of the arguments names.
  abbrev pub OnThrow : List ℕ → Type 0
  OnThrow arguments =
      (name path : List ℕ)
      → line arguments ≡ some name
      → (path ≡ name) ⊎ (path ≡ join s.current_directory name)
      → Throws host path s.world
      → N

  -- With what the line is known to be.
  pub on_line-Good :
      (o : Option (List ℕ)) (failed : Outcome W) (next : List ℕ → Outcome W)
      → Good failed
      → ((text : List ℕ) → o ≡ some text → Good (next text))
      → Good (on_line o failed next)
  unfolding on_line
  on_line-Good none failed next h k = h
  on_line-Good (some text) failed next h k = k text refl

  pub unanswered : Good (some (false, s))
  unfolding Ends
  unanswered = IsStep-same 2 s s refl refl refl

  pub user-Good : (arguments : List ℕ) → Good (handle_user host arguments s)
  unfolding handle_user
  user-Good a =
      on_line-Good (line a) _ _ unanswered
        (λ t e. reply-Good 331 _ _ (IsStep-same 1 s _ refl refl refl))

  pub pass-Good : (arguments : List ℕ) → Good (handle_pass host arguments s)
  unfolding handle_pass
  pass-Good a =
      on_line-Good (line a) _ _ unanswered
        (λ t e. reply-Good 230 _ _ (IsStep-same 1 s _ refl refl refl))

  pub feat-Good : (arguments : List ℕ) → Good (handle_feat host arguments s)
  unfolding handle_feat
  feat-Good a =
      Ends-when N (IsStep 2 s) (IsStep 1 s) (send host (response 211 features true) s) _
        (send-Step host N 0 _ s s (IsStep-same 0 s s refl refl refl)) (λ s1 p. IsStep-more 1 s s1 p)
        (λ s1 p. reply-Good 211 _ s1 p)

  moved :
      (path : List ℕ)
      → (is_absolute s.current_directory ≡ true → is_absolute path ≡ true)
      → IsStep 1 s (record s { current_directory = path })
  moved path h = record { stays_absolute = h; same_address = refl; replies = same.replies }

  pub change_to-Good :
      (path : List ℕ)
      → (is_absolute s.current_directory ≡ true → is_absolute path ≡ true)
      → (Throws host path s.world → N)
      → Good (change_to host path s)
  unfolding change_to
  change_to-Good path h throws =
      Ends-if_test N (IsStep 2 s) (host.exists path s.world) _ _ (λ e. throws (exists_throws e))
        (λ e.
          Ends-if_test N (IsStep 2 s) (host.is_directory path s.world) _ _
            (λ f. throws (is_directory_throws e f)) (λ f. reply-Good 250 _ _ (moved path h))
            (λ f. reply-Good 550 _ s same))
        (λ e. reply-Good 550 _ s same)

  chosen-absolute :
      (b : Bool) (path q : List ℕ)
      → (b ≡ true → is_absolute path ≡ true)
      → is_absolute q ≡ true
      → is_absolute (if b then path else q) ≡ true
  chosen-absolute true path q h k = h refl
  chosen-absolute false path q h k = k

  chosen :
      (b : Bool) (path q : List ℕ)
      → ((if b then path else q) ≡ path) ⊎ ((if b then path else q) ≡ q)
  chosen true path q = inl refl
  chosen false path q = inr refl

  pub cwd-Good : (arguments : List ℕ) → OnThrow arguments → Good (handle_cwd host arguments s)
  unfolding handle_cwd
  cwd-Good a throws = on_line-Good (line a) _ _ unanswered (λ path e.
      change_to-Good _
        (λ h.
          chosen-absolute (is_absolute path) path _ (λ e. e)
            (join-absolute s.current_directory path h))
        (throws path _ e (chosen (is_absolute path) path _)))

  pub cdup-Good : (arguments : List ℕ) → Good (handle_cdup host arguments s)
  unfolding handle_cdup
  cdup-Good a = reply-Good 250 _ _ (moved _ (λ h. parent_path-absolute s.current_directory h))

  pub type-Good : (arguments : List ℕ) → Good (handle_type host arguments s)
  unfolding handle_type
  type-Good a = on_line-Good (line a) _ _ unanswered (λ t e.
      Ends-if N (IsStep 2 s) (same_text t (codes "A")) _ _ (reply-Good 200 _ s same) (
        Ends-if N (IsStep 2 s) (same_text t (codes "I")) _ _ (reply-Good 200 _ s same) (
          Ends-if N (IsStep 2 s) (same_text t (codes "E")) _ _ (reply-Good 200 _ s same)
            (reply-Good 504 _ s same))))

  pub closed-Good : (m : Outcome W) → Good m → Good (closed host m)
  unfolding closed Ends
  closed-Good none h = h
  closed-Good (some (b, s1)) h = IsStep-then 2 0 s s1 _ h (IsStep-same 0 s1 _ refl refl refl)

  pub quit-Good : (arguments : List ℕ) → Good (handle_quit host arguments s)
  unfolding handle_quit
  quit-Good a = closed-Good _ (reply-Good 221 _ s same)
