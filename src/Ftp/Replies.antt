-- ===== src/Ftp/Replies.antt =====
-- What the handlers share: components/ftp/include/ftp_client_session.hpp.
use espp.Prelude.{ℕ, Option, none, some, List, codes}
use espp.Ftp.FilePath.{join}
use espp.Ftp.Machine.{Host}
use espp.Ftp.State.{if_test, Session, Outcome, send_response, line}

module _ {W : Type 0} where
  -- What stands before the end of the line, and what is done where it has no end.
  unfoldable pub on_line : Option (List ℕ) → Outcome W → (List ℕ → Outcome W) → Outcome W
  on_line none failed next = failed
  on_line (some text) failed next = next text

module _ {W : Type 0} (host : Host W) where
  abbrev pub reply : ℕ → List ℕ → Session W → Outcome W
  reply = send_response host

  abbrev pub syntax_error : Session W → Outcome W
  syntax_error s = reply 501 (codes "Syntax error in parameters or arguments.") s

  -- The path of a file in the current directory, or an answer that the line has no end.
  unfoldable pub with_path : List ℕ → Session W → (List ℕ → Outcome W) → Outcome W
  with_path arguments s next =
      on_line (line arguments) (syntax_error s) (λ path. next (join s.current_directory path))

  -- The tests for a regular file.
  unfoldable pub with_file : List ℕ → Session W → (List ℕ → Outcome W) → Outcome W
  with_file arguments s next = with_path arguments s (λ path.
      if_test (host.exists path s.world)
        (if_test (host.is_regular_file path s.world) (next path)
          (reply 550 (codes "Not a regular file.") s))
        (reply 550 (codes "File does not exist.") s))
