-- ===== src/Ftp/Files.antt =====
-- The commands that change the file system: components/ftp/include/ftp_client_session.hpp.
use espp.Prelude.{ℕ, Bool, true, false, Option, none, some, List, [], ◌∷◌, ◌++◌, codes}
use espp.Ftp.Machine.{Host}
use espp.Ftp.State.{if_test, Session, Outcome}
use espp.Ftp.Replies.{reply, with_path, with_file}

module _ {W : Type 0} (host : Host W) where
  -- What follows a change of the file system that may fail.
  unfoldable pub changed : Bool × W → List ℕ → List ℕ → Session W → Outcome W
  changed (false, w) failure success s = reply host 550 failure (record s { world = w })
  changed (true, w) failure success s = reply host 250 success (record s { world = w })

  unfoldable pub handle_dele : List ℕ → Session W → Outcome W
  handle_dele arguments s = with_file host arguments s (λ path.
      changed (host.unlink path s.world) (codes "Failed to delete file.")
        (codes "Requested file action okay, completed.") s)

  unfoldable pub handle_rmd : List ℕ → Session W → Outcome W
  handle_rmd arguments s = with_path host arguments s (λ path.
      if_test (host.exists path s.world)
        (if_test (host.is_directory path s.world)
          (changed (host.rmdir path s.world) (codes "Failed to delete directory.")
            (codes "Requested file action okay, completed.") s)
          (reply host 550 (codes "Not a directory.") s))
        (reply host 550 (codes "File does not exist.") s))

  unfoldable pub created : List ℕ → Option W → Session W → Outcome W
  created path none s = none
  created path (some w) s = reply host 257 (path ++ codes " created.") (record s { world = w })

  unfoldable pub handle_mkd : List ℕ → Session W → Outcome W
  handle_mkd arguments s = with_path host arguments s (λ path.
      if_test (host.exists path s.world) (reply host 550 (codes "File already exists.") s)
        (created path (host.create_directory path s.world) s))

  unfoldable pub handle_rnfr : List ℕ → Session W → Outcome W
  handle_rnfr arguments s = with_path host arguments s (λ path.
      if_test (host.exists path s.world)
        (reply host 350 (codes "File exists, ready for destination name (RNTO).")
          (record s { rename_from = path }))
        (reply host 550 (codes "File does not exist.") s))

  unfoldable pub renamed : Bool × W → Session W → Outcome W
  renamed (false, w) s = reply host 550 (codes "Failed to rename file.") (record s { world = w })
  renamed (true, w) s =
      reply host 250 (codes "Rename successful.") (record s { rename_from = []; world = w })

  -- With the path that is to be renamed, if there is one.
  unfoldable pub rename_to : List ℕ → List ℕ → Session W → Outcome W
  rename_to arguments [] s = reply host 503 (codes "Bad sequence of commands.") s
  rename_to arguments (c ∷ from) s = with_path host arguments s (λ path.
      if_test (host.exists path s.world) (reply host 550 (codes "File already exists.") s)
        (renamed (host.rename (c ∷ from) path s.world) s))

  unfoldable pub handle_rnto : List ℕ → Session W → Outcome W
  handle_rnto arguments s = rename_to arguments s.rename_from s
