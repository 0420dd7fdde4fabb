-- ===== src/Ftp/Account.antt =====
-- Login, directories and the other commands without files: components/ftp/include/ftp_client_session.hpp.
use espp.Prelude.{same_text, ℕ, true, false, none, some, List, ◌++◌, codes, if◌then◌else◌}
use espp.Ftp.FilePath.{is_absolute, join, parent_path}
use espp.Ftp.Machine.{Host}
use espp.Ftp.State.{if_test, Session, Outcome, when_true, response, send, line}
use espp.Ftp.Replies.{reply, on_line}

unfoldable pub features : List ℕ
features =
    codes
      "Features:\r\n USER\r\n PASS\r\n SYST\r\n FEAT\r\n PWD\r\n CWD\r\n CDUP\r\n TYPE\r\n PASV\r\n"
    ++ codes
        " PORT\r\n LIST\r\n SIZE\r\n RETR\r\n STOR\r\n DELE\r\n MKD\r\n RMD\r\n RNFR\r\n RNTO\r\n"
    ++ codes " NOOP\r\n QUIT\r\n"

module _ {W : Type 0} (host : Host W) where
  unfoldable pub handle_user : List ℕ → Session W → Outcome W
  handle_user arguments s = on_line (line arguments) (some (false, s)) (λ name.
      reply host 331 (codes "User name okay, need password.") (record s { username = name }))

  unfoldable pub handle_pass : List ℕ → Session W → Outcome W
  handle_pass arguments s =
      on_line (line arguments) (some (false, s))
        (λ word. reply host 230 (codes "User logged in, proceed.") (record s { password = word }))

  unfoldable pub handle_syst : List ℕ → Session W → Outcome W
  handle_syst arguments s = reply host 215 (codes "UNIX Type: L8") s

  unfoldable pub handle_feat : List ℕ → Session W → Outcome W
  handle_feat arguments s =
      when_true (send host (response 211 features true) s) (λ s1. reply host 211 (codes "End") s1)

  unfoldable pub handle_pwd : List ℕ → Session W → Outcome W
  handle_pwd arguments s =
      reply host 257 (codes "\"" ++ (s.current_directory ++ codes "\" is the current directory")) s

  unfoldable pub change_to : List ℕ → Session W → Outcome W
  change_to path s =
      if_test (host.exists path s.world)
        (if_test (host.is_directory path s.world)
          (reply host 250 (codes "Directory successfully changed.")
            (record s { current_directory = path }))
          (reply host 550 (codes "Not a directory.") s))
        (reply host 550 (codes "Directory does not exist.") s)

  unfoldable pub handle_cwd : List ℕ → Session W → Outcome W
  handle_cwd arguments s = on_line (line arguments) (some (false, s)) (λ directory.
      change_to (if is_absolute directory then directory else join s.current_directory directory) s)

  unfoldable pub handle_cdup : List ℕ → Session W → Outcome W
  handle_cdup arguments s =
      reply host 250 (codes "Directory successfully changed.")
        (record s { current_directory = parent_path s.current_directory })

  unfoldable pub handle_type : List ℕ → Session W → Outcome W
  handle_type arguments s = on_line (line arguments) (some (false, s)) (λ type.
      if same_text type (codes "A")
      then reply host 200 (codes "Switching to ASCII mode.") s
      else if same_text type (codes "I")
      then reply host 200 (codes "Switching to Binary mode.") s
      else if same_text type (codes "E")
      then reply host 200 (codes "Switching to EBCDIC mode.") s
      else reply host 504 (codes "Command not implemented for that parameter.") s)

  unfoldable pub closed : Outcome W → Outcome W
  closed none = none
  closed (some (sent, s)) = some (sent, record s { world = host.close s.world })

  unfoldable pub handle_quit : List ℕ → Session W → Outcome W
  handle_quit arguments s = closed (reply host 221 (codes "Service closing control connection.") s)

  unfoldable pub handle_noop : List ℕ → Session W → Outcome W
  handle_noop arguments s = reply host 200 (codes "Command okay.") s

  unfoldable pub handle_unknown : List ℕ → Session W → Outcome W
  handle_unknown request s = reply host 500 (codes "Syntax error, command unrecognized.") s
