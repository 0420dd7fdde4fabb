-- ===== src/Ftp.antt =====
-- A client's session at the FTP server: components/ftp/include/ftp_client_session.hpp. The sockets and
-- the file system are a host, a parameter.
mod FilePath
mod Machine
mod Listing
mod State
mod Replies
mod Account
mod Transfer
mod Files
mod Commands
mod Paths
mod Steps
mod Transfers
mod Logins
mod Changes
mod Safety
mod Rounds
mod Ports
mod Store
mod Active
mod Tests
use espp.Prelude.{
  same_text, ℕ, ◌+◌, ◌==◌, Bool, true, false, not, Option, none, some, List, [], ◌∷◌, ◌++◌, length,
  take, drop, codes, if◌then◌else◌, find_char, find_text,
}
use Machine.{Host}
use State.{Session, Outcome, send_response}
use Account.{
  handle_user, handle_pass, handle_syst, handle_feat, handle_pwd, handle_cwd, handle_cdup,
  handle_type, handle_noop, handle_quit, handle_unknown,
}
use Transfer.{handle_pasv, handle_port, handle_list, handle_size, handle_retr, handle_stor}
use Files.{handle_dele, handle_mkd, handle_rmd, handle_rnfr, handle_rnto}

-- The command and the arguments of a request with a space at `space`, or with the end of the line at
-- `end`.
unfoldable pub command_and_arguments : Option ℕ → Option ℕ → List ℕ → Option (List ℕ × List ℕ)
command_and_arguments (some space) end request = some (take space request, drop (space + 1) request)
command_and_arguments none (some end) request = some (take end request, [])
command_and_arguments none none request = none

unfoldable pub parse_ftp_command : List ℕ → Option (List ℕ × List ℕ)
unfolding command_and_arguments
parse_ftp_command request =
    command_and_arguments (find_char 32 request) (find_text (13 ∷ (10 ∷ [])) request) request

module _ {W : Type 0} (host : Host W) where
  unfoldable pub send_welcome_message : Session W → Outcome W
  send_welcome_message s = send_response host 220 (codes "Welcome to espp FTP server") s

  unfoldable pub handle_command : List ℕ → List ℕ → List ℕ → Session W → Outcome W
  handle_command command arguments request s =
      if same_text command (codes "USER")
      then handle_user host arguments s
      else if same_text command (codes "PASS")
      then handle_pass host arguments s
      else if same_text command (codes "SYST")
      then handle_syst host arguments s
      else if same_text command (codes "FEAT")
      then handle_feat host arguments s
      else if same_text command (codes "PWD")
      then handle_pwd host arguments s
      else if same_text command (codes "CWD")
      then handle_cwd host arguments s
      else if same_text command (codes "CDUP")
      then handle_cdup host arguments s
      else if same_text command (codes "TYPE")
      then handle_type host arguments s
      else if same_text command (codes "PASV")
      then handle_pasv host arguments s
      else if same_text command (codes "PORT")
      then handle_port host arguments s
      else if same_text command (codes "LIST")
      then handle_list host arguments s
      else if same_text command (codes "SIZE")
      then handle_size host arguments s
      else if same_text command (codes "RETR")
      then handle_retr host arguments s
      else if same_text command (codes "STOR")
      then handle_stor host arguments s
      else if same_text command (codes "DELE")
      then handle_dele host arguments s
      else if same_text command (codes "MKD")
      then handle_mkd host arguments s
      else if same_text command (codes "RMD")
      then handle_rmd host arguments s
      else if same_text command (codes "RNFR")
      then handle_rnfr host arguments s
      else if same_text command (codes "RNTO")
      then handle_rnto host arguments s
      else if same_text command (codes "NOOP")
      then handle_noop host arguments s
      else if same_text command (codes "QUIT")
      then handle_quit host arguments s
      else handle_unknown host request s

  -- A request that is not understood is dropped.
  unfoldable pub handle_parsed : Option (List ℕ × List ℕ) → List ℕ → Session W → Outcome W
  handle_parsed none request s = some (false, s)
  handle_parsed (some (command, arguments)) request s = handle_command command arguments request s

  unfoldable pub handle_request : List ℕ → Session W → Outcome W
  handle_request request s = handle_parsed (parse_ftp_command request) request s

  -- Whether a request was handled makes no difference to the task.
  unfoldable pub going_on : Outcome W → Outcome W
  going_on none = none
  going_on (some (handled, s)) = some (false, s)

  unfoldable pub handle_received : Option (List ℕ) → Session W → Outcome W
  handle_received none s = some (false, s)
  handle_received (some []) s = some (false, s)
  handle_received (some (c ∷ request)) s = going_on (handle_request (c ∷ request) s)

  -- A round of the task, after its delay: `true` stops it.
  unfoldable pub task_function : Session W → Outcome W
  task_function s =
      if not s.socket
      then some (true, s)
      else if not (host.is_connected s.world)
      then some (true, record s { socket = false })
      else (let r = host.receive s.world in handle_received (r.0) (record s { world = r.1 }))
