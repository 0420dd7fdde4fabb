-- ===== src/Ftp/Commands.antt =====
-- Which handler a request comes to: handle_request of components/ftp/include/ftp_client_session.hpp.
use espp.Prelude.{ℕ, ◌≡◌, refl, ap, ◌∙◌, some, List, [], ◌∷◌, ◌++◌, codes, same_text}
use espp.Ftp.Machine.{Host}
use espp.Ftp.State.{Session, Outcome}
use espp.Ftp.Account.{
  handle_user, handle_pass, handle_syst, handle_feat, handle_pwd, handle_cwd, handle_cdup,
  handle_type, handle_noop, handle_quit,
}
use espp.Ftp.Transfer.{handle_pasv, handle_port, handle_list, handle_size, handle_retr, handle_stor}
use espp.Ftp.Files.{handle_dele, handle_mkd, handle_rmd, handle_rnfr, handle_rnto}
use espp.Ftp.{
  parse_ftp_command, command_and_arguments, handle_command, handle_parsed, handle_request,
}

pub data Command : Type 0 where
  user pass syst feat pwd cwd cdup type pasv port : Command
  list size retr stor dele mkd rmd rnfr rnto noop quit : Command

unfoldable pub word : Command → List ℕ
word user = codes "USER"
word pass = codes "PASS"
word syst = codes "SYST"
word feat = codes "FEAT"
word pwd = codes "PWD"
word cwd = codes "CWD"
word cdup = codes "CDUP"
word type = codes "TYPE"
word pasv = codes "PASV"
word port = codes "PORT"
word list = codes "LIST"
word size = codes "SIZE"
word retr = codes "RETR"
word stor = codes "STOR"
word dele = codes "DELE"
word mkd = codes "MKD"
word rmd = codes "RMD"
word rnfr = codes "RNFR"
word rnto = codes "RNTO"
word noop = codes "NOOP"
word quit = codes "QUIT"

-- The rest of a request: a space and the arguments, or the end of the line.
pub data Rest : Type 0 where
  with_arguments : List ℕ → Rest
  without_arguments : Rest

unfoldable pub request_of : Command → Rest → List ℕ
request_of c (with_arguments arguments) = word c ++ (32 ∷ arguments)
request_of c without_arguments = word c ++ (13 ∷ (10 ∷ []))

unfoldable pub arguments_of : Rest → List ℕ
arguments_of (with_arguments arguments) = arguments
arguments_of without_arguments = []

parse-arguments :
    (c : Command) (a : List ℕ) → parse_ftp_command (word c ++ (32 ∷ a)) ≡ some (word c, a)
unfolding parse_ftp_command command_and_arguments word
parse-arguments user a = refl
parse-arguments pass a = refl
parse-arguments syst a = refl
parse-arguments feat a = refl
parse-arguments pwd a = refl
parse-arguments cwd a = refl
parse-arguments cdup a = refl
parse-arguments type a = refl
parse-arguments pasv a = refl
parse-arguments port a = refl
parse-arguments list a = refl
parse-arguments size a = refl
parse-arguments retr a = refl
parse-arguments stor a = refl
parse-arguments dele a = refl
parse-arguments mkd a = refl
parse-arguments rmd a = refl
parse-arguments rnfr a = refl
parse-arguments rnto a = refl
parse-arguments noop a = refl
parse-arguments quit a = refl

parse-line : (c : Command) → parse_ftp_command (word c ++ (13 ∷ (10 ∷ []))) ≡ some (word c, [])
unfolding parse_ftp_command command_and_arguments word
parse-line user = refl
parse-line pass = refl
parse-line syst = refl
parse-line feat = refl
parse-line pwd = refl
parse-line cwd = refl
parse-line cdup = refl
parse-line type = refl
parse-line pasv = refl
parse-line port = refl
parse-line list = refl
parse-line size = refl
parse-line retr = refl
parse-line stor = refl
parse-line dele = refl
parse-line mkd = refl
parse-line rmd = refl
parse-line rnfr = refl
parse-line rnto = refl
parse-line noop = refl
parse-line quit = refl

pub parse-request :
    (c : Command) (rest : Rest)
    → parse_ftp_command (request_of c rest) ≡ some (word c, arguments_of rest)
unfolding request_of arguments_of
parse-request c (with_arguments a) = parse-arguments c a
parse-request c without_arguments = parse-line c

module _ {W : Type 0} (host : Host W) where
  unfoldable pub handler : Command → List ℕ → Session W → Outcome W
  handler user = handle_user host
  handler pass = handle_pass host
  handler syst = handle_syst host
  handler feat = handle_feat host
  handler pwd = handle_pwd host
  handler cwd = handle_cwd host
  handler cdup = handle_cdup host
  handler type = handle_type host
  handler pasv = handle_pasv host
  handler port = handle_port host
  handler list = handle_list host
  handler size = handle_size host
  handler retr = handle_retr host
  handler stor = handle_stor host
  handler dele = handle_dele host
  handler mkd = handle_mkd host
  handler rmd = handle_rmd host
  handler rnfr = handle_rnfr host
  handler rnto = handle_rnto host
  handler noop = handle_noop host
  handler quit = handle_quit host

  pub handle_command-word :
      (c : Command) (arguments request : List ℕ) (s : Session W)
      → handle_command host (word c) arguments request s ≡ handler c arguments s
  unfolding handle_command word same_text handler
  handle_command-word user a r s = refl
  handle_command-word pass a r s = refl
  handle_command-word syst a r s = refl
  handle_command-word feat a r s = refl
  handle_command-word pwd a r s = refl
  handle_command-word cwd a r s = refl
  handle_command-word cdup a r s = refl
  handle_command-word type a r s = refl
  handle_command-word pasv a r s = refl
  handle_command-word port a r s = refl
  handle_command-word list a r s = refl
  handle_command-word size a r s = refl
  handle_command-word retr a r s = refl
  handle_command-word stor a r s = refl
  handle_command-word dele a r s = refl
  handle_command-word mkd a r s = refl
  handle_command-word rmd a r s = refl
  handle_command-word rnfr a r s = refl
  handle_command-word rnto a r s = refl
  handle_command-word noop a r s = refl
  handle_command-word quit a r s = refl

  -- A request that is one of the 21 command words, followed by a space and arguments or by the end
  -- of the line alone, is handled by the handler of that command, with these arguments or none.
  pub handle_request-handler :
      (c : Command) (rest : Rest) (s : Session W)
      → handle_request host (request_of c rest) s ≡ handler c (arguments_of rest) s
  unfolding handle_request handle_parsed
  handle_request-handler c rest s =
      ap (λ p. handle_parsed host p (request_of c rest) s) (parse-request c rest)
      ∙ handle_command-word c (arguments_of rest) (request_of c rest) s
