-- ===== src/Ftp/Safety.antt =====
-- What a request keeps of a session, and the only ways in which it crashes: handle_request of
-- components/ftp/include/ftp_client_session.hpp.
use espp.Prelude.{
  ℕ, ◌≡◌, ◌⊎◌, inl, inr, refl, true, false, Option, none, some, List, [], ◌∷◌, codes, same_text,
  stoi, if◌then◌else◌,
}
use mathlib.Core.Path.{subst}
use espp.Ftp.Machine.{Host}
use espp.Ftp.State.{Session, Outcome, send_response, line}
use espp.Ftp.FilePath.{join}
use espp.Ftp.Transfers.{HasData}
use espp.Ftp.Account.{handle_syst, handle_pwd, handle_noop, handle_unknown}
use espp.Ftp.Transfer.{parts}
use espp.Ftp.Steps.{IsStep, Ends, Ends-test, Ends-crash}
use espp.Ftp.Logins.{
  Throws, OnThrow, Good, reply-Good, same, unanswered, user-Good, pass-Good, feat-Good, cwd-Good,
  cdup-Good, type-Good, quit-Good,
}
use espp.Ftp.Changes.{
  Overflows, dele-Good, rmd-Good, mkd-Good, rnfr-Good, rnto-Good, size-Good, pasv-Good, port-Good,
  list-Good, retr-Good, stor-Good,
}
use espp.Ftp.{handle_command, handle_parsed, handle_request, parse_ftp_command}

-- The commands that test what their path names.
pub data Tests : List ℕ → Type 0 where
  tests_cwd : Tests (codes "CWD")
  tests_size : Tests (codes "SIZE")
  tests_retr : Tests (codes "RETR")
  tests_dele : Tests (codes "DELE")
  tests_mkd : Tests (codes "MKD")
  tests_rmd : Tests (codes "RMD")
  tests_rnfr : Tests (codes "RNFR")
  tests_rnto : Tests (codes "RNTO")

-- A transfer without a data connection, a PORT with a number that `stoi` throws on or with an
-- overflow, a test of a path that throws, or a directory whose creation throws.
pub data Crash {W : Type 0} (host : Host W) (command arguments : List ℕ) (s : Session W)
    : Type 0 where
  crash_transfer :
      (same_text command (codes "LIST") ≡ true)
        ⊎ ((same_text command (codes "RETR") ≡ true) ⊎ (same_text command (codes "STOR") ≡ true))
      → s.is_passive_data_connection ≡ false
      → s.data_socket ≡ false
      → Crash host command arguments s
  crash_port :
      same_text command (codes "PORT") ≡ true
      → (a b c d high low : List ℕ)
      → parts 5 arguments ≡ some (a ∷ (b ∷ (c ∷ (d ∷ (high ∷ (low ∷ []))))))
      → (stoi high ≡ none) ⊎ ((stoi low ≡ none) ⊎ Overflows high low)
      → Crash host command arguments s
  crash_test :
      (word : List ℕ)
      → Tests word
      → same_text command word ≡ true
      → (name path : List ℕ) → line arguments ≡ some name
      → (path ≡ name) ⊎ (path ≡ join s.current_directory name)
      → Throws host path s.world
      → Crash host command arguments s
  crash_mkd :
      same_text command (codes "MKD") ≡ true
      → (name : List ℕ) → line arguments ≡ some name
      → host.exists (join s.current_directory name) s.world ≡ some false
      → host.create_directory (join s.current_directory name) s.world ≡ none
      → Crash host command arguments s

module _ {W : Type 0} (host : Host W) (command arguments : List ℕ) (s : Session W) where
  abbrev C : Type 0
  C = Crash host command arguments s

  abbrev Fine : Outcome W → Type 0
  Fine = Good host C s

  test :
      (text : List ℕ) (x y : Outcome W)
      → (same_text command text ≡ true → Fine x)
      → Fine y
      → Fine (if same_text command text then x else y)
  test text x y h k = Ends-test C (IsStep 2 s) (same_text command text) x y h (λ e. k)

  throws : (word : List ℕ) → Tests word → same_text command word ≡ true → OnThrow host C s arguments
  throws word t e name path l p x = crash_test word t e name path l p x

  answer : (status_code : ℕ) (message : List ℕ) → Fine (send_response host status_code message s)
  answer status_code message = reply-Good host C s status_code message s (same host C s)

  command-Good : (request : List ℕ) → Fine (handle_command host command arguments request s)
  unfolding handle_command handle_syst handle_pwd handle_noop handle_unknown HasData
  command-Good request =
      test (codes "USER") _ _ (λ e. user-Good host C s arguments)
        (test (codes "PASS") _ _ (λ e. pass-Good host C s arguments)
          (test (codes "SYST") _ _ (λ e. answer 215 _)
            (test (codes "FEAT") _ _ (λ e. feat-Good host C s arguments)
              (test (codes "PWD") _ _ (λ e. answer 257 _)
                (test (codes "CWD") _ _ (λ e. cwd-Good host C s arguments (throws _ tests_cwd e))
                  (test (codes "CDUP") _ _ (λ e. cdup-Good host C s arguments)
                    (test (codes "TYPE") _ _ (λ e. type-Good host C s arguments)
                      (test (codes "PASV") _ _ (λ e. pasv-Good host C s arguments)
                        (test (codes "PORT") _ _ (λ e. port-Good host C s arguments (crash_port e))
                          (test (codes "LIST") _ _
                            (λ e. list-Good host C s (crash_transfer (inl e)) arguments)
                            (test (codes "SIZE") _ _
                              (λ e. size-Good host C s arguments (throws _ tests_size e))
                              (test (codes "RETR") _ _
                                (λ e.
                                  retr-Good host C s (crash_transfer (inr (inl e))) arguments
                                    (throws _ tests_retr e))
                                (test (codes "STOR") _ _
                                  (λ e. stor-Good host C s (crash_transfer (inr (inr e))) arguments)
                                  (test (codes "DELE") _ _
                                    (λ e. dele-Good host C s arguments (throws _ tests_dele e))
                                    (test (codes "MKD") _ _
                                      (λ e.
                                        mkd-Good host C s arguments (throws _ tests_mkd e)
                                          (crash_mkd e))
                                      (test (codes "RMD") _ _
                                        (λ e. rmd-Good host C s arguments (throws _ tests_rmd e))
                                        (test (codes "RNFR") _ _
                                          (λ e.
                                            rnfr-Good host C s arguments (throws _ tests_rnfr e))
                                          (test (codes "RNTO") _ _
                                            (λ e.
                                              rnto-Good host C s arguments (throws _ tests_rnto e))
                                            (test (codes "NOOP") _ _ (λ e. answer 200 _)
                                              (test (codes "QUIT") _ _
                                                (λ e. quit-Good host C s arguments)
                                                (answer 500 _)))))))))))))))))))))

module _ {W : Type 0} (host : Host W) (request : List ℕ) (s : Session W) where
  -- How a request crashes.
  unfoldable pub Crashes : Type 0
  Crashes =
      (command : List ℕ) × (arguments : List ℕ) × (parse_ftp_command request
        ≡ some (command, arguments))
      × Crash host command arguments s

  parsed-Good :
      (o : Option (List ℕ × List ℕ))
      → parse_ftp_command request ≡ o
      → Good host Crashes s (handle_parsed host o request s)
  unfolding handle_parsed Crashes
  parsed-Good none e = unanswered host Crashes s
  parsed-Good (some (command, arguments)) e =
      Ends-crash (Crash host command arguments s) Crashes (IsStep 2 s) _
        (λ c. (command, arguments, e, c)) (command-Good host command arguments s request)

  pub request-Good : Good host Crashes s (handle_request host request s)
  unfolding handle_request
  request-Good = parsed-Good (parse_ftp_command request) refl

  -- A request crashes only if it parses as a command and its arguments, and the command is a LIST,
  -- RETR or STOR in a session that is neither in passive mode nor has a data socket, or a PORT with six
  -- parts of which `stoi` throws on the fifth or the sixth or whose sum overflows, or a CWD, SIZE, RETR, DELE, MKD, RMD,
  -- RNFR or RNTO with a line that names a path, as it stands or in the current directory, on which a
  -- test of the file system throws, or an MKD with a line for a path that does not exist and whose
  -- creation throws.
  pub handle_request-crash : handle_request host request s ≡ none → Crashes
  unfolding Ends
  handle_request-crash e = subst (Ends Crashes (IsStep 2 s)) e request-Good
