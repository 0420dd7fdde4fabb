-- ===== src/Ftp/Tests.antt =====
-- Runs of a session at concrete requests, on a host with one file.
use espp.Prelude.{
  same_text, decimal, digits, to_string, ℕ, ◌<◌, ◌≤◌, ◌≡◌, refl, sym, ap, Bool, true, false, Option,
  none, some, List, [], ◌∷◌, ◌++◌, codes, arith,
}
use mathlib.Core.Bool.{false≢true}
use espp.Ftp.Machine.{Host, accepted}
use espp.Ftp.State.{
  Session, send_response, send, when_true, when_either, send_data, accept_data, open_data,
  receive_file, send_file, response,
}
use espp.Ftp.Account.{handle_quit, closed}
use espp.Ftp.Transfer.{commas, finished, handle_pasv, handle_port, handle_list}
use espp.Ftp.Commands.{
  word, request_of, arguments_of, handler, port, with_arguments, handle_request-handler,
}
use espp.Ftp.Steps.{IsStep}
use espp.Ftp.Safety.{Crashes, handle_request-crash}
use espp.Ftp.Rounds.{no_round, then_round, Rounds-IsStep}
use espp.Ftp.Ports.{IsPart, dotted, offer, handle_port-offer, handle_pasv-offer}
use espp.Ftp.Store.{IsStore, received, stored, Delivers, receive-send}
use espp.Ftp.Active.{announcement, handle_list-twice}
use espp.Ftp.{
  handle_request, handle_parsed, parse_ftp_command, command_and_arguments, handle_command,
  handle_received, going_on, task_function,
}

-- A host: whether the control connection is open, the requests that will come, the one file, and what
-- was sent over data connections.
record Machine : Type 0 where
  connected : Bool
  requests : List (List ℕ)
  file : List ℕ
  data_out : List ℕ

next_request : List (List ℕ) → Machine → Option (List ℕ) × Machine
next_request [] w = (none, w)
next_request (r ∷ rs) w = (some r, record w { requests = rs })

abbrev host : Host Machine
host = record {
  is_connected = λ w. w.connected;
  receive = λ w. next_request w.requests w;
  transmit = λ text w. (true, w);
  close = λ w. record w { connected = false };
  random = λ w. (40000, w);
  reinit = λ w. w;
  bind = λ p w. (true, w);
  listen = λ w. (true, w);
  is_valid = λ w. true;
  accept = λ w. (accepted, w);
  connect = λ ip p w. (true, w);
  data_transmit = λ bytes w. (true, record w { data_out = w.data_out ++ bytes });
  incoming = λ w. (codes "abc" ∷ (codes "de" ∷ []), w);
  data_close = λ w. w;
  exists = λ path w. some false;
  is_directory = λ path w. some false;
  is_regular_file = λ path w. some true;
  size_of = λ path w. some 3;
  read_file = λ path w. some w.file;
  open_for_writing = λ path w. (true, record w { file = [] });
  append_to = λ path bytes w. record w { file = w.file ++ bytes };
  unlink = λ path w. (true, w);
  rmdir = λ path w. (true, w);
  create_directory = λ path w. none;
  rename = λ a b w. (true, w);
  entries = λ path w. some [];
}

abbrev machine : Machine
machine = record {
  connected = true;
  requests = (codes "QUIT" ++ (13 ∷ (10 ∷ []))) ∷ [];
  file = codes "xyz";
  data_out = [];
}

-- A session with neither a data socket nor the passive mode.
abbrev session : Session Machine
session = record {
  local_ip_address = codes "192.168.1.20";
  username = [];
  password = [];
  current_directory = codes "/root";
  rename_from = [];
  socket = true;
  data_socket = false;
  is_passive_data_connection = false;
  data_ip_address = [];
  data_port = 0;
  sent = [];
  world = machine;
}

abbrev passive : Session Machine
passive = record session { is_passive_data_connection = true }

abbrev active : Session Machine
active = record session { data_socket = true; data_ip_address = codes "10.0.0.7"; data_port = 5000 }

handle_request-handler_example :
    handle_request host (codes "PORT 10,0,0,7,4,1") session
    ≡ handler host port (codes "10,0,0,7,4,1") session
unfolding request_of arguments_of word
handle_request-handler_example =
    handle_request-handler host port (with_arguments (codes "10,0,0,7,4,1")) session

list_crashes : handle_request host (codes "LIST" ++ (13 ∷ (10 ∷ []))) session ≡ none
unfolding handle_request handle_parsed parse_ftp_command command_and_arguments handle_command
    same_text handle_list send_response send when_true when_either send_data open_data finished
list_crashes = refl

handle_request-crash_example : Crashes host (codes "LIST" ++ (13 ∷ (10 ∷ []))) session
handle_request-crash_example =
    handle_request-crash host (codes "LIST" ++ (13 ∷ (10 ∷ []))) session list_crashes

abbrev said_goodbye : Session Machine
said_goodbye = record session {
  sent = response 221 (codes "Service closing control connection.") false ∷ [];
  world = record machine { connected = false; requests = [] };
}

quit_round : task_function host session ≡ some (false, said_goodbye)
unfolding task_function next_request handle_received going_on handle_request handle_parsed
    parse_ftp_command command_and_arguments handle_command same_text handle_quit closed
    send_response send
quit_round = refl

Rounds-IsStep_example : IsStep 2 session said_goodbye
Rounds-IsStep_example = Rounds-IsStep host 1 session said_goodbye (
    then_round 0 session said_goodbye said_goodbye machine false quit_round (no_round said_goodbye))

handle_port-offer_example :
    handle_port host (offer (codes "192.168.1.20") 1025 ++ (13 ∷ (10 ∷ []))) session
    ≡ send_response host 200 (codes "PORT command successful.") (record session {
      data_ip_address = codes "192.168.1.20";
      data_port = 1025;
      data_socket = true;
      is_passive_data_connection = false;
    })
unfolding dotted IsPart
handle_port-offer_example =
    handle_port-offer (codes "192") (codes "168") (codes "1") (codes "20") (omega arith)
      (omega arith) (omega arith) (omega arith) 1025 (omega arith) host session

passive_text : offer (codes "192.168.1.20") 1025 ≡ codes "192,168,1,20,4,1"
unfolding offer commas to_string decimal digits
passive_text = refl

handle_pasv-offer_example :
    (port : ℕ) × (1024 ≤ port)
    × (port < 11024)
    × (host.bind port (host.reinit ((host.random session.world).1)) ≡ (true, machine))
    × (handle_pasv host [] session
        ≡ send_response host 227
            (codes "Entering Passive Mode (" ++ (offer session.local_ip_address port ++ codes ")"))
            passive)
handle_pasv-offer_example = handle_pasv-offer host session [] machine machine refl refl

grow : List ℕ → Option (List ℕ) → Option (List ℕ)
grow bytes none = none
grow bytes (some old) = some (old ++ bytes)

host-IsStore : IsStore host (λ w. w.data_out)
unfolding grow
host-IsStore = record {
  stored_open = λ path w w1 e. ap (λ r. some ((r.1).file)) (sym e);
  stored_append = λ path bytes old w e. ap (grow bytes) e;
  stored_incoming = λ path w. refl;
  stored_close = λ path w. refl;
  stored_accept = λ path w. refl;
  sent_accept = λ w. refl;
  sent_close = λ w. refl;
  sent_transmit = λ bytes w w1 e. ap (λ r. (r.1).data_out) (sym e);
  unsent_transmit = λ bytes w w1 e. absurd (false≢true (sym (ap (λ r. r.0) e)));
}

abbrev opened : Session Machine
opened = record passive { data_socket = true }

abbrev kept : Session Machine
kept = stored host (codes "/root/a") opened (record machine { file = [] })

receive-send_example :
    (receive_file host (codes "/root/a") passive ≡ some (true, kept))
    × Delivers
        (λ w. w.data_out)
        (received (codes "abc" ∷ (codes "de" ∷ [])))
        kept
        (send_file host (codes "/root/a") kept)
unfolding open_data accept_data
receive-send_example =
    receive-send host (λ w. w.data_out) host-IsStore (codes "/root/a") passive opened
      (record machine { file = [] }) refl refl refl

handle_list-twice_example :
    (b : Bool) × (s1 : Session Machine) × (handle_list host [] active ≡ some (b, s1))
    × ((w2 : Machine)
        → host.transmit announcement s1.world ≡ (true, w2)
        → handle_list host [] s1 ≡ none)
handle_list-twice_example = handle_list-twice host [] [] active machine machine refl refl refl refl
