-- ===== src/Tests/Sockets.antt =====
-- The sockets of the test network: which are open, and their options.
use npacn_fisac.Base.{
  ℕ, ◌≡◌, ◌≢◌, refl, arith, ap, sym, ◌∙◌, Bool, true, false, not, ◌&&◌, ◌==◌, if◌then◌else◌,
}
use npacn_fisac.Base.{Option, List, [], ◌∷◌, Keeps, Clean, Ensures, ◌++◌}
use npacn_fisac.Base.CText.{codes}
use npacn_fisac.Winsock.{Socket, invalid_socket, AcceptResult, accepted, accept_error, ErrorCode}
use npacn_fisac.HttpClient.{http_post_json}
use npacn_fisac.Client.{ClientInfo, Server, fresh_slot}
use npacn_fisac.Protocol.{handle_message}
use npacn_fisac.Server.{server_iteration, main}
use npacn_fisac.Server.Slots.{empty_slots, place_client}
use npacn_fisac.Server.Placing.{Places, place_client-Places}
use npacn_fisac.Setup.{set_socket_options}
use npacn_fisac.Setup.Options.{
  HasSettings, Sets, Chooses, profile_settings, set_socket_options-Sets,
}
use npacn_fisac.Sockets.{HasSockets}
use npacn_fisac.Sockets.Http.{http_post_json-IsQuiet}
use npacn_fisac.Protocol.Handlers.{MissesPayload}
use npacn_fisac.Sockets.Handlers.{handle_message-IsQuiet}
use npacn_fisac.Sockets.Tally.{holders-empty, Accounted}
use npacn_fisac.Sockets.Rounds.{server_iteration-Accounted}
use npacn_fisac.Sockets.Shutdown.{IsDown}
use npacn_fisac.Sockets.Startup.{OrExit, main-IsDown}
use npacn_fisac.Tests.Script.{
  update_self, Peers, script, is_free, new_socket, new_connection, from_three,
}
use npacn_fisac.Tests.Toy.{toy, guest, zero_stack, new_server}

free_parts : (a b : Bool) → (not a && not b) ≡ true → (a ≡ false) × (b ≡ false)
free_parts true b e = cc
free_parts false true e = cc
free_parts false false e = (refl, refl)

pub is_free_lem :
    (os : Peers) → is_free os ≡ true → (os.opened os.next ≡ false) × (os.next ≢ invalid_socket)
is_free_lem os e =
    let parts = free_parts (os.opened os.next) (os.next == invalid_socket) e in
    (parts.0, λ q. ground (arith, q, parts.1))

-- The laws of `socket` and `accept`, by whether the next number is free.
pub new_socket-open :
    (t : Socket) (b : Bool) (os : Peers)
    → (new_socket b os).0 ≢ invalid_socket
    → (new_socket b os).1.opened t ≡ (if t == (new_socket b os).0 then true else os.opened t)
new_socket-open t true os ne = refl
new_socket-open t false os ne = absurd (ne refl)

pub new_socket-failed :
    (t : Socket) (b : Bool) (os : Peers)
    → (b ≡ true → os.next ≢ invalid_socket)
    → (new_socket b os).0 ≡ invalid_socket
    → (new_socket b os).1.opened t ≡ os.opened t
new_socket-failed t true os valid e = absurd (valid refl e)
new_socket-failed t false os valid e = refl

pub new_socket-fresh :
    (b : Bool) (os : Peers)
    → (b ≡ true → os.opened os.next ≡ false)
    → (new_socket b os).0 ≢ invalid_socket
    → os.opened (new_socket b os).0 ≡ false
new_socket-fresh true os fresh ne = fresh refl
new_socket-fresh false os fresh ne = absurd (ne refl)

abbrev socket_of : AcceptResult → Socket
socket_of (accepted s ip port) = s
socket_of (accept_error e) = invalid_socket

pub new_connection-open :
    (t new : Socket) (ip : List ℕ) (port : ℕ) (b : Bool) (os : Peers)
    → (new_connection b os).0 ≡ accepted new ip port
    → (new_connection b os).1.opened t ≡ (if t == new then true else os.opened t)
new_connection-open t new ip port true os e =
    ap (λ (s : Socket). if t == s then true else os.opened t) (ap socket_of e)
new_connection-open t new ip port false os e = cc

pub new_connection-fresh :
    (new : Socket) (ip : List ℕ) (port : ℕ) (b : Bool) (os : Peers)
    → (b ≡ true → (os.opened os.next ≡ false) × (os.next ≢ invalid_socket))
    → (new_connection b os).0 ≡ accepted new ip port
    → (os.opened new ≡ false) × (new ≢ invalid_socket)
new_connection-fresh new ip port true os fresh e =
    let same : new ≡ os.next = sym (ap socket_of e) in
    (ap os.opened same ∙ (fresh refl).0, λ q. (fresh refl).1 (sym same ∙ q))
new_connection-fresh new ip port false os fresh e = cc

pub new_connection-failed :
    (t : Socket) (e : ErrorCode) (b : Bool) (os : Peers)
    → (new_connection b os).0 ≡ accept_error e
    → (new_connection b os).1.opened t ≡ os.opened t
new_connection-failed t e true os q = cc
new_connection-failed t e false os q = refl

abbrev pub open_sockets : HasSockets script
open_sockets = record {
  is_open = λ t os. os.opened t;
  open-send = λ t s bytes os. refl;
  open-recv = λ t s n os. refl;
  open-sleep = λ t ms os. refl;
  open-connect = λ t s port os. refl;
  open-set_timeout = λ t s ms os. refl;
  open-ioctl = λ t s mode os. refl;
  open-setsockopt = λ t s option value os. refl;
  open-bind = λ t s addr port os. refl;
  open-listen = λ t s os. refl;
  open-select = λ t sockets os. refl;
  open-wsa_startup = λ t os. refl;
  open-start_running = λ t os. refl;
  open-wsa_cleanup = λ t os e. e;
  open-closesocket = λ t s os. refl;
  open-socket = λ t os. new_socket-open t (is_free os) os;
  open-socket_failed = λ t os. new_socket-failed t (is_free os) os λ e. (is_free_lem os e).1;
  fresh-socket = λ os. new_socket-fresh (is_free os) os λ e. (is_free_lem os e).0;
  open-accept = λ t s new ip port os. new_connection-open t new ip port (is_free os) os;
  fresh-accept =
      λ s new ip port os. new_connection-fresh new ip port (is_free os) os (is_free_lem os);
  open-accept_error = λ t s e os. new_connection-failed t e (is_free os) os;
}

http_post_json-IsQuiet_example :
    Clean ⊥
      (λ (r : Option (List ℕ)) (after : Peers).
        (t : Socket) → after.opened t ≡ (from_three []).opened t)
      (http_post_json script 9 (codes "/log") (codes "{}") 1024 (from_three []))
http_post_json-IsQuiet_example =
    http_post_json-IsQuiet open_sockets 9 (codes "/log") (codes "{}") 1024 (from_three [])
      (omega arith) (omega arith)

handle_message-IsQuiet_example :
    Clean
      (MissesPayload toy (codes "{\"type\":\"location\"}"))
      (λ (c : ClientInfo) (after : Peers). (t : Socket) → after.opened t ≡ (from_three []).opened t)
      (handle_message toy script 20 guest (codes "{\"type\":\"location\"}") (from_three []))
handle_message-IsQuiet_example =
    handle_message-IsQuiet toy open_sockets 20 guest (codes "{\"type\":\"location\"}")
      (from_three [])

-- The listening socket is the one that is open.
abbrev pub listening : Peers
listening = record (from_three []) { opened = λ t. t == new_server.sock }

pub new_server-Accounted : Accounted open_sockets new_server listening
unfolding empty_slots
new_server-Accounted t ne = omega (arith, holders-empty t 30 ne)

server_iteration-Accounted_example :
    Keeps
      (λ (s : Server) (after : Peers). Accounted open_sockets s after)
      (server_iteration toy script 20 zero_stack new_server listening)
server_iteration-Accounted_example =
    server_iteration-Accounted toy open_sockets 20 zero_stack new_server listening
      new_server-Accounted

abbrev interrupted_later : Peers
interrupted_later = record (from_three []) { stopped = true }

main-IsDown_example :
    Keeps
      (λ r s. OrExit (IsDown open_sockets) r s)
      (main toy script 20 zero_stack 3 interrupted_later)
main-IsDown_example = main-IsDown toy open_sockets 20 zero_stack 3 interrupted_later λ t ne. refl

-- The slot of a client that has left, between two that are taken.
place_client-Places_example :
    Places 9
      (guest ∷ fresh_slot invalid_socket ∷ guest ∷ [])
      (place_client 9 (guest ∷ fresh_slot invalid_socket ∷ guest ∷ []))
place_client-Places_example = place_client-Places 9 (guest ∷ fresh_slot invalid_socket ∷ guest ∷ [])

script_settings : HasSettings script
script_settings = record {
  settings = λ s os. os.settings s;
  set-settings =
      λ s option value os set. update_self os.settings s (os.settings s ++ ((option, value) ∷ []));
}

set_socket_options-Sets_example :
    (tuned : Bool) × Chooses script.profile tuned
    × Ensures
        (Sets script_settings 5 (profile_settings tuned) (from_three []))
        (set_socket_options script 5 (from_three []))
set_socket_options-Sets_example = set_socket_options-Sets script_settings 5 (from_three [])
