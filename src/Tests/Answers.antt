-- ===== src/Tests/Answers.antt =====
-- What the server says and asks, on the test network.
use npacn_fisac.Base.{◌≡◌, ◌≢◌, refl, arith, Bool, true, false, ◌==◌, if◌then◌else◌, some}
use npacn_fisac.Base.{[], ◌∷◌, ◌++◌, Ensures}
use npacn_fisac.Base.CText.{codes, c_str, strcmp_eq, IsBytes}
use npacn_fisac.Winsock.{Socket, invalid_socket}
use npacn_fisac.Websocket.Rfc.{client_frame, server_frame}
use npacn_fisac.Json.{same_kind}
use npacn_fisac.HttpClient.{http_post_json}
use npacn_fisac.Client.{ClientInfo, Server}
use npacn_fisac.Protocol.{handle_message}
use npacn_fisac.Server.{serve_client}
use npacn_fisac.Server.Slots.{is_set}
use npacn_fisac.Server.Broadcast.{frames_for}
use npacn_fisac.Exchange.{IsApart, IsAccepting}
use npacn_fisac.Exchange.Post.{Exchanges, http_post_json-Exchanges}
use npacn_fisac.Backend.{authentication_required}
use npacn_fisac.Answers.{Told}
use npacn_fisac.Answers.Refusal.{handle_message-Refused}
use npacn_fisac.Protocol.Credentials.{auth}
use npacn_fisac.Answers.Login.{Replies, handle_message-Replies}
use npacn_fisac.Answers.Forwarding.{IsLocation, serve_client-Forwards}
use npacn_fisac.Tests.Script.{script, script_tcp, script_drains, script_delivers, script_unbroken}
use npacn_fisac.Tests.Script.{Peers, is_free, new_socket, update_self, update_ne, from_three}
use npacn_fisac.Tests.Sockets.{open_sockets}
use npacn_fisac.Tests.Toy.{
  full, account, bare, toy, guest, member, new_server, auth_text, location_text,
}

pub new_socket-empty :
    (b : Bool) (os : Peers)
    → (new_socket b os).0 ≢ invalid_socket
    → (new_socket b os).1.outbox (new_socket b os).0 ≡ []
new_socket-empty true os valid = update_self os.outbox os.next []
new_socket-empty false os valid = absurd (valid refl)

pub new_socket-wire :
    (t : Socket) (b : Bool) (os : Peers)
    → t ≢ (new_socket b os).0
    → (new_socket b os).1.outbox t ≡ os.outbox t
new_socket-wire t true os ne = update_ne os.outbox os.next t [] ne
new_socket-wire t false os ne = refl

pub new_socket-inbox :
    (t : Socket) (b : Bool) (os : Peers) → (new_socket b os).1.inbox t ≡ os.inbox t
new_socket-inbox t true os = refl
new_socket-inbox t false os = refl

abbrev pub script_apart : IsApart script_tcp script_drains
script_apart = record {
  wire-new_socket = λ os. new_socket-empty (is_free os) os;
  wire-socket = λ t os. new_socket-wire t (is_free os) os;
  incoming-socket = λ t os ne. new_socket-inbox t (is_free os) os;
  wire-connect = λ t s port os. refl;
  incoming-connect_ne = λ t s port os ne. refl;
  wire-set_timeout = λ t s ms os. refl;
  incoming-set_timeout = λ t s ms os. refl;
  wire-closesocket = λ t s os. refl;
  incoming-closesocket_ne = λ t s os ne. refl;
  patience-socket = λ os. omega arith;
  patience-connect = λ s port os. omega arith;
  patience-set_timeout = λ s ms os. omega arith;
  patience-closesocket = λ s os. omega arith;
}

abbrev pub script_accepts : IsAccepting script_tcp script_drains
script_accepts = record {
  patience-select = λ sockets os. omega arith;
  patience-accept = λ s os. omega arith;
  patience-ioctl = λ s mode os. omega arith;
  wire-ioctl = λ t s mode os. refl;
  incoming-ioctl = λ t s mode os. refl;
}

-- The backend is on the connection that is opened next, and says yes.
abbrev pub granting : Peers
granting = record (from_three []) {
  inbox =
      λ s. if s == 5 then codes "HTTP/1.1 200 OK\r\n\r\n{\"success\":true,\"user_id\":7}" else [];
  opened = λ s. s == 3;
}

http_post_json-Exchanges_example :
    Ensures
      (Exchanges script_apart open_sockets (codes "/log") (codes "{}") 1024 granting)
      (http_post_json script 9000 (codes "/log") (codes "{}") 1024 granting)
http_post_json-Exchanges_example =
    http_post_json-Exchanges script_apart open_sockets 9000 (codes "/log") (codes "{}") 1024
      granting (omega arith) (omega arith) (omega arith)

handle_message-Replies_example :
    Ensures
      (Replies toy script_apart open_sockets 9000 guest
        (λ e. omega (arith, e))
        (script_unbroken 3)
        auth
        granting
        (some (codes "ann"))
        (some (codes "secret")))
      (handle_message toy script 9000 guest auth_text granting)
unfolding c_str strcmp_eq same_kind
handle_message-Replies_example =
    handle_message-Replies toy script_apart open_sockets 9000 guest (λ e. omega (arith, e))
      (script_unbroken 3) auth auth_text
      (full (codes "auth") (account (codes "ann") (codes "secret")))
      (account (codes "ann") (codes "secret")) granting refl refl refl refl (omega arith)

-- Two logged-in clients, and a location from the second.
abbrev pub bob : ClientInfo
bob = record guest { authenticated = true }

abbrev pub bob_and_ann : Server
bob_and_ann = record new_server { clients = bob ∷ member ∷ [] }

abbrev pub on_the_move : Peers
on_the_move = record (from_three []) {
  inbox = λ s. if s == 4 then client_frame 1 1 2 3 4 location_text ++ [] else [];
  opened = λ s. if s == 3 then true else s == 4;
}

located : IsLocation toy location_text
unfolding c_str strcmp_eq same_kind
located = record {
  item = full (codes "location") (bare []);
  payload = bare [];
  parsed = refl;
  typed = refl;
  there = refl;
}

location_text-IsBytes : IsBytes location_text
location_text-IsBytes = search arith

serve_client-Forwards_example :
    Ensures
      (λ (server' : Server) (after : Peers).
        (server' ≡ bob_and_ann)
        × (after.inbox 4 ≡ [])
        × (after.outbox 3
            ≡ frames_for 4 bob_and_ann.clients (server_frame 1 (c_str location_text)) 3))
      (serve_client toy script 9000 (4 ∷ []) bob_and_ann 1 member on_the_move)
unfolding is_set
serve_client-Forwards_example =
    serve_client-Forwards toy script_apart open_sockets script_delivers 9000 (4 ∷ []) bob_and_ann 1
      member 1 2 3 4 location_text [] 3 on_the_move located refl refl (λ e. omega (arith, e)) refl
      refl (search arith) location_text-IsBytes (omega arith) (omega arith) refl
      (λ e. omega (arith, e)) refl (script_unbroken 3) (omega arith)

handle_message-Refused_example :
    Ensures
      (λ (c : ClientInfo) (after : Peers).
        (c ≡ guest)
        × Told script_apart open_sockets 3 (server_frame 1 authentication_required) granting after)
      (handle_message toy script 9000 guest location_text granting)
unfolding c_str strcmp_eq same_kind
handle_message-Refused_example =
    handle_message-Refused toy script_apart open_sockets 9000 guest (λ e. omega (arith, e))
      (script_unbroken 3) location_text (full (codes "location") (bare [])) (codes "location")
      granting refl refl refl refl refl refl (omega arith)
