-- ===== src/Tests/Sessions.antt =====
-- Messages, broadcasts and a round of the main loop.
use npacn_fisac.Base.{◌≡◌, refl, arith, [], ◌∷◌, ◌++◌, Ensures, Keeps}
use npacn_fisac.Base.CText.{codes, c_str}
use npacn_fisac.Winsock.{Socket, Winsock, timeout}
use npacn_fisac.Websocket.Rfc.{server_frame}
use npacn_fisac.Client.{Server}
use npacn_fisac.Protocol.{handle_message}
use npacn_fisac.Protocol.Access.{IsServed, handle_message-Serves}
use npacn_fisac.Server.{server_broadcast, server_iteration, after_select}
use npacn_fisac.Server.Slots.{active_sockets}
use npacn_fisac.Server.Broadcast.{frames_for, server_broadcast-Reaches}
use npacn_fisac.Server.Table.{IsServer}
use npacn_fisac.Server.Reachable.{IsReachable, started, after_round, IsReachable-IsServer}
use npacn_fisac.Tests.Script.{script, script_tcp, script_drains, script_unbroken, from_three}
use npacn_fisac.Tests.Answers.{granting}
use npacn_fisac.Tests.Toy.{auth_text, toy, guest, member, zero_stack, new_server}

-- A login, and a backend that admits the user.
handle_message-Serves_example :
    Keeps
      (λ c after. IsServed toy script 9000 auth_text granting guest c)
      (handle_message toy script 9000 guest auth_text granting)
handle_message-Serves_example = handle_message-Serves toy script 9000 auth_text granting guest

abbrev two_clients : Server
two_clients = record new_server { clients = guest ∷ member ∷ [] }

server_broadcast-Reaches_example :
    Ensures
      (λ u after.
        (script_tcp.wire 4 after
          ≡ script_tcp.wire 4 (from_three [])
            ++ frames_for 3 two_clients.clients (server_frame 1 (c_str (codes "hello"))) 4)
        × ((s : Socket) → script_tcp.incoming s after ≡ script_tcp.incoming s (from_three [])))
      (server_broadcast script 20 two_clients (codes "hello") 3 (from_three []))
unfolding c_str
server_broadcast-Reaches_example =
    server_broadcast-Reaches script_tcp script_drains 20 two_clients (codes "hello") 3 4
      (from_three []) (omega arith) (omega arith) (script_unbroken 4)

-- The logged-in client is to receive one frame, and the guest, who sent the message, none.
frames_for-two_clients :
    (frames_for 3 two_clients.clients (codes "x") 4 ≡ codes "x")
    × (frames_for 3 two_clients.clients (codes "x") 3 ≡ [])
unfolding frames_for
frames_for-two_clients = (refl, refl)

-- A network on which nothing happens, and the server after two rounds.
abbrev idle : Winsock
idle = record script { select = λ sockets os. (timeout, os) }

idle-IsReachable : IsReachable toy idle 20 zero_stack new_server
unfolding server_iteration after_select active_sockets
idle-IsReachable =
    after_round (from_three []) (from_three [])
      (after_round (from_three []) (from_three []) (started 2) refl) refl

IsReachable-IsServer_example : IsServer new_server
IsReachable-IsServer_example =
    IsReachable-IsServer toy idle 20 zero_stack new_server idle-IsReachable
