-- ===== src/Server/Slots.antt =====
-- FISAC1/src/server.c: the table of clients.
use npacn_fisac.Base.{ℕ, Bool, true, false, not, ◌&&◌, ◌==◌, if◌then◌else◌}
use npacn_fisac.Base.{Option, none, some, List, [], ◌∷◌, replicate, set}
use mathlib.Core.Option
use npacn_fisac.Winsock.{Socket, invalid_socket}
use npacn_fisac.Client.{ClientInfo, Server, max_clients, fresh_slot}

unfoldable pub empty_slots : List ClientInfo
empty_slots = replicate max_clients (fresh_slot invalid_socket)

-- A new client takes the first empty slot; `none` when there is none.
unfoldable pub place_client : Socket → List ClientInfo → Option (List ClientInfo)
place_client new_socket [] = none
place_client new_socket (client ∷ clients) =
    let rest =
      Option.map (λ (cs : List ClientInfo). client ∷ cs) (place_client new_socket clients) in
    if client.sock == invalid_socket then some (fresh_slot new_socket ∷ clients) else rest

-- The sockets that `select` watches for the clients.
unfoldable pub active_sockets : List ClientInfo → List Socket
active_sockets [] = []
active_sockets (client ∷ clients) =
    let rest = active_sockets clients in
    if client.sock == invalid_socket then rest else client.sock ∷ rest

-- `FD_ISSET(sock, &set)`
unfoldable pub is_set : Socket → List Socket → Bool
is_set sock [] = false
is_set sock (s ∷ ready_set) = if sock == s then true else is_set sock ready_set

-- Whether a broadcast goes to this client.
unfoldable pub is_receiver : Socket → ClientInfo → Bool
is_receiver sender_sock client =
    not (client.sock == invalid_socket)
    && (not (client.sock == sender_sock) && client.authenticated)

-- What `server_shutdown` leaves of the slots.
unfoldable pub close_slot : ClientInfo → ClientInfo
close_slot client = record client { sock = invalid_socket }

-- SIGINT ends the main loop.
unfoldable pub signal_handler : Server → Server
signal_handler server = record server { running = false }

unfoldable pub put_slot : Server → ℕ → ClientInfo → Server
put_slot server i client = record server { clients = set server.clients i client }
