-- ===== src/Server.antt =====
-- FISAC1/src/server.c and FISAC1/src/main.c: the event loop.
pub mod Slots
pub mod Broadcast
pub mod Table
pub mod Invariant
pub mod Reachable
pub mod Placing
use npacn_fisac.Base.{ℕ, zero, suc, ◌+◌, Bool, true, false, not, ◌&&◌, ◌==◌, if◌then◌else◌}
use npacn_fisac.Base.{Option, none, some, List, [], ◌∷◌, ◌++◌, length, map, get_elem?, set}
use npacn_fisac.Base.{M, return, stuck, call, perform, ◌>>=◌, ◌>>◌}
use npacn_fisac.Base.CText.{codes, c_str, strcmp_eq, fit, decimal}
use npacn_fisac.Winsock.{Socket, invalid_socket, Winsock, AcceptResult, accepted, accept_error}
use npacn_fisac.Winsock.{SelectResult, ready, timeout, select_error, ErrorCode, interrupted}
use npacn_fisac.Websocket.{
  Frame, disconnected, ignored, text, websocket_frame_recv, websocket_frame_send,
}
use npacn_fisac.Handshake.{Stack, websocket_handshake}
use npacn_fisac.Json.{Json}
use npacn_fisac.Client.{ClientInfo, Server, fresh_slot}
use npacn_fisac.Backend.{string_of}
use npacn_fisac.Protocol.{handle_message, log_event}
use npacn_fisac.Setup.{
  winsock_init, winsock_cleanup, create_socket, set_socket_options, bind_socket, listen_on_socket,
  set_non_blocking,
}
use npacn_fisac.Server.Slots.{empty_slots, place_client, active_sockets, is_set, is_receiver}
use npacn_fisac.Server.Slots.{put_slot, close_slot, signal_handler}

module _ (net : Winsock) (fuel : ℕ) where
  open net use {Os}

  unfoldable pub broadcast_loop : List ClientInfo → List ℕ → Socket → M Os (Unit {0})
  broadcast_loop [] message sender_sock = return tt
  broadcast_loop (client ∷ clients) message sender_sock =
      let rest = broadcast_loop clients message sender_sock in
      if is_receiver sender_sock client
      then (websocket_frame_send net fuel client.sock message (length message) 1 >> rest)
      else rest

  unfoldable pub server_broadcast : Server → List ℕ → Socket → M Os (Unit {0})
  server_broadcast server message sender_sock =
      broadcast_loop server.clients (c_str message) sender_sock

-- The backend's and cJSON's part, the operating system, and the bound on the loops that the peer could
-- keep going.
module _ (json : Json) (net : Winsock) (fuel : ℕ) where
  open json use {parse, get_object_item}
  open net use {Os, closesocket}

  -- Whether a message asks to be broadcast: a JSON object of type "location".
  unfoldable pub is_location : List ℕ → Bool
  is_location buffer = elim (parse (c_str buffer)) [
    | none ↦ false
    | some item ↦ elim (string_of json (get_object_item item (codes "type"))) [
      | none ↦ false
      | some type ↦ strcmp_eq type (codes "location")
    ]
  ]

  -- The message of a client that was handled, with the slot as the handler left it.
  unfoldable pub after_message : Server → ℕ → Socket → List ℕ → ClientInfo → M Os Server
  after_message server i sd buffer client =
      let server' = put_slot server i client in
      let forward = do server_broadcast net fuel server' buffer sd; return server'
      in if is_location buffer && client.authenticated then forward else return server'

  abbrev pub farewell : ClientInfo → List ℕ
  farewell client =
      if client.authenticated
      then fit 256 (codes "User disconnected: " ++ client.username)
      else codes "Unauthenticated client disconnected"

  -- One frame of the client in slot `i`.
  unfoldable pub after_frame : Server → ℕ → ClientInfo → Frame → M Os Server
  after_frame server i client (text buffer) =
      handle_message json net fuel client buffer >>= after_message server i client.sock buffer
  after_frame server i client ignored = return server
  after_frame server i client disconnected = do
    log_event json net fuel (codes "INFO") (farewell client)
    perform (closesocket client.sock)
    return (put_slot server i (fresh_slot invalid_socket))

  unfoldable pub serve_client : List Socket → Server → ℕ → ClientInfo → M Os Server
  serve_client readfds server i client =
      if client.sock == invalid_socket
      then return server
      else if is_set client.sock readfds
      then (websocket_frame_recv net fuel client.sock 4096 >>= after_frame server i client)
      else return server

  -- The body of the loop over the slots, and the loop from slot `i` on.
  unfoldable pub serve_slot : List Socket → ℕ → Server → M Os Server
  serve_slot readfds i server = elim (get_elem? server.clients i) [
    | none ↦ return server
    | some client ↦ serve_client readfds server i client
  ]

  unfoldable pub serve_slots : List Socket → ℕ → ℕ → Server → M Os Server
  serve_slots readfds zero i server = return server
  serve_slots readfds (suc n) i server =
      serve_slot readfds i server >>= serve_slots readfds n (suc i)

-- Also what the handshake finds on its stack.
module _ (json : Json) (net : Winsock) (fuel : ℕ) (stack : Stack) where
  open net use {
    Os, sleep, accept, select, closesocket, ioctl_nonblocking, interrupted_by_user, start_running,
  }

  -- A connection with its handshake done is given a slot, or closed if there is none.
  unfoldable pub after_handshake : Server → Socket → Bool → M Os Server
  after_handshake server new_socket true = do
    log_event json net fuel (codes "INFO") (codes "WebSocket handshake successful")
    elim (place_client new_socket server.clients) [
      | none ↦ do
        log_event json net fuel (codes "WARN") (codes "Max clients reached, connection rejected")
        perform (closesocket new_socket)
        return server
      | some clients ↦ return (record server { clients = clients })
    ]
  after_handshake server new_socket false = do
    log_event json net fuel (codes "WARN") (codes "WebSocket handshake failed")
    perform (closesocket new_socket)
    return server

  unfoldable pub after_accept : Server → AcceptResult → M Os Server
  after_accept server (accept_error e) = return server
  after_accept server (accepted new_socket client_ip client_port) = do
    blocking ← call (ioctl_nonblocking new_socket 0)
    log_event json net fuel (codes "INFO") (
        fit 256 (codes "New connection from " ++ (client_ip ++ (codes ":" ++ decimal client_port))))
    opened ← websocket_handshake net stack fuel new_socket
    after_handshake server new_socket opened

  unfoldable pub accept_client : List Socket → Server → M Os Server
  accept_client readfds server =
      if is_set server.sock readfds
      then (call (accept server.sock) >>= after_accept server)
      else return server

  unfoldable pub after_select : Server → SelectResult → M Os Server
  after_select server (select_error interrupted) = return server
  after_select server (select_error e) =
      log_event json net fuel (codes "ERROR") (codes "select() error") >> return server
  after_select server timeout = return server
  after_select server (ready readfds) =
      accept_client readfds server >>= serve_slots json net fuel readfds 30 0

  -- One round of the main loop.
  unfoldable pub server_iteration : Server → M Os Server
  server_iteration server =
      call (select (server.sock ∷ active_sockets server.clients)) >>= after_select server

  -- The rounds of the main loop; the signal is looked at before each of them.
  unfoldable pub server_loop : ℕ → Server → M Os Server
  server_loop zero server os = stuck
  server_loop (suc rounds) server os =
      let next = (server_iteration server >>= server_loop rounds) os in
      if interrupted_by_user os
      then return (signal_handler server) os
      else if server.running
      then next
      else return server os

  unfoldable pub close_clients : List ClientInfo → M Os (Unit {0})
  close_clients [] = return tt
  close_clients (client ∷ clients) =
      if client.sock == invalid_socket
      then close_clients clients
      else (perform (closesocket client.sock) >> close_clients clients)

  unfoldable pub server_shutdown : Server → M Os Server
  server_shutdown server = do
    close_clients server.clients
    perform (closesocket server.sock)
    log_event json net fuel (codes "INFO") (codes "Server shut down")
    return (record server { clients = map close_slot server.clients })

  -- `none` where the process was ended.
  unfoldable pub run_listening : ℕ → Server → Option (Unit {0}) → M Os (Option Server)
  run_listening rounds server none = return none
  run_listening rounds server (some u) = do
    log_event json net fuel (codes "INFO") (codes "Server started on port 8080")
    server' ← server_loop rounds server
    server'' ← server_shutdown server'
    return (some server'')

  unfoldable pub server_run : ℕ → Server → M Os (Option Server)
  server_run rounds server = listen_on_socket net server.sock >>= run_listening rounds server

  -- Go on with the next step, unless one has ended the process.
  unfoldable pub proceed : M Os (Option Server) → Option (Unit {0}) → M Os (Option Server)
  proceed next none = return none
  proceed next (some u) = next

  -- The four steps that set up the listening socket, each of which may end the process.
  unfoldable pub init_with : List ℕ → ℕ → Option Socket → M Os (Option Server)
  init_with ip port none = return none
  init_with ip port (some sock) =
      set_socket_options net sock
      >>= proceed (
          bind_socket net sock ip port
          >>= proceed (
              set_non_blocking net sock
              >>= proceed (
                  perform start_running
                  >> return
                      (some (record { sock = sock; running = true; clients = empty_slots })))))

  unfoldable pub server_init : List ℕ → ℕ → M Os (Option Server)
  server_init ip port = create_socket net >>= init_with ip port

  unfoldable pub run_if : ℕ → Option Server → M Os (Option Server)
  run_if rounds none = return none
  run_if rounds (some server) = server_run rounds server

  unfoldable pub after_run : Option Server → M Os (Option Server)
  after_run none = return none
  after_run (some server) = do winsock_cleanup net; return (some server)

  unfoldable pub after_winsock_init : ℕ → Bool → M Os (Option Server)
  after_winsock_init rounds false = return none
  after_winsock_init rounds true = do
    perform (sleep 2000)
    server ← server_init (codes "0.0.0.0") 8080
    ended ← run_if rounds server
    after_run ended

  -- `none` also where `main` returns 1.
  unfoldable pub main : ℕ → M Os (Option Server)
  main rounds = winsock_init net >>= after_winsock_init rounds
