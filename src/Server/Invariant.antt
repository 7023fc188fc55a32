-- ===== src/Server/Invariant.antt =====
-- The table of clients keeps its form in every round of the main loop.
use npacn_fisac.Base.{ℕ, zero, suc, ◌≡◌, ◌≢◌, arith, refl, ◌∙◌, Bool, true, false, ◌==◌}
use npacn_fisac.Base.{Option, none, some, Option-cases, inl, inr, if◌then◌else◌, ◌&&◌}
use npacn_fisac.Base.{List, get_elem?, M, call, return, ◌>>=◌, ◌>>◌}
use npacn_fisac.Base.{Outcome, Keeps, kept, Keeps-bind, Keeps-after}
use npacn_fisac.Winsock.{Socket, invalid_socket, Winsock, AcceptResult, accepted, accept_error}
use npacn_fisac.Winsock.{
  SelectResult, ready, timeout, select_error, conn_reset, conn_aborted, would_block, interrupted,
  other,
}
use npacn_fisac.Websocket.{Frame, disconnected, ignored, text, websocket_frame_recv}
use npacn_fisac.Handshake.{Stack, websocket_handshake}
use npacn_fisac.Json.{Json}
use npacn_fisac.Client.{ClientInfo, Server, fresh_slot}
use npacn_fisac.Protocol.{log_event}
use npacn_fisac.Protocol.Access.{IsServed, same, logged_in, handle_message-Serves}
use npacn_fisac.Server.Slots.{put_slot, place_client, is_set}
use npacn_fisac.Server.{after_message, after_frame, serve_client, serve_slot, serve_slots}
use npacn_fisac.Server.{
  after_handshake, after_accept, accept_client, after_select, server_iteration,
}
use npacn_fisac.Server.{server_broadcast, is_location}
use npacn_fisac.Server.Table.{IsSlot, IsServer}
use npacn_fisac.Server.Table.{fresh_slot-IsSlot, logged_in-IsSlot, get-IsSlot, put_slot-IsServer}
use npacn_fisac.Server.Table.{place_client-AreSlots}

module _ (json : Json) (net : Winsock) (fuel : ℕ) where
  abbrev KeepsServer : Outcome net.Os Server → Type 0
  KeepsServer = Keeps (λ (s : Server) (after : net.Os). IsServer s)

  after_message-IsServer :
      (server : Server) (i : ℕ) (sd : Socket) (buffer : List ℕ) (client : ClientInfo) (os : net.Os)
      → IsServer server
      → IsSlot client
      → KeepsServer (after_message json net fuel server i sd buffer client os)
  unfolding after_message
  after_message-IsServer server i sd buffer client os h one =
      pick (is_location json net fuel buffer && client.authenticated)
    where
      server' : Server
      server' = put_slot server i client

      good : IsServer server'
      good = put_slot-IsServer server i client h one

      forward : M net.Os Server
      forward = do server_broadcast net fuel server' buffer sd; return server'

      pick : (b : Bool) → KeepsServer ((if b then forward else return server') os)
      pick true = Keeps-after (server_broadcast net fuel server' buffer sd os) λ u s. kept good
      pick false = kept good

  served-IsSlot :
      (message : List ℕ) (before : net.Os) (client c : ClientInfo)
      → client.sock ≢ invalid_socket
      → IsServed json net fuel message before client c
      → IsSlot client
      → IsSlot c
  served-IsSlot message before client _ connected same one = one
  served-IsSlot message before client _ connected (logged_in username user_id admitted) one =
      logged_in-IsSlot client user_id username connected

  after_frame-IsServer :
      (server : Server) (i : ℕ) (client : ClientInfo) (frame : Frame) (os : net.Os)
      → IsServer server
      → IsSlot client
      → client.sock ≢ invalid_socket
      → KeepsServer (after_frame json net fuel server i client frame os)
  unfolding after_frame
  after_frame-IsServer server i client (text buffer) os h one connected =
      Keeps-bind (λ c after. IsServed json net fuel buffer os client c)
        (handle_message-Serves json net fuel buffer os client)
        λ c s served.
          after_message-IsServer server i client.sock buffer c s h
            (served-IsSlot buffer os client c connected served one)
  after_frame-IsServer server i client ignored os h one connected = kept h
  after_frame-IsServer server i client disconnected os h one connected =
      Keeps-after (log_event json net fuel _ _ os) λ u s. kept (
        put_slot-IsServer server i (fresh_slot invalid_socket) h (fresh_slot-IsSlot invalid_socket))

  serve_client-IsServer :
      (readfds : List Socket) (server : Server) (i : ℕ) (client : ClientInfo) (os : net.Os)
      → IsServer server
      → IsSlot client
      → KeepsServer (serve_client json net fuel readfds server i client os)
  unfolding serve_client
  serve_client-IsServer readfds server i client os h one =
      pick (client.sock == invalid_socket) (is_set client.sock readfds) refl
    where
      run : M net.Os Server
      run =
          websocket_frame_recv net fuel client.sock 4096
          >>= after_frame json net fuel server i client

      pick :
          (a b : Bool)
          → (client.sock == invalid_socket) ≡ a
          → KeepsServer ((if a then return server else if b then run else return server) os)
      pick true b e = kept h
      pick false true e =
          Keeps-after (websocket_frame_recv net fuel client.sock 4096 os)
            λ frame s. after_frame-IsServer server i client frame s h one λ q. ground (arith, q, e)
      pick false false e = kept h

  serve_slots-IsServer :
      (readfds : List Socket) (n i : ℕ) (server : Server) (os : net.Os)
      → IsServer server
      → KeepsServer (serve_slots json net fuel readfds n i server os)
  unfolding serve_slots serve_slot
  serve_slots-IsServer readfds zero i server os h = kept h
  serve_slots-IsServer readfds (suc n) i server os h =
      Keeps-bind (λ s after. IsServer s) (slot (get_elem? server.clients i) refl)
        λ server' s good. serve_slots-IsServer readfds n (suc i) server' s good
    where
      slot :
          (o : Option ClientInfo)
          → get_elem? server.clients i ≡ o
          → KeepsServer (serve_slot json net fuel readfds i server os)
      slot none e = rw (serve_slot, e) (kept h)
      slot (some client) e =
          rw (serve_slot, e)
            (serve_client-IsServer readfds server i client os h
              (get-IsSlot server.clients i client h.1 e))

module _ (json : Json) (net : Winsock) (fuel : ℕ) (stack : Stack) where
  abbrev Good : Outcome net.Os Server → Type 0
  Good = Keeps (λ (s : Server) (after : net.Os). IsServer s)

  after_handshake-IsServer :
      (server : Server) (new_socket : Socket) (opened : Bool) (os : net.Os)
      → IsServer server
      → Good (after_handshake json net fuel stack server new_socket opened os)
  unfolding after_handshake
  after_handshake-IsServer server new_socket false os h =
      Keeps-after (log_event json net fuel _ _ os) λ u s. kept h
  after_handshake-IsServer server new_socket true os h =
      Keeps-after (log_event json net fuel _ _ os) λ u s.
        elim (Option-cases (place_client new_socket server.clients)) [
          | inl full ↦ rw full (Keeps-after (log_event json net fuel _ _ s) λ v s'. kept h)
          | inr (clients, placed) ↦
              let good = place_client-AreSlots new_socket server.clients clients placed h.1 in
              rw placed (kept (good.0 ∙ h.0, good.1))
        ]

  accept_client-IsServer :
      (readfds : List Socket) (server : Server) (os : net.Os)
      → IsServer server
      → Good (accept_client json net fuel stack readfds server os)
  unfolding accept_client after_accept
  accept_client-IsServer readfds server os h = pick (is_set server.sock readfds)
    where
      got : (r : AcceptResult) (s : net.Os) → Good (after_accept json net fuel stack server r s)
      got (accept_error e) s = kept h
      got (accepted new_socket client_ip client_port) s =
          Keeps-after (log_event json net fuel _ _ _) λ u s1.
            Keeps-after (websocket_handshake net stack fuel new_socket s1)
              λ opened s2. after_handshake-IsServer server new_socket opened s2 h

      run : M net.Os Server
      run = call (net.accept server.sock) >>= after_accept json net fuel stack server

      pick : (b : Bool) → Good ((if b then run else return server) os)
      pick true = got (net.accept server.sock os).0 (net.accept server.sock os).1
      pick false = kept h

  after_select-IsServer :
      (server : Server) (r : SelectResult) (os : net.Os)
      → IsServer server
      → Good (after_select json net fuel stack server r os)
  unfolding after_select
  after_select-IsServer server timeout os h = kept h
  after_select-IsServer server (ready readfds) os h =
      Keeps-bind (λ s after. IsServer s) (accept_client-IsServer readfds server os h)
        λ server' s good. serve_slots-IsServer json net fuel readfds 30 0 server' s good
  after_select-IsServer server (select_error interrupted) os h = kept h
  after_select-IsServer server (select_error conn_reset) os h =
      Keeps-after (log_event json net fuel _ _ os) λ u s. kept h
  after_select-IsServer server (select_error conn_aborted) os h =
      Keeps-after (log_event json net fuel _ _ os) λ u s. kept h
  after_select-IsServer server (select_error would_block) os h =
      Keeps-after (log_event json net fuel _ _ os) λ u s. kept h
  after_select-IsServer server (select_error (other n)) os h =
      Keeps-after (log_event json net fuel _ _ os) λ u s. kept h

  -- A round of the main loop keeps the 30 slots, and in each of them a name that fits its array, no name
  -- and no id for a client that is not logged in, and no login without a connection.
  pub server_iteration-IsServer :
      (server : Server) (os : net.Os)
      → IsServer server
      → Keeps
          (λ (s : Server) (after : net.Os). IsServer s)
          (server_iteration json net fuel stack server os)
  unfolding server_iteration
  server_iteration-IsServer server os h = after_select-IsServer server _ _ h
