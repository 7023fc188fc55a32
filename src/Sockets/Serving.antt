-- ===== src/Sockets/Serving.antt =====
-- A client that is served: the sockets that its frame and its message open and close.
use npacn_fisac.Base.{ℕ, zero, suc, ◌≡◌, ◌⊎◌, inl, inr, refl, arith, ap, ◌==◌, ◌&&◌}
use npacn_fisac.Base.{
  Bool, true, false, none, some, Option-cases, List, [], ◌∷◌, get_elem?, if◌then◌else◌,
}
use npacn_fisac.Base.{M, Outcome, return, ◌>>=◌, ◌>>◌, Keeps, kept, Keeps-bind, Keeps-both}
use npacn_fisac.Base.CText.{c_str}
use npacn_fisac.Winsock.{Socket, invalid_socket, Winsock}
use npacn_fisac.Websocket.{Frame, disconnected, ignored, text, websocket_frame_recv}
use npacn_fisac.Json.{Json}
use npacn_fisac.Client.{ClientInfo, Server, fresh_slot}
use npacn_fisac.Protocol.{log_event, handle_message}
use npacn_fisac.Protocol.Access.{IsServed, same, logged_in, handle_message-Serves}
use npacn_fisac.Server.{
  broadcast_loop, server_broadcast, is_location, after_message, after_frame, serve_client,
  serve_slot, serve_slots,
}
use npacn_fisac.Server.Slots.{put_slot, is_set, is_receiver}
use npacn_fisac.Sockets.{HasSockets, Quiet}
use npacn_fisac.Sockets.Frames.{websocket_frame_send-Still, websocket_frame_recv-Still}
use npacn_fisac.Protocol.Requests.{log_event-Keep}
use npacn_fisac.Protocol.Handlers.{handle_message-Keep}
use npacn_fisac.Sockets.Handlers.{Same-AreKept}
use npacn_fisac.Sockets.Tally.{bit, bit_ne, owners, holders-set, Tally, Tally-mono, Accounted}
use npacn_fisac.Sockets.Tally.{Quiet-Tally, closesocket-Tally}
use npacn_fisac.Base.{return-Keep, then-Keep, if-Keep}
use npacn_fisac.Sockets.{Same}

module _ (json : Json) {net : Winsock} (sockets : HasSockets net) (fuel : ℕ) where
  abbrev Accounts : Outcome net.Os Server → Type 0
  Accounts = Keeps (λ (s : Server) (after : net.Os). Accounted sockets s after)

  pub after_log :
      {A : Type 0} {P : A → net.Os → Type 0} (count : Socket → ℕ) (level message : List ℕ)
      (k : M net.Os A) (os : net.Os)
      → Tally sockets count os
      → ((after : net.Os) → Tally sockets count after → Keeps P (k after))
      → Keeps P ((log_event json net fuel level message >> k) os)
  after_log count level message k os h go =
      Keeps-bind (λ u after. Tally sockets count after)
        (Quiet-Tally sockets count _ os
          (log_event-Keep json (Same-AreKept sockets (Unit {0}) os fuel) level message) h)
        λ u after. go after

  broadcast_loop-Quiet :
      (before : net.Os) (clients : List ClientInfo) (message : List ℕ) (sender : Socket)
      → Quiet sockets (Unit {0}) before (broadcast_loop net fuel clients message sender)
  unfolding broadcast_loop
  broadcast_loop-Quiet before [] message sender =
      return-Keep (Unit {0}) (Unit {0}) (Same sockets (Unit {0}) before) tt
  broadcast_loop-Quiet before (c ∷ clients) message sender =
      let rest = broadcast_loop-Quiet before clients message sender in
      if-Keep (Unit {0}) (Unit {0}) (Same sockets (Unit {0}) before) (is_receiver sender c) _ _
        (then-Keep (Unit {0}) (Unit {0}) (Same sockets (Unit {0}) before) _ _
          (websocket_frame_send-Still sockets (Unit {0}) before fuel c.sock message _ 1) rest)
        rest

  after_message-Accounted :
      (server : Server) (i : ℕ) (sd : Socket) (buffer : List ℕ) (client : ClientInfo) (os : net.Os)
      → Accounted sockets (put_slot server i client) os
      → Accounts (after_message json net fuel server i sd buffer client os)
  unfolding after_message server_broadcast
  after_message-Accounted server i sd buffer client os h =
      pick (is_location json net fuel buffer && client.authenticated)
    where
      server' : Server
      server' = put_slot server i client

      forward : M net.Os Server
      forward = do server_broadcast net fuel server' buffer sd; return server'

      pick : (b : Bool) → Accounts ((if b then forward else return server') os)
      pick true =
          Keeps-bind (λ u after. Accounted sockets server' after)
            (Quiet-Tally sockets (owners server') _ os
              (broadcast_loop-Quiet os server'.clients (c_str buffer) sd) h)
            λ u after good. kept good
      pick false = kept h

  -- A slot that changes and keeps its socket.
  put_slot-Accounted :
      (server : Server) (i : ℕ) (client c : ClientInfo) (os : net.Os)
      → get_elem? server.clients i ≡ some client
      → c.sock ≡ client.sock
      → Accounted sockets server os
      → Accounted sockets (put_slot server i c) os
  unfolding put_slot
  put_slot-Accounted server i client c os e same_sock h =
      Tally-mono sockets (owners server) _ os h λ t ne. omega (
        arith,
        holders-set t server.clients i client c e,
        ap (λ (s : Socket). bit (t == s)) same_sock,
      )

  served-sock :
      (message : List ℕ) (before : net.Os) (client c : ClientInfo)
      → IsServed json net fuel message before client c
      → c.sock ≡ client.sock
  served-sock message before client _ same = refl
  served-sock message before client _ (logged_in username user_id admitted) = refl

  after_frame-Accounted :
      (server : Server) (i : ℕ) (client : ClientInfo) (frame : Frame) (os : net.Os)
      → get_elem? server.clients i ≡ some client
      → Accounted sockets server os
      → Accounts (after_frame json net fuel server i client frame os)
  unfolding after_frame put_slot
  after_frame-Accounted server i client (text buffer) os e h =
      Keeps-bind
        (λ c after. IsServed json net fuel buffer os client c × Accounted sockets server after)
        (Keeps-both (handle_message-Serves json net fuel buffer os client)
          (Quiet-Tally sockets (owners server) _ os quiet h))
        λ c after served. after_message-Accounted server i client.sock buffer c after (
          put_slot-Accounted server i client c after e (served-sock buffer os client c served.0)
            served.1)
    where
      quiet : Quiet sockets (Unit {0}) os (handle_message json net fuel client buffer)
      quiet =
          handle_message-Keep json (Same-AreKept sockets (Unit {0}) os fuel) client buffer
            λ missing. tt
  after_frame-Accounted server i client ignored os e h = kept h
  after_frame-Accounted server i client disconnected os e h =
      after_log (owners server) _ _ _ os h λ after h'. kept (
        closesocket-Tally sockets _ client.sock after (
          Tally-mono sockets (owners server) _ after h' λ t ne. omega (
            arith,
            bit_ne t invalid_socket ne,
            holders-set t server.clients i client (fresh_slot invalid_socket) e,
          )))

  serve_client-Accounted :
      (readfds : List Socket) (server : Server) (i : ℕ) (client : ClientInfo) (os : net.Os)
      → get_elem? server.clients i ≡ some client
      → Accounted sockets server os
      → Accounts (serve_client json net fuel readfds server i client os)
  unfolding serve_client
  serve_client-Accounted readfds server i client os e h =
      pick (client.sock == invalid_socket) (is_set client.sock readfds)
    where
      run : M net.Os Server
      run =
          websocket_frame_recv net fuel client.sock 4096
          >>= after_frame json net fuel server i client

      pick :
          (a b : Bool)
          → Accounts ((if a then return server else if b then run else return server) os)
      pick true b = kept h
      pick false true =
          Keeps-bind (λ frame after. Accounted sockets server after)
            (Quiet-Tally sockets (owners server) _ os
              (websocket_frame_recv-Still sockets (Unit {0}) os fuel client.sock 4096) h)
            λ frame after. after_frame-Accounted server i client frame after e
      pick false false = kept h

  pub serve_slots-Accounted :
      (readfds : List Socket) (n i : ℕ) (server : Server) (os : net.Os)
      → Accounted sockets server os
      → Accounts (serve_slots json net fuel readfds n i server os)
  unfolding serve_slots serve_slot
  serve_slots-Accounted readfds zero i server os h = kept h
  serve_slots-Accounted readfds (suc n) i server os h =
      Keeps-bind (λ s after. Accounted sockets s after)
        (slot (Option-cases (get_elem? server.clients i)))
        λ server' after. serve_slots-Accounted readfds n (suc i) server' after
    where
      slot :
          (get_elem? server.clients i ≡ none)
            ⊎ ((c : ClientInfo) × (get_elem? server.clients i ≡ some c))
          → Accounts (serve_slot json net fuel readfds i server os)
      slot (inl e) = rw (serve_slot, e) (kept h)
      slot (inr (client, e)) =
          rw (serve_slot, e) (serve_client-Accounted readfds server i client os e h)
