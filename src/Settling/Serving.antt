-- ===== src/Settling/Serving.antt =====
-- A pass of the server over its slots ends.
use native.Mathlib.Nat.{le_trans}
use npacn_fisac.Base.{ℕ, zero, suc, ◌+◌, ◌≤◌, ◌≡◌, if◌then◌else◌, ◌<◌, refl, arith, ◌==◌, ◌&&◌}
use npacn_fisac.Base.{Option, none, some, List, [], ◌∷◌, length, get_elem?}
use npacn_fisac.Base.{M, return, ◌>>=◌, ◌>>◌, return-Keep, bind-Keep, then-Keep, if-Keep}
use npacn_fisac.Base.{Outcome, done, ◌∙◌, ap, Bool, true, false, clean, Ends-bind_eq}
use npacn_fisac.Base.{Ends, Ends-Keeps}
use npacn_fisac.Base.CText.{c_str, length-c_str}
use npacn_fisac.Winsock.{Socket, invalid_socket, Winsock, IsTcp, IsDraining}
use npacn_fisac.Websocket.{Frame, disconnected, ignored, text, websocket_frame_recv}
use npacn_fisac.Websocket.Bounds.{IsWithin, websocket_frame_recv-IsWithin}
use npacn_fisac.Json.{Json}
use npacn_fisac.Client.{ClientInfo, Server}
use npacn_fisac.Protocol.{log_event}
use npacn_fisac.Protocol.Requests.{after_log}
use npacn_fisac.Protocol.Handlers.{MissesPayload, handle_message-Keep}
use npacn_fisac.Server.{
  broadcast_loop, server_broadcast, is_location, after_message, after_frame, serve_client,
  serve_slot, serve_slots,
}
use npacn_fisac.Server.Slots.{is_set, is_receiver, put_slot}
use npacn_fisac.Sockets.{HasSockets}
use npacn_fisac.Exchange.{IsApart}
use npacn_fisac.Settling.{Calm, Settles, websocket_frame_send-Settles, close-Settles, Calm-AreKept}
use npacn_fisac.Settling.Reading.{websocket_frame_recv-Settles}

module _ (json : Json) {net : Winsock} {tcp : IsTcp net} {drains : IsDraining net}
    (apart : IsApart tcp drains) (sockets : HasSockets net) (F G : Type 0) (limit fuel : ℕ)
    (enough : 12300 + limit < fuel) where
  abbrev Fine : {A : Type 0} → M net.Os A → Type 0
  Fine m = Settles apart sockets F G limit fuel enough m

  abbrev I : net.Os → Type 0
  I = Calm drains limit

  pub after_log-Settles :
      {A : Type 0} (level message : List ℕ) (k : M net.Os A)
      → Fine k
      → Fine (log_event json net fuel level message >> k)
  after_log-Settles = after_log json (Calm-AreKept apart sockets F G limit fuel enough)

  broadcast_loop-Settles :
      (clients : List ClientInfo) (message : List ℕ) (sender : Socket)
      → length message ≤ 4095
      → Fine (broadcast_loop net fuel clients message sender)
  unfolding broadcast_loop
  broadcast_loop-Settles [] message sender le = return-Keep F G I tt
  broadcast_loop-Settles (c ∷ clients) message sender le =
      let rest = broadcast_loop-Settles clients message sender le in
      if-Keep F G I (is_receiver sender c) _ _
        (then-Keep F G I _ _
          (websocket_frame_send-Settles apart sockets F G limit fuel enough c.sock message _ 1 refl
            (omega (arith, le)) (omega arith))
          rest)
        rest

  after_message-Settles :
      (server : Server) (i : ℕ) (sd : Socket) (buffer : List ℕ) (client : ClientInfo)
      → length buffer ≤ 4095
      → Fine (after_message json net fuel server i sd buffer client)
  unfolding after_message server_broadcast
  after_message-Settles server i sd buffer client le =
      if-Keep F G I (is_location json net fuel buffer && client.authenticated) _ _
        (then-Keep F G I _ _
          (broadcast_loop-Settles (put_slot server i client).clients (c_str buffer) sd
            (le_trans (length-c_str buffer) le))
          (return-Keep F G I _))
        (return-Keep F G I _)

  after_frame-Settles :
      (server : Server) (i : ℕ) (client : ClientInfo) (frame : Frame)
      → IsWithin 4096 frame
      → ((message : List ℕ) → frame ≡ text message → MissesPayload json message → F)
      → Fine (after_frame json net fuel server i client frame)
  unfolding after_frame
  after_frame-Settles server i client (text buffer) within give =
      bind-Keep F G I _ _
        (handle_message-Keep json (Calm-AreKept apart sockets F G limit fuel enough) client buffer
          (give buffer refl))
        λ c. after_message-Settles server i client.sock buffer c (omega (arith, within))
  after_frame-Settles server i client ignored within give = return-Keep F G I server
  after_frame-Settles server i client disconnected within give = after_log-Settles _ _ _ (
      then-Keep F G I _ _ (close-Settles apart sockets F G limit fuel enough client.sock)
        (return-Keep F G I _))

  serve_client-Settles :
      (readfds : List Socket) (server : Server) (i : ℕ) (client : ClientInfo) (os : net.Os)
      → I os
      → ((message : List ℕ) (after : net.Os)
          → websocket_frame_recv net fuel client.sock 4096 os ≡ done (text message) after
          → MissesPayload json message
          → F)
      → Ends F G (λ s after. I after) (serve_client json net fuel readfds server i client os)
  unfolding serve_client
  serve_client-Settles readfds server i client os h give =
      pick (client.sock == invalid_socket) (is_set client.sock readfds)
    where
      framed : M net.Os Server
      framed =
          websocket_frame_recv net fuel client.sock 4096
          >>= after_frame json net fuel server i client

      ended : net.Os → Frame → Outcome net.Os Frame
      ended after frame = done frame after

      pick :
          (a b : Bool)
          → Ends F G
              (λ s after. I after)
              ((if a then return server else if b then framed else return server) os)
      pick true b = clean h
      pick false false = clean h
      pick false true =
          Ends-bind_eq _
            (Ends-Keeps
              (websocket_frame_recv-Settles apart sockets F G limit fuel enough client.sock os h)
              (websocket_frame_recv-IsWithin tcp fuel client.sock 4096 (omega arith) os))
            λ frame after e p.
              after_frame-Settles server i client frame p.1
                (λ message q. give message after (e ∙ ap (ended after) q)) after p.0

-- The pass from slot `i` on receives a message that is a JSON value without the key `payload`: from the
-- client in this slot, or later in the pass.
pub data ReceivesBad (json : Json) (net : Winsock) (fuel : ℕ) (readfds : List Socket)
    : ℕ → ℕ → Server → net.Os → Type 0 where
  here :
      {n i : ℕ} {server : Server} {os : net.Os} (client : ClientInfo) (message : List ℕ)
      (after : net.Os)
      → get_elem? server.clients i ≡ some client
      → websocket_frame_recv net fuel client.sock 4096 os ≡ done (text message) after
      → MissesPayload json message
      → ReceivesBad json net fuel readfds (suc n) i server os
  later :
      {n i : ℕ} {server : Server} {os : net.Os} (server' : Server) (after : net.Os)
      → serve_slot json net fuel readfds i server os ≡ done server' after
      → ReceivesBad json net fuel readfds n (suc i) server' after
      → ReceivesBad json net fuel readfds (suc n) i server os

module _ (json : Json) {net : Winsock} {tcp : IsTcp net} {drains : IsDraining net}
    (apart : IsApart tcp drains) (sockets : HasSockets net) (F G : Type 0) (limit fuel : ℕ)
    (enough : 12300 + limit < fuel) (readfds : List Socket) where
  abbrev Settled : Outcome net.Os Server → Type 0
  Settled = Ends F G (λ (s : Server) (after : net.Os). Calm drains limit after)

  serve_slot-Settles :
      (n i : ℕ) (server : Server) (os : net.Os)
      → Calm drains limit os
      → (ReceivesBad json net fuel readfds (suc n) i server os → F)
      → Settled (serve_slot json net fuel readfds i server os)
  unfolding serve_slot
  serve_slot-Settles n i server os h give = found (get_elem? server.clients i) refl
    where
      found :
          (o : Option ClientInfo)
          → get_elem? server.clients i ≡ o
          → Settled (serve_slot json net fuel readfds i server os)
      found none e = rw (serve_slot, e) (clean h)
      found (some client) e =
          rw (serve_slot, e)
            (serve_client-Settles json apart sockets F G limit fuel enough readfds server i client
              os h λ message after q bad. give (here client message after e q bad))

  pub pass-Settles :
      (n i : ℕ) (server : Server) (os : net.Os)
      → Calm drains limit os
      → (ReceivesBad json net fuel readfds n i server os → F)
      → Settled (serve_slots json net fuel readfds n i server os)
  unfolding serve_slots
  pass-Settles zero i server os h give = clean h
  pass-Settles (suc n) i server os h give =
      Ends-bind_eq _ (serve_slot-Settles n i server os h give) λ server' after e h'.
        pass-Settles n (suc i) server' after h' λ bad. give (later server' after e bad)
