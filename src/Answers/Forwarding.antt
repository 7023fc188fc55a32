-- ===== src/Answers/Forwarding.antt =====
-- A location on its way from one client to the others.
use npacn_fisac.Base.{
  ℕ, zero, suc, ◌+◌, ◌<◌, ◌≡◌, ◌≢◌, refl, arith, ◌∙◌, ap, sym, subst, ◌==◌, ==_iff, ◌&&◌, not,
  Bool-cases, inl, inr, ◌⊎◌,
}
use npacn_fisac.Base.{
  Bool, true, false, some, List, [], ◌∷◌, ◌++◌, length, append-nil, get_elem?, set, if◌then◌else◌,
}
use npacn_fisac.Base.{M, return, ◌>>◌, Ensures, returns, Ensures-bind, Ensures-mono, Ensures-Clean}
use npacn_fisac.Base.CText.{codes, c_str, length-c_str, strcmp_eq, IsBytes}
use npacn_fisac.Winsock.{
  Socket, invalid_socket, Winsock, IsTcp, IsDraining, IsDelivering, IsBroken, patience-IsWaning,
}
use npacn_fisac.Websocket.{Frame, text}
use npacn_fisac.Websocket.Rfc.{client_frame, server_frame}
use npacn_fisac.Websocket.Frames.{websocket_frame_recv-text}
use npacn_fisac.Json.{Json}
use npacn_fisac.Client.{ClientInfo, Server}
use npacn_fisac.Backend.{string_of}
use npacn_fisac.Protocol.{dispatch, dispatch_typed, dispatch_item, handle_message}
use npacn_fisac.Server.{server_broadcast, is_location, after_message, after_frame, serve_client}
use npacn_fisac.Server.Slots.{is_set, put_slot}
use npacn_fisac.Server.Broadcast.{frames_for, server_broadcast-Reaches}
use npacn_fisac.Sockets.{HasSockets}
use npacn_fisac.Sockets.Frames.{websocket_frame_recv-Still}
use npacn_fisac.Exchange.{IsApart}
use npacn_fisac.Answers.{Told}
use npacn_fisac.Answers.Handlers.{IsReady, then-Talks, return-Talks, handle_location-Talks}

some_inj {ℓ} : {A : Type ℓ} {x y : A} → some x ≡ some y → x ≡ y
some_inj q = cc

-- Writing back what a slot holds changes nothing.
set-same :
    (clients : List ClientInfo) (i : ℕ) (client : ClientInfo)
    → get_elem? clients i ≡ some client
    → set clients i client ≡ clients
set-same [] i client e = cc
set-same (c ∷ clients) zero client e = ap (λ (d : ClientInfo). d ∷ clients) (sym (some_inj e))
set-same (c ∷ clients) (suc i) client e =
    ap (λ (cs : List ClientInfo). c ∷ cs) (set-same clients i client e)

-- The text is a JSON message of type "location" with a payload.
pub record IsLocation (json : Json) (message : List ℕ) : Type 0 where
  pub item : json.Item
  pub payload : json.Item
  pub parsed : json.parse (c_str message) ≡ some item
  pub typed : string_of json (json.get_object_item item (codes "type")) ≡ some (codes "location")
  pub there : json.get_object_item item (codes "payload") ≡ some payload

module _ (json : Json) {net : Winsock} {tcp : IsTcp net} {drains : IsDraining net}
    (apart : IsApart tcp drains) (sockets : HasSockets net) (fuel : ℕ) (server : Server) (i : ℕ)
    (client : ClientInfo) (message : List ℕ) (located : IsLocation json message)
    (here : get_elem? server.clients i ≡ some client) (member : client.authenticated ≡ true)
    (valid : client.sock ≢ invalid_socket) (small : length message < 4096) where
  -- The slots are as they were, and what the others are sent is on the connection `t`.
  record Forwards (t : Socket) (before : net.Os) (server' : Server) (after : net.Os) : Type 0 where
    pub same_server : server' ≡ server
    pub forwarded :
        tcp.wire t after
        ≡ tcp.wire t before
          ++ frames_for client.sock server.clients (server_frame 1 (c_str message)) t
    pub inboxes :
        (s : Socket)
        → s ≢ invalid_socket
        → sockets.is_open s before ≡ true
        → tcp.incoming s after ≡ tcp.incoming s before

  is_location_lem : is_location json net fuel message ≡ true
  unfolding is_location strcmp_eq
  is_location_lem = rw (is_location, located.parsed, located.typed) refl

  handle_message-Told :
      (os : net.Os)
      → IsReady json apart sockets fuel client.sock valid os
      → Ensures
          (λ (c : ClientInfo) (after : net.Os).
            (c ≡ client) × Told apart sockets client.sock [] os after)
          (handle_message json net fuel client message os)
  unfolding handle_message dispatch_item dispatch_typed dispatch strcmp_eq
  handle_message-Told =
      rw (located.parsed, located.typed, located.there, ap not member)
        (then-Talks json apart sockets fuel client.sock valid [] [] _ _
          (handle_location-Talks json apart sockets fuel client.sock valid client located.payload)
          λ u v. return-Talks json apart sockets fuel client.sock valid client refl)

  put_slot_lem : put_slot server i client ≡ server
  unfolding put_slot
  put_slot_lem =
      ap (λ (cs : List ClientInfo). record server { clients = cs })
        (set-same server.clients i client here)

  module _ (t : Socket) (t_valid : t ≢ invalid_socket) (sound : ¬ IsBroken net t) where
    after_message-Forwards :
        (os : net.Os)
        → 8191 + drains.patience os < fuel
        → Ensures
            (Forwards t os)
            (after_message json net fuel server i client.sock message client os)
    unfolding after_message
    after_message-Forwards os enough =
        subst
          (λ (b : Bool). Ensures (Forwards t os) (
            (if b then forward (put_slot server i client) else return (put_slot server i client))
              os))
          (sym chosen)
          (subst (λ (s' : Server). Ensures (Forwards t os) (forward s' os)) (sym put_slot_lem)
            broadcast)
      where
        forward : Server → M net.Os Server
        forward s' = do server_broadcast net fuel s' message client.sock; return s'

        chosen : (is_location json net fuel message && client.authenticated) ≡ true
        chosen = ap (λ (b : Bool). b && client.authenticated) is_location_lem ∙ member

        broadcast : Ensures (Forwards t os) (forward server os)
        broadcast =
            Ensures-bind _
              (server_broadcast-Reaches tcp drains fuel server message client.sock t os
                (omega (arith, length-c_str message, small))
                (omega (arith, length-c_str message, small, enough)) sound)
              λ u after h.
                returns (record { same_server = refl; forwarded = h.0; inboxes = λ s ne e. h.1 s })

    after_frame-Forwards :
        (os : net.Os)
        → sockets.is_open t os ≡ true
        → IsReady json apart sockets fuel client.sock valid os
        → Ensures (Forwards t os) (after_frame json net fuel server i client (text message) os)
    unfolding after_frame
    after_frame-Forwards os t_open ready =
        Ensures-bind _ (handle_message-Told os ready) λ c mid told.
          subst
            (λ (d : ClientInfo).
              Ensures (Forwards t os)
                (after_message json net fuel server i client.sock message d mid))
            (sym told.0)
            (Ensures-mono (after_message-Forwards mid (omega (arith, told.1.calm, ready.enough)))
              λ server' after h. record {
                same_server = h.same_server;
                forwarded =
                    h.forwarded
                    ∙ ap
                        (λ (w : List ℕ).
                          w
                          ++ frames_for client.sock server.clients (server_frame 1 (c_str message))
                              t)
                        (still mid told.1);
                inboxes = λ s ne e. h.inboxes s ne (told.1.same_open s ∙ e) ∙ told.1.inboxes s ne e;
              })
      where
        still :
            (mid : net.Os)
            → Told apart sockets client.sock [] os mid
            → tcp.wire t mid ≡ tcp.wire t os
        still mid told = cases (Bool-cases (t == client.sock))
          where
            cases :
                ((t == client.sock) ≡ true) ⊎ ((t == client.sock) ≡ false)
                → tcp.wire t mid ≡ tcp.wire t os
            cases (inl same) =
                let e = (==_iff t client.sock).0 same in
                ap (λ (u : Socket). tcp.wire u mid) e
                ∙ told.on_wire
                ∙ append-nil (tcp.wire client.sock os)
                ∙ ap (λ (u : Socket). tcp.wire u os) (sym e)
            cases (inr other) = told.others t (λ q. ground (arith, q, other)) t_valid t_open

-- From bytes to bytes: a logged-in client, whose socket `select` reports as readable, sends a masked
-- text frame of less than 4096 bytes with a location message. On a network that delivers what peers
-- send, with peers that read, the server's turn for this client returns, whatever the backend does. The
-- frame is read to its end and no further, the slots stay as they are, and every open connection on
-- which no send fails for good has then been sent the message as one text frame of the server for each
-- slot of another logged-in client that it stands in, and nothing else.
pub serve_client-Forwards :
    (json : Json) {net : Winsock} {tcp : IsTcp net} {drains : IsDraining net}
    (apart : IsApart tcp drains) (sockets : HasSockets net) (delivers : IsDelivering tcp) (fuel : ℕ)
    (readfds : List Socket) (server : Server) (i : ℕ) (client : ClientInfo) (k0 k1 k2 k3 : ℕ)
    (message rest : List ℕ) (t : Socket) (os : net.Os)
    → IsLocation json message
    → get_elem? server.clients i ≡ some client
    → client.authenticated ≡ true
    → client.sock ≢ invalid_socket
    → sockets.is_open client.sock os ≡ true
    → is_set client.sock readfds ≡ true
    → IsBytes (k0 ∷ k1 ∷ k2 ∷ k3 ∷ [])
    → IsBytes message
    → 0 < length message
    → length message < 4096
    → tcp.incoming client.sock os ≡ client_frame 1 k0 k1 k2 k3 message ++ rest
    → t ≢ invalid_socket
    → sockets.is_open t os ≡ true
    → ¬ IsBroken net t
    → 8191 + drains.patience os < fuel
    → Ensures
        (λ (server' : Server) (after : net.Os).
          (server' ≡ server)
          × (tcp.incoming client.sock after ≡ rest)
          × (tcp.wire t after
              ≡ tcp.wire t os
                ++ frames_for client.sock server.clients (server_frame 1 (c_str message)) t))
        (serve_client json net fuel readfds server i client os)
unfolding serve_client
serve_client-Forwards json {net} {tcp} {drains} apart sockets delivers fuel readfds server i client
      k0 k1 k2 k3 message rest t os located here member valid open_one readable keys bytes pos small
      stream t_valid t_open sound enough =
    rw (not_invalid, readable)
      (Ensures-bind _
        (Ensures-Clean
          (websocket_frame_recv-text tcp delivers fuel client.sock 4096 k0 k1 k2 k3 message rest os
            keys bytes pos small (omega arith) stream)
          (websocket_frame_recv-Still sockets ⊥ os fuel client.sock 4096 os λ u. refl))
        λ frame mid read.
          subst (λ (f : Frame). Ensures Done (after_frame json net fuel server i client f mid))
            (sym read.0.0)
            (Ensures-mono
              (after_frame-Forwards json apart sockets fuel server i client message located here
                member valid small t t_valid sound mid (read.1 t ∙ t_open)
                (record {
                  open_one = read.1 client.sock ∙ open_one;
                  enough =
                      omega
                        (arith, enough, read.0.1.wanes drains.patience (patience-IsWaning drains));
                }))
              λ server' after h. (
                h.same_server,
                h.inboxes client.sock valid (read.1 client.sock ∙ open_one) ∙ read.0.1.unread,
                h.forwarded
                    ∙ ap
                        (λ (w : List ℕ).
                          w
                          ++ frames_for client.sock server.clients (server_frame 1 (c_str message))
                              t)
                        (read.0.1.wires t),
              )))
  where
    Done : Server → net.Os → Type 0
    Done server' after =
        (server' ≡ server)
        × (tcp.incoming client.sock after ≡ rest)
        × (tcp.wire t after
            ≡ tcp.wire t os
              ++ frames_for client.sock server.clients (server_frame 1 (c_str message)) t)

    not_invalid : (client.sock == invalid_socket) ≡ false
    not_invalid = ground (arith, valid)
