-- ===== src/Answers/Opening.antt =====
-- A new connection, from its request for a WebSocket to its slot.
use npacn_fisac.Base.{ℕ, ◌+◌, ◌≤◌, ◌<◌, ◌≡◌, ◌≢◌, refl, arith, ◌∙◌, ap, Bool, true, false, some}
use npacn_fisac.Base.{List, [], ◌++◌, length, append-nil}
use npacn_fisac.Base.{Ensures, returns, Ensures-bind, Ensures-Clean}
use npacn_fisac.Base.CText.{codes, c_str, fit, decimal}
use npacn_fisac.Winsock.{
  Socket, invalid_socket, Winsock, accepted, IsTcp, IsDraining, IsDelivering, IsBroken,
}
use npacn_fisac.Handshake.{Stack, has_end, request_key}
use npacn_fisac.Handshake.Accept.{switching_protocols}
use npacn_fisac.Handshake.Session.{IsAnswered, websocket_handshake-IsAnswered}
use npacn_fisac.Json.{Json}
use npacn_fisac.Client.{ClientInfo, Server}
use npacn_fisac.Server.{after_handshake, after_accept}
use npacn_fisac.Server.Slots.{place_client}
use npacn_fisac.Sockets.{HasSockets}
use npacn_fisac.Sockets.Frames.{websocket_handshake-Still}
use npacn_fisac.Exchange.{IsApart, IsAccepting}
use npacn_fisac.Answers.{Told}
use npacn_fisac.Answers.Handlers.{log_event-Says}

-- A request for a WebSocket, as the code reads it: it ends with its first empty line, fits the buffer, and
-- has a key of a length that the code answers rightly.
pub record IsRequest (request key : List ℕ) : Type 0 where
  pub ends : has_end request ≡ true
  pub only_here :
      (front back : List ℕ) → front ++ back ≡ request → 0 < length back → has_end front ≡ false
  pub pos : 0 < length request
  pub fits : length request < 4095
  pub keyed : request_key (c_str request) ≡ some key
  pub short : length key ≤ 28
  pub usual : length key ≢ 20

module _ (json : Json) {net : Winsock} {tcp : IsTcp net} {drains : IsDraining net}
    (apart : IsApart tcp drains) (sockets : HasSockets net) (fuel : ℕ) (stack : Stack)
    (server : Server) (clients : List ClientInfo) (s : Socket) (key : List ℕ)
    (before : net.Os) where
  -- The server has the clients given, and the answer to the request is on the new connection; nothing
  -- was sent on the others that were open.
  pub record IsOpened (server' : Server) (after : net.Os) : Type 0 where
    pub placed : server' ≡ record server { clients = clients }
    pub answer : tcp.wire s after ≡ tcp.wire s before ++ switching_protocols key
    pub unread : tcp.incoming s after ≡ []
    pub others :
        (t : Socket)
        → t ≢ s
        → t ≢ invalid_socket
        → sockets.is_open t before ≡ true
        → tcp.wire t after ≡ tcp.wire t before

  module _ (valid : s ≢ invalid_socket) (enough : 8191 < fuel)
      (free : place_client s server.clients ≡ some clients) where
    after_handshake-IsOpened :
        (os : net.Os)
        → sockets.is_open s os ≡ true
        → ((t : Socket) → sockets.is_open t os ≡ sockets.is_open t before)
        → tcp.wire s os ≡ tcp.wire s before ++ switching_protocols key
        → tcp.incoming s os ≡ []
        → ((t : Socket)
            → t ≢ s
            → t ≢ invalid_socket
            → sockets.is_open t before ≡ true
            → tcp.wire t os ≡ tcp.wire t before)
        → Ensures IsOpened (after_handshake json net fuel stack server s true os)
    unfolding after_handshake
    after_handshake-IsOpened os open_one same on_wire unread others = rw free (
        Ensures-bind _ (log_event-Says json apart sockets fuel s valid _ _ os open_one enough)
          λ u after told. returns (record {
            placed = refl;
            answer = told.1.on_wire ∙ append-nil (tcp.wire s os) ∙ on_wire;
            unread = told.1.inboxes s valid open_one ∙ unread;
            others =
                λ t ne t_valid e. told.1.others t ne t_valid (same t ∙ e) ∙ others t ne t_valid e;
          }))

-- A new connection whose client sends a request for a WebSocket, however it is split up on its way, and
-- reads, is given the slot that `place_client` finds, if one is free. On a network that delivers what
-- peers send, where a request to the backend touches no other connection, the run returns whatever the
-- backend does; the new connection has been sent the response of RFC 6455 to the key of the request, and
-- nothing else, nothing is left unread on it, and nothing was sent on the other open connections.
pub after_accept-IsOpened :
    (json : Json) {net : Winsock} {tcp : IsTcp net} {drains : IsDraining net}
    (apart : IsApart tcp drains) (accepts : IsAccepting tcp drains) (sockets : HasSockets net)
    (delivers : IsDelivering tcp) (fuel : ℕ) (stack : Stack) (server : Server)
    (clients : List ClientInfo) (s : Socket) (ip : List ℕ) (port : ℕ) (request key : List ℕ)
    (os : net.Os)
    → s ≢ invalid_socket
    → sockets.is_open s os ≡ true
    → tcp.incoming s os ≡ request
    → IsRequest request key
    → length stack.block ≡ 64
    → ¬ IsBroken net s
    → place_client s server.clients ≡ some clients
    → 8191 + length request + drains.patience os < fuel
    → Ensures
        (IsOpened json apart sockets fuel stack server clients s key os)
        (after_accept json net fuel stack server (accepted s ip port) os)
unfolding after_accept
after_accept-IsOpened json {net} {tcp} {drains} apart accepts sockets delivers fuel stack server
      clients s ip port request key os valid open_one stream asks block sound free enough =
    Ensures-bind _
      (log_event-Says json apart sockets fuel s valid (codes "INFO")
        (fit 256 (codes "New connection from " ++ (ip ++ (codes ":" ++ decimal port)))) blocking
        (still_open s ∙ open_one) (omega (arith, enough)))
      λ u mid told.
        Ensures-bind _
          (Ensures-Clean
            (websocket_handshake-IsAnswered tcp delivers drains s stack fuel request key mid block
              asks.ends asks.only_here asks.pos asks.fits asks.keyed asks.short asks.usual sound
              (omega (arith, enough, told.1.calm, accepts.patience-ioctl s 0 os))
              (told.1.inboxes s valid (still_open s ∙ open_one)
                ∙ accepts.incoming-ioctl s s 0 os
                ∙ stream))
            (websocket_handshake-Still sockets ⊥ mid stack fuel s mid λ t. refl))
          (opened mid told.1)
  where
    blocking : net.Os
    blocking = (net.ioctl_nonblocking s 0 os).1

    still_open : (t : Socket) → sockets.is_open t blocking ≡ sockets.is_open t os
    still_open t = sockets.open-ioctl t s 0 os

    opened :
        (mid : net.Os)
        → Told apart sockets s [] blocking mid
        → (success : Bool) (after : net.Os)
        → IsAnswered tcp delivers drains s stack fuel request key mid success after
          × ((t : Socket) → sockets.is_open t after ≡ sockets.is_open t mid)
        → Ensures
            (IsOpened json apart sockets fuel stack server clients s key os)
            (after_handshake json net fuel stack server s success after)
    opened mid told success after h = rw h.0.success (
        after_handshake-IsOpened json apart sockets fuel stack server clients s key os valid
          (omega (arith, enough)) free after (same s ∙ open_one) same
          (h.0.answer
            ∙ ap (λ (w : List ℕ). w ++ switching_protocols key)
                (told.on_wire ∙ append-nil (tcp.wire s blocking) ∙ accepts.wire-ioctl s s 0 os))
          h.0.unread
          λ t ne t_valid e.
            h.0.others t ne
            ∙ told.others t ne t_valid (still_open t ∙ e)
            ∙ accepts.wire-ioctl t s 0 os)
      where
        same : (t : Socket) → sockets.is_open t after ≡ sockets.is_open t os
        same t = h.1 t ∙ told.same_open t ∙ still_open t
