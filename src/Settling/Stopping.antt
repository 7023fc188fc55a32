-- ===== src/Settling/Stopping.antt =====
-- What follows an interrupt by the user.
use native.Mathlib.Nat.{le_refl}
use npacn_fisac.Base.{ℕ, suc, ◌+◌, ◌<◌, ◌≡◌, refl, ◌==◌, true, List, [], ◌∷◌}
use npacn_fisac.Base.{M, ◌>>=◌, return-Keep, then-Keep, if-Keep, Ensures, Ends-Ensures}
use npacn_fisac.Base.CText.{codes}
use npacn_fisac.Winsock.{invalid_socket, Winsock, IsTcp, IsDraining}
use npacn_fisac.Handshake.{Stack}
use npacn_fisac.Json.{Json}
use npacn_fisac.Client.{ClientInfo, Server}
use npacn_fisac.Protocol.Requests.{log_event-Keep}
use npacn_fisac.Server.{server_loop, close_clients, server_shutdown}
use npacn_fisac.Server.Slots.{signal_handler}
use npacn_fisac.Sockets.{HasSockets}
use npacn_fisac.Sockets.Tally.{Accounted}
use npacn_fisac.Sockets.Shutdown.{IsDown, server_shutdown-IsDown}
use npacn_fisac.Exchange.{IsApart}
use npacn_fisac.Settling.{Calm, Settles, close-Settles, Calm-AreKept}

module _ (json : Json) {net : Winsock} {tcp : IsTcp net} {drains : IsDraining net}
    (apart : IsApart tcp drains) (sockets : HasSockets net) (limit fuel : ℕ)
    (enough : 12300 + limit < fuel) (stack : Stack) where
  abbrev I : net.Os → Type 0
  I = Calm drains limit

  abbrev Fine : {A : Type 0} → M net.Os A → Type 0
  Fine m = Settles apart sockets ⊥ ⊥ limit fuel enough m

  close_clients-Settles :
      (clients : List ClientInfo) → Fine (close_clients json net fuel stack clients)
  unfolding close_clients
  close_clients-Settles [] = return-Keep ⊥ ⊥ I tt
  close_clients-Settles (c ∷ clients) =
      let rest = close_clients-Settles clients in
      if-Keep ⊥ ⊥ I (c.sock == invalid_socket) _ _ rest
        (then-Keep ⊥ ⊥ I _ _ (close-Settles apart sockets ⊥ ⊥ limit fuel enough c.sock) rest)

  shutdown-Settles : (server : Server) → Fine (server_shutdown json net fuel stack server)
  unfolding server_shutdown
  shutdown-Settles server = then-Keep ⊥ ⊥ I _ _ (close_clients-Settles server.clients) (
      then-Keep ⊥ ⊥ I _ _ (close-Settles apart sockets ⊥ ⊥ limit fuel enough server.sock) (
        then-Keep ⊥ ⊥ I _ _
          (log_event-Keep json (Calm-AreKept apart sockets ⊥ ⊥ limit fuel enough) (codes "INFO")
            (codes "Server shut down"))
          (return-Keep ⊥ ⊥ I _)))

-- An interrupt by the user ends the server: once one has been delivered after the server was set to run
-- (one that comes during the setup is lost), and at the latest when the round at hand ends, the main loop is left before its
-- next round, and the shutdown returns, on a network whose peers read and where a request to the backend
-- touches no other connection, whatever the backend does. If the listening socket and the sockets in the
-- slots were the open ones, each in one place, then the server no longer runs, no slot has a socket,
-- and no socket is open.
pub server_loop-Stops :
    (json : Json) {net : Winsock} {tcp : IsTcp net} {drains : IsDraining net}
    (apart : IsApart tcp drains) (sockets : HasSockets net) (fuel : ℕ) (stack : Stack) (rounds : ℕ)
    (server : Server) (os : net.Os)
    → 12300 + drains.patience os < fuel
    → net.interrupted_by_user os ≡ true
    → Accounted sockets server os
    → Ensures
        (λ (server' : Server) (after : net.Os). IsDown sockets server' after)
        ((server_loop json net fuel stack (suc rounds) server
            >>= server_shutdown json net fuel stack)
          os)
unfolding server_loop signal_handler
server_loop-Stops json {drains = drains} apart sockets fuel stack rounds server os enough
      interrupted h =
    rw interrupted (
      Ends-Ensures
        (shutdown-Settles json apart sockets (drains.patience os) fuel enough stack
          (signal_handler server) os (le_refl _))
        (server_shutdown-IsDown json sockets fuel stack (signal_handler server) os refl h))
