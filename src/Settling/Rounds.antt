-- ===== src/Settling/Rounds.antt =====
-- A round of the main loop ends, but for the handshake of a new connection.
use npacn_fisac.Base.{ℕ, ◌+◌, ◌<◌, ◌≡◌, true, List, ◌∷◌, ◌++◌}
use npacn_fisac.Base.{M, stuck}
use npacn_fisac.Base.{Ends}
use npacn_fisac.Base.{Outcome, done}
use npacn_fisac.Base.CText.{codes, fit, decimal}
use npacn_fisac.Winsock.{Socket, Winsock, IsTcp, IsDraining, AcceptResult, accepted, accept_error}
use npacn_fisac.Winsock.{ready}
use npacn_fisac.Handshake.{Stack, websocket_handshake}
use npacn_fisac.Json.{Json}
use npacn_fisac.Client.{Server}
use npacn_fisac.Protocol.{log_event}
use npacn_fisac.Server.{accept_client}
use npacn_fisac.Server.Slots.{is_set, active_sockets}
use npacn_fisac.Sockets.{HasSockets}
use npacn_fisac.Exchange.{IsApart, IsAccepting}
use npacn_fisac.Settling.{Calm, Settles}
use npacn_fisac.Settling.Serving.{ReceivesBad}

-- The connection that was accepted, and logged as the code does, has a handshake that does not return
-- with the fuel given.
abbrev pub Waits : (json : Json) (net : Winsock) → ℕ → Stack → AcceptResult → net.Os → Type 0
Waits json net fuel stack (accepted s ip port) os =
    (before : net.Os) × (log_event json net fuel (codes "INFO")
        (fit 256 (codes "New connection from " ++ (ip ++ (codes ":" ++ decimal port))))
        (net.ioctl_nonblocking s 0 os).1
      ≡ done tt before)
    × (websocket_handshake net stack fuel s before ≡ stuck)
Waits json net fuel stack (accept_error e) os = ⊥

-- The round accepts a connection, and waits for its handshake.
pub record AcceptsWaiting (json : Json) (net : Winsock) (fuel : ℕ) (stack : Stack) (server : Server)
    (os : net.Os) : Type 0 where
  pub readfds : List Socket
  pub woken : (net.select (server.sock ∷ active_sockets server.clients) os).0 ≡ ready readfds
  pub asked : is_set server.sock readfds ≡ true
  pub waits :
      Waits json net fuel stack
        (net.accept server.sock (net.select (server.sock ∷ active_sockets server.clients) os).1).0
        (net.accept server.sock (net.select (server.sock ∷ active_sockets server.clients) os).1).1

-- The round receives a message that is a JSON value without the key `payload`, in its pass over the slots.
pub record RoundReceivesBad (json : Json) (net : Winsock) (fuel : ℕ) (stack : Stack)
    (server : Server) (os : net.Os) : Type 0 where
  pub readfds : List Socket
  pub woken : (net.select (server.sock ∷ active_sockets server.clients) os).0 ≡ ready readfds
  pub server' : Server
  pub before : net.Os
  pub accepting :
      accept_client json net fuel stack readfds server
        (net.select (server.sock ∷ active_sockets server.clients) os).1
      ≡ done server' before
  pub bad : ReceivesBad json net fuel readfds 30 0 server' before

module _ (json : Json) {net : Winsock} {tcp : IsTcp net} {drains : IsDraining net}
    (apart : IsApart tcp drains) (sockets : HasSockets net) (accepts : IsAccepting tcp drains)
    (F G : Type 0) (limit fuel : ℕ) (enough : 12300 + limit < fuel) (stack : Stack) where
  abbrev I : net.Os → Type 0
  I = Calm drains limit

  abbrev Fine : {A : Type 0} → M net.Os A → Type 0
  Fine m = Settles apart sockets F G limit fuel enough m

  abbrev Settled : Outcome net.Os Server → Type 0
  Settled = Ends F G (λ (s : Server) (after : net.Os). I after)
