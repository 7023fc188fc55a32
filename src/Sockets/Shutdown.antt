-- ===== src/Sockets/Shutdown.antt =====
-- The end of the main loop closes every socket.
use npacn_fisac.Base.{ℕ, zero, suc, ◌+◌, ◌≡◌, ◌≢◌, ◌⊎◌, inl, inr, refl, arith, ap, ◌==◌, ==_iff}
use npacn_fisac.Base.{Bool, true, false, Bool-cases, List, [], ◌∷◌, map, if◌then◌else◌}
use npacn_fisac.Base.{Outcome, return, ◌>>=◌, Keeps, kept, at_stuck, Keeps-bind}
use npacn_fisac.Winsock.{Socket, invalid_socket, Winsock}
use npacn_fisac.Handshake.{Stack}
use npacn_fisac.Json.{Json}
use npacn_fisac.Client.{ClientInfo, Server}
use npacn_fisac.Server.{server_loop, server_iteration, close_clients, server_shutdown}
use npacn_fisac.Server.Slots.{close_slot, signal_handler}
use npacn_fisac.Sockets.{HasSockets}
use npacn_fisac.Sockets.Tally.{bit, bit_ne, holders, owners, Tally, Tally-mono, Accounted}
use npacn_fisac.Sockets.Tally.{closesocket-Tally}
use npacn_fisac.Sockets.Serving.{after_log}
use npacn_fisac.Sockets.Rounds.{server_iteration-Accounted}

-- A slot without a socket.
abbrev pub AreClosed : List ClientInfo → Type 0
AreClosed [] = Unit
AreClosed (c ∷ clients) = (c.sock ≡ invalid_socket) × AreClosed clients

map-close_slot-AreClosed : (clients : List ClientInfo) → AreClosed (map close_slot clients)
unfolding close_slot
map-close_slot-AreClosed [] = tt
map-close_slot-AreClosed (c ∷ clients) = (refl, map-close_slot-AreClosed clients)

module _ {net : Winsock} (sockets : HasSockets net) where
  -- The server has stopped: no slot has a socket, and none is open.
  pub record IsDown (server : Server) (after : net.Os) : Type 0 where
    pub stopped : server.running ≡ false
    pub no_clients : AreClosed server.clients
    pub none_open : (t : Socket) → t ≢ invalid_socket → sockets.is_open t after ≡ false

module _ (json : Json) {net : Winsock} (sockets : HasSockets net) (fuel : ℕ) (stack : Stack) where
  -- The loop is left when the server no longer runs.
  pub server_loop-Accounted :
      (rounds : ℕ) (server : Server) (os : net.Os)
      → Accounted sockets server os
      → Keeps
          (λ (s : Server) (after : net.Os). (s.running ≡ false) × Accounted sockets s after)
          (server_loop json net fuel stack rounds server os)
  unfolding server_loop signal_handler
  server_loop-Accounted zero server os h = at_stuck
  server_loop-Accounted (suc rounds) server os h =
      pick (net.interrupted_by_user os) server.running refl (
        Keeps-bind (λ s after. Accounted sockets s after)
          (server_iteration-Accounted json sockets fuel stack server os h)
          λ s after. server_loop-Accounted rounds s after)
    where
      Ended : Outcome net.Os Server → Type 0
      Ended =
          Keeps (λ (s : Server) (after : net.Os). (s.running ≡ false) × Accounted sockets s after)

      next : Outcome net.Os Server
      next =
          (server_iteration json net fuel stack server >>= server_loop json net fuel stack rounds)
            os

      pick :
          (b r : Bool)
          → server.running ≡ r
          → Ended next
          → Ended (
              if b then return (signal_handler server) os else if r then next else return server os)
      pick true r e go = kept (refl, h)
      pick false true e go = go
      pick false false e go = kept (e, h)

  close_clients-Tally :
      (count : Socket → ℕ) (clients : List ClientInfo) (os : net.Os)
      → Tally sockets (λ t. holders t clients + count t) os
      → Keeps
          (λ (u : Unit {0}) (after : net.Os). Tally sockets count after)
          (close_clients json net fuel stack clients os)
  unfolding close_clients holders
  close_clients-Tally count [] os h = kept (Tally-mono sockets _ count os h λ t ne. omega arith)
  close_clients-Tally count (c ∷ clients) os h =
      pick (Bool-cases (c.sock == invalid_socket)) λ os'. close_clients-Tally count clients os'
    where
      rest : Socket → ℕ
      rest t = holders t clients + count t

      pick :
          ((c.sock == invalid_socket) ≡ true) ⊎ ((c.sock == invalid_socket) ≡ false)
          → ((os' : net.Os)
              → Tally sockets rest os'
              → Keeps
                  (λ (u : Unit {0}) (after : net.Os). Tally sockets count after)
                  (close_clients json net fuel stack clients os'))
          → Keeps
              (λ (u : Unit {0}) (after : net.Os). Tally sockets count after)
              (close_clients json net fuel stack (c ∷ clients) os)
      pick (inl empty) go =
          rw (close_clients, empty)
            (go os (
              Tally-mono sockets _ rest os h λ t ne. omega (
                arith,
                bit_ne t invalid_socket ne,
                ap (λ (s : Socket). bit (t == s)) ((==_iff c.sock invalid_socket).0 empty),
              )))
      pick (inr full) go =
          rw (close_clients, full)
            (go (net.closesocket c.sock os) (
              closesocket-Tally sockets rest c.sock os
                (Tally-mono sockets _ _ os h λ t ne. omega arith)))

  bit_zero : (b : Bool) → bit b ≡ 0 → b ≡ false
  bit_zero true e = absurd (omega (arith, e))
  bit_zero false e = refl

  pub server_shutdown-IsDown :
      (server : Server) (os : net.Os)
      → server.running ≡ false
      → Accounted sockets server os
      → Keeps (λ s after. IsDown sockets s after) (server_shutdown json net fuel stack server os)
  unfolding server_shutdown
  server_shutdown-IsDown server os stopped h =
      Keeps-bind (λ u after. Tally sockets listening after)
        (close_clients-Tally listening server.clients os
          (Tally-mono sockets (owners server) _ os h λ t ne. omega arith))
        λ u after h'.
          after_log json sockets fuel (λ t. 0) _ _ _ _
            (closesocket-Tally sockets (λ t. 0) server.sock after
              (Tally-mono sockets listening _ after h' λ t ne. omega arith))
            λ after' h''. kept (record {
              stopped = stopped;
              no_clients = map-close_slot-AreClosed server.clients;
              none_open = λ t ne. bit_zero (sockets.is_open t after') (h'' t ne);
            })
    where
      listening : Socket → ℕ
      listening t = bit (t == server.sock)
