-- ===== src/Sockets/Rounds.antt =====
-- A round of the main loop opens and closes sockets, and each open one keeps exactly one owner.
use npacn_fisac.Base.{ℕ, ◌+◌, ◌≡◌, inl, inr, refl, arith, ◌∙◌, ap, ◌==◌}
use npacn_fisac.Base.{Bool, true, false, Option-cases, List, if◌then◌else◌}
use npacn_fisac.Base.{M, Outcome, call, return, ◌>>=◌, Keeps, kept, Keeps-bind}
use npacn_fisac.Winsock.{
  Socket, Winsock, AcceptResult, accepted, accept_error, SelectResult, ready, timeout, select_error,
}
use npacn_fisac.Winsock.{conn_reset, conn_aborted, would_block, interrupted, other}
use npacn_fisac.Handshake.{Stack}
use npacn_fisac.Json.{Json}
use npacn_fisac.Client.{Server}
use npacn_fisac.Server.{
  after_handshake, after_accept, accept_client, after_select, server_iteration,
}
use npacn_fisac.Server.Slots.{place_client, is_set}
use npacn_fisac.Sockets.{HasSockets}
use npacn_fisac.Sockets.Frames.{websocket_handshake-Still}
use npacn_fisac.Sockets.Tally.{bit, owners, holders-place_client, Tally, Tally-mono, Accounted}
use npacn_fisac.Sockets.Tally.{Quiet-Tally, closesocket-Tally, accept-Tally}
use npacn_fisac.Sockets.Serving.{after_log, serve_slots-Accounted}

module _ (json : Json) {net : Winsock} (sockets : HasSockets net) (fuel : ℕ) (stack : Stack) where
  abbrev Accounts : Outcome net.Os Server → Type 0
  Accounts = Keeps (λ (s : Server) (after : net.Os). Accounted sockets s after)

  -- The new socket has no slot yet.
  after_handshake-Accounted :
      (server : Server) (new_socket : Socket) (opened : Bool) (os : net.Os)
      → Tally sockets (λ t. bit (t == new_socket) + owners server t) os
      → Accounts (after_handshake json net fuel stack server new_socket opened os)
  unfolding after_handshake
  after_handshake-Accounted server new_socket false os h =
      after_log json sockets fuel _ _ _ _ os h
        λ after h'. kept (closesocket-Tally sockets _ new_socket after h')
  after_handshake-Accounted server new_socket true os h =
      after_log json sockets fuel _ _ _ _ os h λ after h'.
        elim (Option-cases (place_client new_socket server.clients)) [
          | inl full ↦ rw full (
              after_log json sockets fuel _ _ _ _ after h'
                λ after' h''. kept (closesocket-Tally sockets _ new_socket after' h''))
          | inr (clients, placed) ↦ rw placed (
              kept (
                Tally-mono sockets _ _ after h' λ t ne.
                  omega
                    (arith, holders-place_client t new_socket server.clients clients ne placed)))
        ]

  accepted-Accounted :
      (server : Server) (new_socket : Socket) (ip : List ℕ) (port : ℕ) (os : net.Os)
      → Tally sockets (λ t. bit (t == new_socket) + owners server t) os
      → Accounts (after_accept json net fuel stack server (accepted new_socket ip port) os)
  unfolding after_accept
  accepted-Accounted server new_socket ip port os h =
      after_log json sockets fuel count _ _ _ _
        (λ t ne. ap bit (sockets.open-ioctl t new_socket 0 os) ∙ h t ne)
        λ after h'.
          Keeps-bind (λ opened s. Tally sockets count s)
            (Quiet-Tally sockets count _ after
              (websocket_handshake-Still sockets (Unit {0}) after stack fuel new_socket) h')
            (after_handshake-Accounted server new_socket)
    where
      count : Socket → ℕ
      count t = bit (t == new_socket) + owners server t

  accept_client-Accounted :
      (readfds : List Socket) (server : Server) (os : net.Os)
      → Accounted sockets server os
      → Accounts (accept_client json net fuel stack readfds server os)
  unfolding accept_client
  accept_client-Accounted readfds server os h = pick (is_set server.sock readfds)
    where
      got :
          (r : AcceptResult)
          → (net.accept server.sock os).0 ≡ r
          → Accounts (after_accept json net fuel stack server r (net.accept server.sock os).1)
      got (accept_error e) q =
          unfold after_accept in
          kept λ t ne. ap bit (sockets.open-accept_error t server.sock e os q) ∙ h t ne
      got (accepted new_socket ip port) q =
          accepted-Accounted server new_socket ip port _
            (accept-Tally sockets (owners server) server.sock new_socket ip port os h q)

      run : M net.Os Server
      run = call (net.accept server.sock) >>= after_accept json net fuel stack server

      pick : (b : Bool) → Accounts ((if b then run else return server) os)
      pick true = got (net.accept server.sock os).0 refl
      pick false = kept h

  after_select-Accounted :
      (server : Server) (r : SelectResult) (os : net.Os)
      → Accounted sockets server os
      → Accounts (after_select json net fuel stack server r os)
  unfolding after_select
  after_select-Accounted server timeout os h = kept h
  after_select-Accounted server (ready readfds) os h =
      Keeps-bind (λ s after. Accounted sockets s after)
        (accept_client-Accounted readfds server os h)
        λ server' after. serve_slots-Accounted json sockets fuel readfds 30 0 server' after
  after_select-Accounted server (select_error interrupted) os h = kept h
  after_select-Accounted server (select_error conn_reset) os h =
      after_log json sockets fuel _ _ _ _ os h λ after. kept
  after_select-Accounted server (select_error conn_aborted) os h =
      after_log json sockets fuel _ _ _ _ os h λ after. kept
  after_select-Accounted server (select_error would_block) os h =
      after_log json sockets fuel _ _ _ _ os h λ after. kept
  after_select-Accounted server (select_error (other n)) os h =
      after_log json sockets fuel _ _ _ _ os h λ after. kept

  -- No round of the main loop loses a socket or keeps one that is closed: if the open sockets are the
  -- listening socket and the sockets in the slots, each in one place, they are so again after the round.
  -- Connections that are accepted, refused for want of a slot, not upgraded or dropped, and the ones
  -- of the requests to the backend, are all accounted for, whatever the network does.
  pub server_iteration-Accounted :
      (server : Server) (os : net.Os)
      → Accounted sockets server os
      → Keeps
          (λ (s : Server) (after : net.Os). Accounted sockets s after)
          (server_iteration json net fuel stack server os)
  unfolding server_iteration
  server_iteration-Accounted server os h =
      after_select-Accounted server _ _ λ t ne. ap bit (sockets.open-select t _ os) ∙ h t ne
