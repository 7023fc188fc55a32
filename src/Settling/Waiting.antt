-- ===== src/Settling/Waiting.antt =====
-- A round of the main loop that does not end.
use npacn_fisac.Base.{ℕ, ◌≡◌, refl, ap, true, List, ◌∷◌, ◌++◌}
use npacn_fisac.Base.{Outcome, stuck, ◌▷◌, M, Clean, clean, faulty, out_of_fuel}
use npacn_fisac.Base.CText.{codes, fit, decimal}
use npacn_fisac.Winsock.{Socket, Winsock, accepted, ready, recv_error, would_block}
use npacn_fisac.Handshake.{Stack}
use npacn_fisac.Handshake.Waiting.{websocket_handshake-silent}
use npacn_fisac.Json.{Json}
use npacn_fisac.Client.{Server}
use npacn_fisac.Protocol.{log_event}
use npacn_fisac.Protocol.Requests.{log_event-Keep}
use npacn_fisac.Server.{after_accept, accept_client, after_select, server_iteration}
use npacn_fisac.Server.Slots.{is_set, active_sockets}
use npacn_fisac.Sockets.{HasSockets, Same}
use npacn_fisac.Sockets.Handlers.{Same-AreKept}

-- A run that does not fault, before one that does not return.
then_stuck :
    {S A B : Type 0} {P : A → S → Type 0} {o : Outcome S A} {k : A → M S B}
    → Clean ⊥ P o
    → ((a : A) (s : S) → k a s ≡ stuck)
    → (o ▷ k) ≡ stuck
then_stuck (clean {a} {s} p) k-stuck = k-stuck a s
then_stuck (faulty f) k-stuck = absurd f
then_stuck (out_of_fuel g) k-stuck = refl

stuck_first : {S A B : Type 0} (o : Outcome S A) (k : A → M S B) → o ≡ stuck → (o ▷ k) ≡ stuck
stuck_first o k e = ap (λ (o : Outcome _ _). o ▷ k) e

-- One client that connects and sends nothing stops the server for all: when a connection is waiting and
-- reading its socket would block each time, the round of the main loop that accepts it does not return,
-- however much fuel there is, so no other client is served and no signal is looked at any more.
pub server_iteration-silent :
    (json : Json) (net : Winsock) (sockets : HasSockets net) (fuel : ℕ) (stack : Stack)
    (server : Server) (readfds : List Socket) (s : Socket) (ip : List ℕ) (port : ℕ) (os : net.Os)
    → (net.select (server.sock ∷ active_sockets server.clients) os).0 ≡ ready readfds
    → is_set server.sock readfds ≡ true
    → (net.accept server.sock (net.select (server.sock ∷ active_sockets server.clients) os).1).0
      ≡ accepted s ip port
    → ((n : ℕ) (os' : net.Os) → (net.recv s n os').0 ≡ recv_error would_block)
    → server_iteration json net fuel stack server os ≡ stuck
unfolding server_iteration after_select accept_client after_accept
server_iteration-silent json net sockets fuel stack server readfds s ip port os woken waiting new
      silent =
    rw (woken, waiting, new)
      (stuck_first _ _ (
        then_stuck
          (logged
            (net.ioctl_nonblocking s 0
              (net.accept server.sock
                (net.select (server.sock ∷ active_sockets server.clients) os).1).1).1)
          λ u mid. stuck_first _ _ (websocket_handshake-silent net stack fuel s mid silent)))
  where
    message : List ℕ
    message = fit 256 (codes "New connection from " ++ (ip ++ (codes ":" ++ decimal port)))

    logged :
        (before : net.Os)
        → Clean ⊥
            (λ (u : Unit {0}) after. Same sockets ⊥ before after)
            (log_event json net fuel (codes "INFO") message before)
    logged before =
        log_event-Keep json (Same-AreKept sockets ⊥ before fuel) (codes "INFO") message before
          λ t. refl
