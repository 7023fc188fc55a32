-- ===== src/Sockets/Startup.antt =====
-- The setup of the listening socket, and the whole program: what it leaves open.
use npacn_fisac.Base.{ℕ, ◌+◌, ◌≡◌, ◌≢◌, ◌⊎◌, inl, inr, arith, ◌∙◌, ap, ◌==◌}
use npacn_fisac.Base.{Bool, true, false, Bool-cases, Option, none, some, List, [], ◌∷◌}
use npacn_fisac.Base.{M, Outcome, return, ◌>>=◌, Keeps, kept, Keeps-bind}
use npacn_fisac.Base.CText.{codes}
use npacn_fisac.Winsock.{Socket, invalid_socket, Winsock, SocketOption}
use npacn_fisac.Handshake.{Stack}
use npacn_fisac.Json.{Json}
use npacn_fisac.Client.{Server, max_clients}
use npacn_fisac.Setup.{
  winsock_init, winsock_cleanup, or_exit, create_socket, set_options, set_socket_options,
  close_and_exit, bind_socket,
}
use npacn_fisac.Setup.{listen_on_socket, set_non_blocking, option_values, is_tuned}
use npacn_fisac.Server.{run_listening, server_run}
use npacn_fisac.Server.{
  proceed, init_with, server_init, run_if, after_run, after_winsock_init, main,
}
use npacn_fisac.Server.Slots.{empty_slots}
use npacn_fisac.Sockets.{HasSockets}
use npacn_fisac.Sockets.Tally.{bit, owners, holders-empty, Tally, Tally-mono, Accounted}
use npacn_fisac.Sockets.Tally.{socket-Tally}
use npacn_fisac.Sockets.Serving.{after_log}
use npacn_fisac.Sockets.Shutdown.{IsDown, server_loop-Accounted, server_shutdown-IsDown}

-- What holds of a result: where the process was ended it is nothing.
abbrev pub OrExit : {S A : Type 0} → (A → S → Type 0) → Option A → S → Type 0
OrExit P none after = Unit
OrExit P (some a) after = P a after

module _ (json : Json) {net : Winsock} (sockets : HasSockets net) (fuel : ℕ) (stack : Stack) where
  -- A step of the setup that opens no socket, and closes at most the ones of which no more is said.
  abbrev Step : (Socket → ℕ) → M net.Os (Option (Unit {0})) → Type 0
  Step count m =
      (os : net.Os)
      → Tally sockets count os
      → Keeps (λ r after. OrExit (λ (u : Unit {0}) s. Tally sockets count s) r after) (m os)

  set_options-Step :
      (count : Socket → ℕ) (sock : Socket) (options : List (SocketOption × ℕ))
      → Step count (set_options net sock options)
  unfolding set_options
  set_options-Step count sock [] os h = kept h
  set_options-Step count sock ((option, value) ∷ options) os h =
      pick (net.setsockopt sock option value os).0 (
        set_options-Step count sock options (net.setsockopt sock option value os).1
          λ t ne. ap bit (sockets.open-setsockopt t sock option value os) ∙ h t ne)
    where
      after : net.Os
      after = (net.setsockopt sock option value os).1

      Fine : Outcome net.Os (Option (Unit {0})) → Type 0
      Fine = Keeps (λ r s. OrExit (λ (u : Unit {0}) s. Tally sockets count s) r s)

      pick :
          (b : Bool)
          → Fine (set_options net sock options after)
          → Fine (or_exit net (set_options net sock options) b after)
      pick true go = unfold or_exit in go
      pick false go = unfold or_exit in kept tt

  checked :
      (count : Socket → ℕ) (sock : Socket) (b : Bool) (os : net.Os)
      → Tally sockets count os
      → Keeps
          (λ r s. OrExit (λ (u : Unit {0}) s. Tally sockets count s) r s)
          (close_and_exit net sock b os)
  unfolding close_and_exit
  checked count sock true os h = kept h
  checked count sock false os h = kept tt

  bind_socket-Step :
      (count : Socket → ℕ) (sock : Socket) (ip : List ℕ) (port : ℕ)
      → Step count (bind_socket net sock ip port)
  unfolding bind_socket
  bind_socket-Step count sock ip port os h =
      checked count sock _ _ λ t ne. ap bit (sockets.open-bind t sock _ _ os) ∙ h t ne

  listen_on_socket-Step :
      (count : Socket → ℕ) (sock : Socket) → Step count (listen_on_socket net sock)
  unfolding listen_on_socket
  listen_on_socket-Step count sock os h =
      checked count sock _ _ λ t ne. ap bit (sockets.open-listen t sock os) ∙ h t ne

  set_non_blocking-Step :
      (count : Socket → ℕ) (sock : Socket) → Step count (set_non_blocking net sock)
  unfolding set_non_blocking or_exit
  set_non_blocking-Step count sock os h = pick (net.ioctl_nonblocking sock 1 os).0
    where
      after : net.Os
      after = (net.ioctl_nonblocking sock 1 os).1

      pick :
          (b : Bool)
          → Keeps
              (λ r s. OrExit (λ (u : Unit {0}) s. Tally sockets count s) r s)
              (or_exit net (return (some tt)) b after)
      pick true = kept λ t ne. ap bit (sockets.open-ioctl t sock 1 os) ∙ h t ne
      pick false = kept tt

  run_listening-IsDown :
      (rounds : ℕ) (server : Server) (r : Option (Unit {0})) (os : net.Os)
      → OrExit (λ (u : Unit {0}) s. Accounted sockets server s) r os
      → Keeps
          (λ r s. OrExit (IsDown sockets) r s)
          (run_listening json net fuel stack rounds server r os)
  unfolding run_listening
  run_listening-IsDown rounds server none os h = kept tt
  run_listening-IsDown rounds server (some u) os h =
      after_log json sockets fuel (owners server) _ _ _ os h λ os1 h1.
        Keeps-bind (λ s after. (s.running ≡ false) × Accounted sockets s after)
          (server_loop-Accounted json sockets fuel stack rounds server os1 h1)
          λ server' os2 h2.
            Keeps-bind (λ s after. IsDown sockets s after)
              (server_shutdown-IsDown json sockets fuel stack server' os2 h2.0 h2.1)
              λ server'' os3 down. kept down

  server_run-IsDown :
      (rounds : ℕ) (server : Server) (os : net.Os)
      → Accounted sockets server os
      → Keeps (λ r s. OrExit (IsDown sockets) r s) (server_run json net fuel stack rounds server os)
  unfolding server_run
  server_run-IsDown rounds server os h =
      Keeps-bind (λ r s. OrExit (λ (u : Unit {0}) s. Accounted sockets server s) r s)
        (listen_on_socket-Step (owners server) server.sock os h)
        λ r after. run_listening-IsDown rounds server r after

  abbrev Ready : Outcome net.Os (Option Server) → Type 0
  Ready = Keeps (λ r s. OrExit (λ (server : Server) s. Accounted sockets server s) r s)

  proceed-Ready :
      (count : Socket → ℕ) (step : M net.Os (Option (Unit {0}))) (next : M net.Os (Option Server))
      (os : net.Os)
      → Step count step
      → ((s : net.Os) → Tally sockets count s → Ready (next s))
      → Tally sockets count os
      → Ready ((step >>= proceed json net fuel stack next) os)
  unfolding proceed
  proceed-Ready count step next os fine go h =
      Keeps-bind (λ r s. OrExit (λ (u : Unit {0}) s. Tally sockets count s) r s) (fine os h) then_go
    where
      then_go :
          (r : Option (Unit {0})) (s : net.Os)
          → OrExit (λ (u : Unit {0}) s. Tally sockets count s) r s
          → Ready (proceed json net fuel stack next r s)
      then_go none s h' = kept tt
      then_go (some u) s h' = go s h'

  init_with-Ready :
      (ip : List ℕ) (port : ℕ) (sock : Socket) (os : net.Os)
      → Tally sockets (λ t. bit (t == sock) + 0) os
      → Ready (init_with json net fuel stack ip port (some sock) os)
  unfolding init_with set_socket_options empty_slots
  init_with-Ready ip port sock os h =
      proceed-Ready one _ _ os (set_options-Step one sock (option_values (is_tuned net.profile)))
        (λ os1 h1.
          proceed-Ready one _ _ os1 (bind_socket-Step one sock ip port)
            (λ os2 h2.
              proceed-Ready one _ _ os2 (set_non_blocking-Step one sock)
                (λ os3 h3. kept (
                  Tally-mono sockets one _ (net.start_running os3)
                    (λ t ne. ap bit (sockets.open-start_running t os3) ∙ h3 t ne)
                    λ t ne. omega (arith, holders-empty t max_clients ne)))
                h2)
            h1)
        h
    where
      one : Socket → ℕ
      one t = bit (t == sock) + 0

  server_init-Ready :
      (ip : List ℕ) (port : ℕ) (os : net.Os)
      → Tally sockets (λ t. 0) os
      → Ready (server_init json net fuel stack ip port os)
  unfolding server_init create_socket
  server_init-Ready ip port os h = split (Bool-cases (sock == invalid_socket))
    where
      sock : Socket
      sock = (net.socket os).0

      split :
          ((sock == invalid_socket) ≡ true) ⊎ ((sock == invalid_socket) ≡ false)
          → Ready (server_init json net fuel stack ip port os)
      split (inl e) = unfold server_init create_socket init_with in rw e (kept tt)
      split (inr e) =
          let valid : sock ≢ invalid_socket = λ q. ground (arith, q, e) in
          unfold server_init create_socket in
          rw e (
            init_with-Ready ip port sock (net.socket os).1
              (socket-Tally sockets (λ t. 0) os h valid))

  -- When the program started with no open socket and ends by itself, the main loop has stopped, no
  -- slot holds a socket, and no socket is open: each one that was opened on the way, for the server,
  -- its clients and its requests, has been closed. There is no claim where WinSock2 does not start or the
  -- setup ends the process.
  pub main-IsDown :
      (rounds : ℕ) (os : net.Os)
      → ((t : Socket) → t ≢ invalid_socket → sockets.is_open t os ≡ false)
      → Keeps (λ r s. OrExit (IsDown sockets) r s) (main json net fuel stack rounds os)
  unfolding main winsock_init
  main-IsDown rounds os closed =
      initialised (net.wsa_startup os).0 (net.wsa_startup os).1
        λ t ne. ap bit (sockets.open-wsa_startup t os ∙ closed t ne)
    where
      Down : Option Server → net.Os → Type 0
      Down r s = OrExit (IsDown sockets) r s

      run :
          (r : Option Server) (s : net.Os)
          → OrExit (λ (server : Server) s. Accounted sockets server s) r s
          → Keeps Down (run_if json net fuel stack rounds r s)
      run none s h = unfold run_if in kept tt
      run (some server) s h = unfold run_if in server_run-IsDown rounds server s h

      cleaned :
          (r : Option Server) (s : net.Os)
          → Down r s
          → Keeps Down (after_run json net fuel stack r s)
      cleaned none s h = unfold after_run in kept tt
      cleaned (some server) s h =
          unfold after_run winsock_cleanup in
          kept {a = some server} (record {
            stopped = h.stopped;
            no_clients = h.no_clients;
            none_open = λ t ne. sockets.open-wsa_cleanup t s (h.none_open t ne);
          })

      initialised :
          (started : Bool) (s : net.Os)
          → Tally sockets (λ t. 0) s
          → Keeps Down (after_winsock_init json net fuel stack rounds started s)
      initialised false s h = unfold after_winsock_init in kept tt
      initialised true s h =
          unfold after_winsock_init in
          Keeps-bind (λ r s. OrExit (λ (server : Server) s. Accounted sockets server s) r s)
            (server_init-Ready (codes "0.0.0.0") 8080 (net.sleep 2000 s)
              λ t ne. ap bit (sockets.open-sleep t 2000 s) ∙ h t ne)
            λ r s1 ready. Keeps-bind Down (run r s1 ready) cleaned
