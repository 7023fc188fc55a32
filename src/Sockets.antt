-- ===== src/Sockets.antt =====
-- The sockets that the process has open, and that the code for one connection opens and closes none.
pub mod Frames
pub mod Http
pub mod Handlers
pub mod Tally
pub mod Serving
pub mod Rounds
pub mod Shutdown
pub mod Startup
use npacn_fisac.Base.{
  ℕ, zero, suc, ◌+◌, ◌-◌, ◌≡◌, ◌≢◌, refl, ◌∙◌, Bool, true, false, ltb, ◌==◌, if◌then◌else◌,
}
use npacn_fisac.Base.{
  Option, none, some, List, [], ◌∷◌, ◌++◌, length, take, drop, M, return, stuck, call, perform,
  ◌>>=◌, ◌>>◌,
}
use npacn_fisac.Base.{
  Outcome, Clean, Keep, return-Keep, stuck-Keep, perform-Keep, call-Keep, bind-Keep, then-Keep,
  loop-Keep,
}
use npacn_fisac.Winsock.{Socket, invalid_socket, Winsock, SendResult, sent, send_error, ErrorCode}
use npacn_fisac.Winsock.{AcceptResult, accepted, accept_error, SocketOption}
use npacn_fisac.Winsock.{conn_reset, conn_aborted, would_block, interrupted, other}
use npacn_fisac.Network.Keeping.{AreCallsKept}
use npacn_fisac.Network.{classify, send_loop, after_send, robust_send, robust_recv}

-- Which sockets are open: `socket` and `accept` open one that was not, `closesocket` closes one,
-- `WSACleanup` may close some, and no other call changes any.
pub record HasSockets (net : Winsock) : Type 0 where
  pub is_open : Socket → net.Os → Bool
  pub open-send :
      (t s : Socket) (bytes : List ℕ) (os : net.Os)
      → is_open t (net.send s bytes os).1 ≡ is_open t os
  pub open-recv :
      (t s : Socket) (n : ℕ) (os : net.Os) → is_open t (net.recv s n os).1 ≡ is_open t os
  pub open-sleep : (t : Socket) (ms : ℕ) (os : net.Os) → is_open t (net.sleep ms os) ≡ is_open t os
  pub open-connect :
      (t s : Socket) (port : ℕ) (os : net.Os) → is_open t (net.connect s port os).1 ≡ is_open t os
  pub open-set_timeout :
      (t s : Socket) (ms : ℕ) (os : net.Os) → is_open t (net.set_timeout s ms os) ≡ is_open t os
  pub open-ioctl :
      (t s : Socket) (mode : ℕ) (os : net.Os)
      → is_open t (net.ioctl_nonblocking s mode os).1 ≡ is_open t os
  pub open-setsockopt :
      (t s : Socket) (option : SocketOption) (value : ℕ) (os : net.Os)
      → is_open t (net.setsockopt s option value os).1 ≡ is_open t os
  pub open-bind :
      (t s : Socket) (addr port : ℕ) (os : net.Os)
      → is_open t (net.bind s addr port os).1 ≡ is_open t os
  pub open-listen : (t s : Socket) (os : net.Os) → is_open t (net.listen s os).1 ≡ is_open t os
  pub open-select :
      (t : Socket) (sockets : List Socket) (os : net.Os)
      → is_open t (net.select sockets os).1 ≡ is_open t os
  pub open-wsa_startup :
      (t : Socket) (os : net.Os) → is_open t (net.wsa_startup os).1 ≡ is_open t os
  pub open-start_running :
      (t : Socket) (os : net.Os) → is_open t (net.start_running os) ≡ is_open t os
  -- `WSACleanup` may close sockets, and opens none.
  pub open-wsa_cleanup :
      (t : Socket) (os : net.Os) → is_open t os ≡ false → is_open t (net.wsa_cleanup os) ≡ false
  pub open-closesocket :
      (t s : Socket) (os : net.Os)
      → is_open t (net.closesocket s os) ≡ (if t == s then false else is_open t os)
  pub open-socket :
      (t : Socket) (os : net.Os)
      → (net.socket os).0 ≢ invalid_socket
      → is_open t (net.socket os).1 ≡ (if t == (net.socket os).0 then true else is_open t os)
  pub open-socket_failed :
      (t : Socket) (os : net.Os)
      → (net.socket os).0 ≡ invalid_socket
      → is_open t (net.socket os).1 ≡ is_open t os
  pub fresh-socket :
      (os : net.Os) → (net.socket os).0 ≢ invalid_socket → is_open (net.socket os).0 os ≡ false
  pub open-accept :
      (t s new : Socket) (ip : List ℕ) (port : ℕ) (os : net.Os)
      → (net.accept s os).0 ≡ accepted new ip port
      → is_open t (net.accept s os).1 ≡ (if t == new then true else is_open t os)
  pub fresh-accept :
      (s new : Socket) (ip : List ℕ) (port : ℕ) (os : net.Os)
      → (net.accept s os).0 ≡ accepted new ip port
      → (is_open new os ≡ false) × (new ≢ invalid_socket)
  pub open-accept_error :
      (t s : Socket) (e : ErrorCode) (os : net.Os)
      → (net.accept s os).0 ≡ accept_error e
      → is_open t (net.accept s os).1 ≡ is_open t os

-- Runs from a state `before` that leave the same sockets open, and fault only where `F` holds.
module _ {net : Winsock} (sockets : HasSockets net) (F : Type 0) (before : net.Os) where
  abbrev pub Same : net.Os → Type 0
  Same after = (t : Socket) → sockets.is_open t after ≡ sockets.is_open t before

  abbrev pub Still : {A : Type 0} → Outcome net.Os A → Type 0
  Still {A} = Clean F (λ (a : A) (after : net.Os). Same after)

  abbrev pub Quiet : {A : Type 0} → M net.Os A → Type 0
  Quiet m = Keep F (Unit {0}) Same m

  pub Same-AreCallsKept : AreCallsKept net Same
  Same-AreCallsKept = record {
    on_send = λ s bytes os h t. sockets.open-send t s bytes os ∙ h t;
    on_recv = λ s n os h t. sockets.open-recv t s n os ∙ h t;
    on_sleep = λ ms os h t. sockets.open-sleep t ms os ∙ h t;
  }
