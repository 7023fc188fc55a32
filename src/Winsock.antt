-- ===== src/Winsock.antt =====
-- The WinSock2 and Win32 calls that the server makes. They are not code of the repository, so their
-- state and behaviour are parameters; `IsTcp` states what the code relies on.
use npacn_fisac.Base.{ℕ, ◌≤◌, ◌<◌, ◌≡◌, ◌≢◌, Bool, Option, List, [], ◌++◌, length, take}

-- `SOCKET` is an unsigned 64-bit number.
abbrev pub Socket : Type 0
Socket = ℕ

-- `(SOCKET)(~0)`
abbrev pub invalid_socket : Socket
invalid_socket = 0xffff_ffff_ffff_ffff

-- `WSAGetLastError()` after a call that returned `SOCKET_ERROR`.
pub data ErrorCode : Type 0 where
  conn_reset conn_aborted would_block interrupted : ErrorCode
  other : ℕ → ErrorCode

pub data SendResult : Type 0 where
  sent : ℕ → SendResult
  send_error : ErrorCode → SendResult

-- The bytes that were put into the buffer; none of them when the peer has closed.
pub data RecvResult : Type 0 where
  received : List ℕ → RecvResult
  recv_error : ErrorCode → RecvResult

-- A new socket with the peer's address as text and its port, or an error.
pub data AcceptResult : Type 0 where
  accepted : Socket → List ℕ → ℕ → AcceptResult
  accept_error : ErrorCode → AcceptResult

-- The sockets that are left in the set, a timeout, or an error.
pub data SelectResult : Type 0 where
  ready : List Socket → SelectResult
  timeout : SelectResult
  select_error : ErrorCode → SelectResult

-- The options that the server sets on its listening socket.
pub data SocketOption : Type 0 where
  reuse_addr tcp_nodelay keep_alive receive_buffer : SocketOption

pub record Winsock : Type 1 where
  pub Os : Type 0
  pub send : Socket → List ℕ → Os → SendResult × Os
  pub recv : Socket → ℕ → Os → RecvResult × Os
  pub sleep : ℕ → Os → Os
  -- `WSAStartup`, with whether it succeeded, and `WSACleanup`.
  pub wsa_startup : Os → Bool × Os
  pub wsa_cleanup : Os → Os
  pub socket : Os → Socket × Os
  pub connect : Socket → ℕ → Os → Bool × Os
  pub closesocket : Socket → Os → Os
  pub accept : Socket → Os → AcceptResult × Os
  pub select : List Socket → Os → SelectResult × Os
  -- `ioctlsocket(s, FIONBIO, &mode)`, `setsockopt(s, level, option, &value, …)`, `bind` to an
  -- address and a port, and `listen`, with whether they succeeded.
  pub ioctl_nonblocking : Socket → ℕ → Os → Bool × Os
  pub setsockopt : Socket → SocketOption → ℕ → Os → Bool × Os
  pub bind : Socket → ℕ → ℕ → Os → Bool × Os
  pub listen : Socket → Os → Bool × Os
  -- `setsockopt` of SO_RCVTIMEO or SO_SNDTIMEO, whose result is not looked at.
  pub set_timeout : Socket → ℕ → Os → Os
  -- `inet_pton(AF_INET, …)`, and the environment variable FISAC_SOCKOPTS_PROFILE.
  pub inet_pton : List ℕ → Option ℕ
  pub profile : Option (List ℕ)
  -- Whether SIGINT has been delivered since the last `start_running`.
  pub interrupted_by_user : Os → Bool
  -- The store of `server->running = 1`: what the handler of SIGINT stored before it is lost.
  pub start_running : Os → Os

-- The bytes that one call of `send` took, and the ones that one call of `recv` gave.
abbrev pub sent_count : SendResult → ℕ
sent_count (sent n) = n
sent_count (send_error e) = 0

abbrev pub received_bytes : RecvResult → List ℕ
received_bytes (received bytes) = bytes
received_bytes (recv_error e) = []

-- TCP is a reliable stream of bytes. `wire s` is what was put on the connection `s` so far, and
-- `incoming s` is what its peer sends and was not read yet.
pub record IsTcp (net : Winsock) : Type 0 where
  pub wire : Socket → net.Os → List ℕ
  pub incoming : Socket → net.Os → List ℕ
  pub sent-le :
      (s : Socket) (bytes : List ℕ) (os : net.Os)
      → sent_count (net.send s bytes os).0 ≤ length bytes
  pub wire-send :
      (s : Socket) (bytes : List ℕ) (os : net.Os)
      → wire s (net.send s bytes os).1
        ≡ wire s os ++ take (sent_count (net.send s bytes os).0) bytes
  pub wire-send_ne :
      (s t : Socket) (bytes : List ℕ) (os : net.Os)
      → t ≢ s
      → wire t (net.send s bytes os).1 ≡ wire t os
  pub incoming-send :
      (s t : Socket) (bytes : List ℕ) (os : net.Os)
      → incoming t (net.send s bytes os).1 ≡ incoming t os
  pub received-le :
      (s : Socket) (n : ℕ) (os : net.Os) → length (received_bytes (net.recv s n os).0) ≤ n
  pub incoming-recv :
      (s : Socket) (n : ℕ) (os : net.Os)
      → incoming s os ≡ received_bytes (net.recv s n os).0 ++ incoming s (net.recv s n os).1
  pub incoming-recv_ne :
      (s t : Socket) (n : ℕ) (os : net.Os) → t ≢ s → incoming t (net.recv s n os).1 ≡ incoming t os
  pub wire-recv : (s t : Socket) (n : ℕ) (os : net.Os) → wire t (net.recv s n os).1 ≡ wire t os
  pub wire-sleep : (t : Socket) (ms : ℕ) (os : net.Os) → wire t (net.sleep ms os) ≡ wire t os
  pub incoming-sleep :
      (t : Socket) (ms : ℕ) (os : net.Os) → incoming t (net.sleep ms os) ≡ incoming t os

-- A peer that reads: a call of `send` takes a byte or fails, and of the sends that would block there
-- are at most `patience`.
pub record IsDraining (net : Winsock) : Type 0 where
  pub patience : net.Os → ℕ
  pub progress :
      (s : Socket) (bytes : List ℕ) (os : net.Os)
      → 0 < length bytes
      → (net.send s bytes os).0 ≢ sent 0
  pub patience-send :
      (s : Socket) (bytes : List ℕ) (os : net.Os) → patience (net.send s bytes os).1 ≤ patience os
  pub patience-recv :
      (s : Socket) (n : ℕ) (os : net.Os) → patience (net.recv s n os).1 ≤ patience os
  pub patience-sleep : (ms : ℕ) (os : net.Os) → patience (net.sleep ms os) ≤ patience os
  pub patience-wait :
      (s : Socket) (bytes : List ℕ) (ms : ℕ) (os : net.Os)
      → (net.send s bytes os).0 ≡ send_error would_block
      → patience (net.sleep ms (net.send s bytes os).1) < patience os

-- A connection whose next bytes arrive before the call of `recv` returns, as they do on a blocking
-- socket while the peer keeps it open.
abbrev pub IsDelivering : {net : Winsock} → IsTcp net → Type 0
IsDelivering {net} tcp =
    (s : Socket) (n : ℕ) (os : net.Os)
    → 0 < n
    → 0 < length (tcp.incoming s os)
    → 0 < length (received_bytes (net.recv s n os).0)

-- A quantity that reading and waiting do not raise.
pub record IsWaning (net : Winsock) (m : net.Os → ℕ) : Type 0 where
  pub on_recv : (s : Socket) (n : ℕ) (os : net.Os) → m (net.recv s n os).1 ≤ m os
  pub on_sleep : (ms : ℕ) (os : net.Os) → m (net.sleep ms os) ≤ m os

pub patience-IsWaning : {net : Winsock} (drains : IsDraining net) → IsWaning net drains.patience
patience-IsWaning drains = record {
  on_recv = drains.patience-recv;
  on_sleep = drains.patience-sleep;
}

-- Some call of `send` on the connection fails for good.
pub data IsBroken (net : Winsock) (s : Socket) : Type 0 where
  broken_by :
      (bytes : List ℕ) (os : net.Os) (e : ErrorCode)
      → (net.send s bytes os).0 ≡ send_error e
      → e ≢ would_block
      → IsBroken net s
