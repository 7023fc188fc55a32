-- ===== src/Setup.antt =====
-- FISAC1/src/socket.c: starting WinSock2, and the listening socket. Where the source ends the process,
-- the result is `none`.
pub mod Options
use npacn_fisac.Base.{ℕ, ◌+◌, ◌%◌, ◌^◌, Bool, true, false, not, ◌&&◌, leb, ◌==◌, if◌then◌else◌}
use npacn_fisac.Base.{Option, none, some, List, [], ◌∷◌, map, M, return, call, perform, ◌>>=◌, ◌>>◌}
use npacn_fisac.Base.CText.{codes, strcmp_eq}
use npacn_fisac.Winsock.{Socket, invalid_socket, Winsock, SocketOption}
use npacn_fisac.Winsock.{reuse_addr, tcp_nodelay, keep_alive, receive_buffer}

unfoldable pub to_lower : ℕ → ℕ
to_lower c = if leb b'A' c && leb c b'Z' then c + 32 else c

-- `_stricmp(profile, "baseline") == 0` means the untuned profile.
unfoldable pub is_tuned : Option (List ℕ) → Bool
unfolding to_lower
is_tuned none = true
is_tuned (some profile) = not (strcmp_eq (map to_lower profile) (codes "baseline"))

-- The options in the order in which they are set, with their values.
unfoldable pub option_values : Bool → List (SocketOption × ℕ)
option_values tuned =
    let on = if tuned then 1 else 0 in
    (reuse_addr, on)
    ∷ (tcp_nodelay, on)
    ∷ (keep_alive, on)
    ∷ (receive_buffer, if tuned then 131072 else 8192)
    ∷ []

module _ (net : Winsock) where
  open net use {Os, wsa_startup, wsa_cleanup, setsockopt, bind, closesocket, ioctl_nonblocking}

  -- `true` is the result 0 and `false` the result -1.
  unfoldable pub winsock_init : M Os Bool
  winsock_init = call wsa_startup

  unfoldable pub winsock_cleanup : M Os (Unit {0})
  winsock_cleanup = perform wsa_cleanup

  -- Go on where a call succeeded, and end the process where it failed.
  unfoldable pub or_exit : M Os (Option (Unit {0})) → Bool → M Os (Option (Unit {0}))
  or_exit next true = next
  or_exit next false = return none

  unfoldable pub create_socket : M Os (Option Socket)
  create_socket = do
    sock ← call net.socket
    if sock == invalid_socket then return none else return (some sock)

  unfoldable pub set_options : Socket → List (SocketOption × ℕ) → M Os (Option (Unit {0}))
  set_options sock [] = return (some tt)
  set_options sock ((option, opt_val) ∷ options) =
      call (setsockopt sock option opt_val) >>= or_exit (set_options sock options)

  unfoldable pub set_socket_options : Socket → M Os (Option (Unit {0}))
  set_socket_options sock = set_options sock (option_values (is_tuned net.profile))

  unfoldable pub close_and_exit : Socket → Bool → M Os (Option (Unit {0}))
  close_and_exit sock true = return (some tt)
  close_and_exit sock false = do perform (closesocket sock); return none

  -- An address that cannot be read falls back to INADDR_ANY, which is 0.
  unfoldable pub bind_socket : Socket → List ℕ → ℕ → M Os (Option (Unit {0}))
  bind_socket sock ip port =
      let addr : ℕ = elim (net.inet_pton ip) [ none ↦ 0 | some a ↦ a ] in
      call (bind sock addr (port % 2 ^ 16)) >>= close_and_exit sock

  unfoldable pub listen_on_socket : Socket → M Os (Option (Unit {0}))
  listen_on_socket sock = call (net.listen sock) >>= close_and_exit sock

  unfoldable pub set_non_blocking : Socket → M Os (Option (Unit {0}))
  set_non_blocking sock = call (ioctl_nonblocking sock 1) >>= or_exit (return (some tt))
