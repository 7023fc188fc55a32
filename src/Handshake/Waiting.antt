-- ===== src/Handshake/Waiting.antt =====
-- The opening handshake with a client that sends nothing: the wait has no end of its own.
use npacn_fisac.Base.{ℕ, zero, suc, ◌≡◌, refl, []}
use npacn_fisac.Base.{stuck}
use npacn_fisac.Winsock.{Socket, Winsock, recv_error, would_block}
use npacn_fisac.Network.{robust_recv}
use npacn_fisac.Handshake.{Stack, request_loop, after_request_recv, websocket_handshake}

module _ (net : Winsock) (s : Socket)
    (silent : (n : ℕ) (os : net.Os) → (net.recv s n os).0 ≡ recv_error would_block) where
  request_loop-silent : (fuel : ℕ) (os : net.Os) → request_loop net fuel s [] os ≡ stuck
  unfolding request_loop robust_recv after_request_recv
  request_loop-silent zero os = refl
  request_loop-silent (suc fuel) os = rw (silent 4095 os) (request_loop-silent fuel _)

pub websocket_handshake-silent :
    (net : Winsock) (stack : Stack) (fuel : ℕ) (s : Socket) (os : net.Os)
    → ((n : ℕ) (os' : net.Os) → (net.recv s n os').0 ≡ recv_error would_block)
    → websocket_handshake net stack fuel s os ≡ stuck
unfolding websocket_handshake
websocket_handshake-silent net stack fuel s os silent =
    rw (request_loop-silent net s silent fuel os) refl
