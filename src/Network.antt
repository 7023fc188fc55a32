-- ===== src/Network.antt =====
-- FISAC1/src/network.c: sending all of a buffer, and one classified `recv`.
pub mod Keeping
pub mod Sending
use npacn_fisac.Base.{ℕ, zero, suc, ◌+◌, ◌-◌, Bool, ltb, if◌then◌else◌, Option, none, some}
use npacn_fisac.Base.{
  List, [], ◌∷◌, length, take, drop, M, return, stuck, call, perform, ◌>>=◌, ◌>>◌,
}
use npacn_fisac.Winsock.{Socket, Winsock, SendResult, sent, send_error, RecvResult, received}
use npacn_fisac.Winsock.{
  recv_error, ErrorCode, conn_reset, conn_aborted, would_block, interrupted, other,
}

-- The results of `robust_recv`: the bytes and their number, 0, -1 and -2.
pub data RecvStatus : Type 0 where
  bytes : List ℕ → RecvStatus
  closed again broken : RecvStatus

abbrev pub classify : RecvResult → RecvStatus
classify (received []) = closed
classify (received (b ∷ bs)) = bytes (b ∷ bs)
classify (recv_error conn_reset) = closed
classify (recv_error conn_aborted) = closed
classify (recv_error would_block) = again
classify (recv_error _) = broken

module _ (net : Winsock) where
  open net use {Os, send, recv, sleep}

  -- The body of the loop of `robust_send` after its call of `send`; `loop` goes round again.
  unfoldable pub after_send : (ℕ → M Os (Option ℕ)) → ℕ → SendResult → M Os (Option ℕ)
  after_send loop total (sent n) = loop (total + n)
  after_send loop total (send_error conn_reset) = return none
  after_send loop total (send_error conn_aborted) = return none
  after_send loop total (send_error would_block) = perform (sleep 1) >> loop total
  after_send loop total (send_error _) = return none

  -- The loop, with `total` bytes sent; `none` is the result -1.
  unfoldable pub send_loop : ℕ → Socket → List ℕ → ℕ → ℕ → M Os (Option ℕ)
  send_loop zero sockfd buf len total os = stuck
  send_loop (suc fuel) sockfd buf len total os =
      let step =
        call (send sockfd (take (len - total) (drop total buf)))
        >>= after_send (λ t. send_loop fuel sockfd buf len t) total in
      if ltb total len then step os else return (some total) os

  unfoldable pub robust_send : ℕ → Socket → List ℕ → ℕ → M Os (Option ℕ)
  robust_send fuel sockfd buf len = send_loop fuel sockfd buf len 0

  unfoldable pub robust_recv : Socket → ℕ → M Os RecvStatus
  robust_recv sockfd len = do n ← call (recv sockfd len); return (classify n)
