-- ===== src/Websocket/Closing.antt =====
-- The frames that end a connection.
use native.Mathlib.Nat
use npacn_fisac.Base.{ℕ, ◌+◌, ◌-◌, ◌<◌, ◌≡◌, ◌≢◌, refl, arith, bit_and}
use npacn_fisac.Base.{false, List, [], ◌∷◌, ltb, ◌==◌}
use npacn_fisac.Base.{M, ◌>>=◌, Ensures, returns}
use npacn_fisac.Base.Bits.{bit_and-mask}
use npacn_fisac.Winsock.{Socket, Winsock, IsTcp, IsDelivering}
use npacn_fisac.Websocket.{
  deliver, unmask, Frame, disconnected, recv_exact, recv_exact_loop, if_read, recv_payload,
}
use npacn_fisac.Websocket.{recv_length, recv_after_header, websocket_frame_recv}
use npacn_fisac.Websocket.RecvFrame.{Leaves, read_next, is_not}

module _ {net : Winsock} (tcp : IsTcp net) (delivers : IsDelivering tcp) (fuel : ℕ) (s : Socket)
    (buffer_size : ℕ) (rest : List ℕ) (os : net.Os) where
  at_start : (bytes : List ℕ) → tcp.incoming s os ≡ bytes → Leaves tcp s bytes os os
  at_start bytes e = record { unread = e; wires = λ t. refl; wanes = λ m w. Nat.le_refl _ }

  -- On a connection that delivers what its peer sends, a close frame, masked or not, disconnects the
  -- client as soon as its first two bytes are read, and nothing is sent in answer.
  websocket_frame_recv-close :
      (length_byte : ℕ)
      → tcp.incoming s os ≡ 136 ∷ length_byte ∷ rest
      → Ensures
          (λ r after. (r ≡ disconnected) × Leaves tcp s rest os after)
          (websocket_frame_recv net fuel s buffer_size os)
  unfolding websocket_frame_recv recv_after_header
  websocket_frame_recv-close length_byte stream =
      read_next tcp delivers s (136 ∷ length_byte ∷ []) rest os os (at_start _ stream) 2
        (λ r after. (r ≡ disconnected) × Leaves tcp s rest os after) _ refl (omega arith)
        λ after here. returns (refl, here)

  -- On a connection that delivers what its peer sends, a masked, unfragmented frame with an empty
  -- payload disconnects the client whatever its type is: also an empty text, and a ping without data,
  -- which is not answered.
  pub websocket_frame_recv-empty :
      (op k0 k1 k2 k3 : ℕ)
      → op < 16
      → op ≢ 8
      → tcp.incoming s os ≡ (128 + op) ∷ 128 ∷ k0 ∷ k1 ∷ k2 ∷ k3 ∷ rest
      → Ensures
          (λ r after. (r ≡ disconnected) × Leaves tcp s rest os after)
          (websocket_frame_recv net fuel s buffer_size os)
  unfolding websocket_frame_recv recv_after_header recv_length recv_payload recv_exact
      recv_exact_loop if_read
  websocket_frame_recv-empty op k0 k1 k2 k3 low ne stream =
      read_next tcp delivers s ((128 + op) ∷ 128 ∷ []) (k0 ∷ k1 ∷ k2 ∷ k3 ∷ rest) os os
        (at_start _ stream) 2 (λ r after. (r ≡ disconnected) × Leaves tcp s rest os after)
        (recv_after_header net fuel s buffer_size) refl (omega arith)
        λ os1 here1.
          rw (not_close, no_limit)
            (read_next tcp delivers s (k0 ∷ k1 ∷ k2 ∷ k3 ∷ []) rest os os1 here1 4
              (λ r after. (r ≡ disconnected) × Leaves tcp s rest os after) next refl (omega arith)
              λ os2 here2. returns (refl, here2))
    where
      not_close : (bit_and (128 + op) 0x0F == 8) ≡ false
      not_close = is_not _ 8 λ e. ne (omega (arith, bit_and-mask 4 (128 + op)))

      next : List ℕ → M net.Os Frame
      next masking_key =
          recv_exact net s 0
          >>= if_read net (λ buffer.
            deliver net fuel s (bit_and (128 + op) 0x0F) 0 (unmask masking_key 0 buffer))

      no_limit : ltb (buffer_size - 1) 0 ≡ false
      no_limit = ground arith
