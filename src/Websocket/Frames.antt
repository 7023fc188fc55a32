-- ===== src/Websocket/Frames.antt =====
-- What the server answers to each kind of frame.
use native.Mathlib.Nat.{le_refl}
use npacn_fisac.Base.{ℕ, ◌+◌, ◌^◌, ◌≤◌, ◌<◌, ◌≡◌, ◌≢◌, refl, arith, ◌∙◌, ap}
use npacn_fisac.Base.{Bool, true, false, Option, List, [], ◌∷◌, ◌++◌, length, ◌==◌}
use npacn_fisac.Base.{Ensures, returns, Ensures-bind, if◌then◌else◌, return}
use npacn_fisac.Base.CText.{IsBytes}
use npacn_fisac.Winsock.{
  Socket, Winsock, IsTcp, IsDelivering, IsDraining, IsBroken, patience-IsWaning,
}
use npacn_fisac.Base.Slices.{take_all}
use npacn_fisac.Websocket.{Frame, ignored, text, deliver, websocket_frame_recv}
use npacn_fisac.Websocket.Rfc.{client_frame, server_frame}
use npacn_fisac.Websocket.SendFrame.{Sends, whole, cut, websocket_frame_send-Sends}
use npacn_fisac.Websocket.RecvFrame.{Leaves, recv_frame, is_not}

module _ {net : Winsock} (tcp : IsTcp net) (delivers : IsDelivering tcp) (fuel : ℕ) (s : Socket)
    (buffer_size k0 k1 k2 k3 : ℕ) (payload rest : List ℕ) (os : net.Os)
    (key_bytes : IsBytes (k0 ∷ k1 ∷ k2 ∷ k3 ∷ [])) (payload_bytes : IsBytes payload)
    (pos : 0 < length payload) (fits : length payload < buffer_size)
    (small : buffer_size ≤ 2 ^ 31) where
  -- On a connection that delivers what its peer sends: a masked, unfragmented text frame with a
  -- payload that is not empty and is shorter than the buffer, of at most 2 GB, comes out as that
  -- payload, for a length in each of the three forms and for every key. The frame is read to its end
  -- and no further, and nothing is sent.
  pub websocket_frame_recv-text :
      tcp.incoming s os ≡ client_frame 1 k0 k1 k2 k3 payload ++ rest
      → Ensures
          (λ r after. (r ≡ text payload) × Leaves tcp s rest os after)
          (websocket_frame_recv net fuel s buffer_size os)
  websocket_frame_recv-text stream =
      recv_frame tcp delivers s fuel buffer_size 1 k0 k1 k2 k3 payload rest key_bytes payload_bytes
        pos fits os _ delivered (omega arith) (λ e. absurd (omega arith)) (omega arith) stream
    where
      delivered :
          (after : net.Os)
          → Leaves tcp s rest os after
          → Ensures
              (λ r after. (r ≡ text payload) × Leaves tcp s rest os after)
              (deliver net fuel s 1 (length payload) payload after)
      delivered after l = unfold deliver in returns (refl, l)

  -- On a connection that delivers what its peer sends, a masked, unfragmented frame that is no text,
  -- ping or close frame, with a payload that is not empty and is shorter than the buffer, of at most
  -- 2 GB, is read to its end and dropped, and nothing is sent.
  websocket_frame_recv-other :
      (op : ℕ)
      → op < 16
      → op ≢ 1
      → op ≢ 8
      → op ≢ 9
      → tcp.incoming s os ≡ client_frame op k0 k1 k2 k3 payload ++ rest
      → Ensures
          (λ r after. (r ≡ ignored) × Leaves tcp s rest os after)
          (websocket_frame_recv net fuel s buffer_size os)
  websocket_frame_recv-other op low not_text not_close not_ping stream =
      recv_frame tcp delivers s fuel buffer_size op k0 k1 k2 k3 payload rest key_bytes payload_bytes
        pos fits os _ delivered low not_close (omega arith) stream
    where
      dropped :
          (b : Bool) (after : net.Os)
          → Leaves tcp s rest os after
          → Ensures
              (λ r after. (r ≡ ignored) × Leaves tcp s rest os after)
              ((if b then return ignored else return ignored) after)
      dropped true after l = returns (refl, l)
      dropped false after l = returns (refl, l)

      delivered :
          (after : net.Os)
          → Leaves tcp s rest os after
          → Ensures
              (λ r after. (r ≡ ignored) × Leaves tcp s rest os after)
              (deliver net fuel s op (length payload) payload after)
      delivered after l =
          unfold deliver in
          rw (is_not op 9 not_ping, is_not op 1 not_text) (dropped (op == 10) after l)

  -- On a connection that delivers what its peer sends, with a peer that reads and no send that fails
  -- for good: a masked ping frame with a payload that is not empty and is shorter than the buffer, of
  -- at most 2 GB, is answered by one pong frame with the same payload. The ping is read to its end
  -- and no further, and nothing is sent on other connections.
  pub websocket_frame_recv-ping :
      (drains : IsDraining net)
      → (IsBroken net s → ⊥)
      → length payload + 10 + drains.patience os < fuel
      → tcp.incoming s os ≡ client_frame 9 k0 k1 k2 k3 payload ++ rest
      → Ensures
          (λ r after.
            (r ≡ ignored)
            × (tcp.incoming s after ≡ rest)
            × (tcp.wire s after ≡ tcp.wire s os ++ server_frame 10 payload)
            × ((t : Socket) → t ≢ s → tcp.wire t after ≡ tcp.wire t os))
          (websocket_frame_recv net fuel s buffer_size os)
  websocket_frame_recv-ping drains unbroken enough stream =
      recv_frame tcp delivers s fuel buffer_size 9 k0 k1 k2 k3 payload rest key_bytes payload_bytes
        pos fits os Answered delivered (omega arith) (λ e. absurd (omega arith)) (omega arith)
        stream
    where
      frame : List ℕ
      frame = server_frame 10 payload

      Answered : Frame → net.Os → Type 0
      Answered r after =
          (r ≡ ignored)
          × (tcp.incoming s after ≡ rest)
          × (tcp.wire s after ≡ tcp.wire s os ++ frame)
          × ((t : Socket) → t ≢ s → tcp.wire t after ≡ tcp.wire t os)

      pong :
          (mid : net.Os)
          → Leaves tcp s rest os mid
          → (r : Option (Unit {0})) (after : net.Os) → Sends tcp drains s frame mid r after
          → Ensures Answered (return ignored after)
      pong mid l _ after (whole p) = returns (
        refl,
        p.inbox s ∙ l.unread,
        p.on_wire
            ∙ ap (λ (b : List ℕ). tcp.wire s mid ++ b) (take_all (length frame) frame (le_refl _))
            ∙ ap (λ (w : List ℕ). w ++ frame) (l.wires s),
        λ t ne. p.others t ne ∙ l.wires t,
      )
      pong mid l _ after (cut count le p b) = absurd (unbroken b)

      delivered :
          (after : net.Os)
          → Leaves tcp s rest os after
          → Ensures Answered (deliver net fuel s 9 (length payload) payload after)
      delivered after l =
          unfold deliver in
          Ensures-bind (Sends tcp drains s frame after)
            (websocket_frame_send-Sends tcp drains fuel s payload 10 after (omega arith)
              (omega arith) (omega (arith, l.wanes drains.patience (patience-IsWaning drains))))
            (pong after l)
