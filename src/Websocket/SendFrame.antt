-- ===== src/Websocket/SendFrame.antt =====
-- What `websocket_frame_send` puts on the connection.
use native.Mathlib.Nat.{le_trans, le_refl}
use npacn_fisac.Base.{ℕ, ◌+◌, ◌^◌, ◌≤◌, ◌<◌, ◌≡◌, arith, ◌∙◌, ap, sym, subst}
use npacn_fisac.Base.{
  Option, none, some, List, ◌∷◌, ◌++◌, length, take, length-append, append_assoc,
}
use npacn_fisac.Base.{Ensures, returns, Ensures-bind}
use npacn_fisac.Base.Slices.{take-append_over, take-append_le, take_all}
use npacn_fisac.Winsock.{Socket, Winsock, IsTcp, IsDraining, IsBroken}
use npacn_fisac.Network.Sending.{Pushed, SendsAll, all, part, robust_send-SendsAll}
use npacn_fisac.Websocket.{
  frame_header, websocket_frame_send, int_length, after_header, after_payload,
}
use npacn_fisac.Websocket.Rfc.{server_frame, length_field, frame_header-rfc, length-length_field}

module _ {net : Winsock} (tcp : IsTcp net) (drains : IsDraining net) where
  -- The whole of `bytes` was sent and the call succeeded, or a prefix was sent and it failed.
  pub data Sends (s : Socket) (bytes : List ℕ) (before : net.Os)
      : Option (Unit {0}) → net.Os → Type 0 where
    whole :
        {after : net.Os}
        → Pushed tcp drains s bytes (length bytes) before after
        → Sends s bytes before (some tt) after
    cut :
        {after : net.Os} (count : ℕ)
        → count ≤ length bytes
        → Pushed tcp drains s bytes count before after
        → IsBroken net s
        → Sends s bytes before none after

  -- Two buffers that are sent one after the other.
  Pushed-append :
      (s : Socket) (first second : List ℕ) (count : ℕ) (before mid after : net.Os)
      → Pushed tcp drains s first (length first) before mid
      → Pushed tcp drains s second count mid after
      → Pushed tcp drains s (first ++ second) (length first + count) before after
  Pushed-append s first second count before mid after p q = record {
    on_wire =
        q.on_wire
        ∙ ap (λ (w : List ℕ). w ++ take count second) p.on_wire
        ∙ append_assoc (tcp.wire s before) (take (length first) first) (take count second)
        ∙ ap (λ (l : List ℕ). tcp.wire s before ++ (l ++ take count second))
            (take_all (length first) first (le_refl _))
        ∙ ap (λ (l : List ℕ). tcp.wire s before ++ l) (sym (take-append_over count first second));
    others = λ t ne. q.others t ne ∙ p.others t ne;
    inbox = λ t. q.inbox t ∙ p.inbox t;
    calm = le_trans q.calm p.calm;
  }

  Pushed-first :
      (s : Socket) (first second : List ℕ) (count : ℕ) (before after : net.Os)
      → count ≤ length first
      → Pushed tcp drains s first count before after
      → Pushed tcp drains s (first ++ second) count before after
  Pushed-first s first second count before after le p = record {
    on_wire =
        p.on_wire
        ∙ ap (λ (l : List ℕ). tcp.wire s before ++ l) (sym (take-append_le count first second le));
    others = p.others;
    inbox = p.inbox;
    calm = p.calm;
  }

  module _ (fuel : ℕ) (s : Socket) (message : List ℕ) (type : ℕ) where
    abbrev header : List ℕ
    header = frame_header (length message) type

    module _ (before : net.Os) where
      after_payload-Ensures :
          (mid : net.Os)
          → Pushed tcp drains s header (length header) before mid
          → (r : Option ℕ) (after : net.Os)
          → SendsAll tcp drains s message (length message) mid r after
          → Ensures (Sends s (header ++ message) before) (after_payload net r after)
      unfolding after_payload
      after_payload-Ensures mid p _ after (all q) = returns (
          whole (
            subst (λ (n : ℕ). Pushed tcp drains s (header ++ message) n before after)
              (sym (length-append header message))
              (Pushed-append s header message (length message) before mid after p q)))
      after_payload-Ensures mid p _ after (part count le q b) = returns (
          cut (length header + count) (omega (arith, length-append header message))
            (Pushed-append s header message count before mid after p q) b)

      after_header-Ensures :
          length message < 2 ^ 31
          → length message + drains.patience before < fuel
          → (r : Option ℕ) (mid : net.Os)
          → SendsAll tcp drains s header (length header) before r mid
          → Ensures
              (Sends s (header ++ message) before)
              (after_header net fuel s message (length message) r mid)
      unfolding after_header
      after_header-Ensures small enough _ mid (all p) =
          let len : int_length (length message) ≡ length message = ground arith in
          rw len (
            Ensures-bind (SendsAll tcp drains s message (length message) mid)
              (robust_send-SendsAll tcp drains fuel s message (length message) mid (le_refl _)
                (omega (arith, p.calm)))
              (after_payload-Ensures mid p))
      after_header-Ensures small enough _ mid (part count le p b) = returns (
          cut count (omega (arith, length-append header message))
            (Pushed-first s header message count before mid le p) b)

    -- Header and message, in two sends.
    header_message-Sends :
        (os : net.Os)
        → length message < 2 ^ 31
        → length header + length message + drains.patience os < fuel
        → Ensures
            (Sends s (header ++ message) os)
            (websocket_frame_send net fuel s message (length message) type os)
    unfolding websocket_frame_send
    header_message-Sends os small enough =
        Ensures-bind (SendsAll tcp drains s header (length header) os)
          (robust_send-SendsAll tcp drains fuel s header (length header) os (le_refl _)
            (omega arith))
          (after_header-Ensures os small (omega arith))

  -- With a peer that reads, `websocket_frame_send` returns, for every message below 2 GB and every
  -- opcode. On success it has put exactly the unmasked frame of RFC 6455 on the connection, and on
  -- failure a prefix of it. No other connection is touched and nothing is read.
  pub websocket_frame_send-Sends :
      (fuel : ℕ) (s : Socket) (message : List ℕ) (type : ℕ) (os : net.Os)
      → type < 16
      → length message < 2 ^ 31
      → length message + 10 + drains.patience os < fuel
      → Ensures
          (Sends s (server_frame type message) os)
          (websocket_frame_send net fuel s message (length message) type os)
  unfolding server_frame
  websocket_frame_send-Sends fuel s message type os ht small enough =
      subst
        (λ (f : List ℕ).
          Ensures (Sends s f os) (websocket_frame_send net fuel s message (length message) type os))
        (ap (λ (h : List ℕ). h ++ message) e)
        (header_message-Sends fuel s message type os small
          (omega (arith, ap length e, length-length_field 0 (length message))))
    where
      e : frame_header (length message) type ≡ (128 + type) ∷ length_field 0 (length message)
      e = frame_header-rfc (length message) type ht (omega arith)
