-- ===== src/Settling/Reading.antt =====
-- Reading a frame ends, and so does answering a ping.
use native.Mathlib.Nat.{le_trans}
use npacn_fisac.Base.{
  ℕ, ◌+◌, ◌≤◌, ◌<◌, ◌≡◌, refl, arith, ◌∙◌, ◌==◌, Bool, true, false, ltb, Bool-cases, ltb→le, inl,
  inr,
}
use npacn_fisac.Base.{Option, none, some, List, [], ◌∷◌, length, if◌then◌else◌, bit_and, get_or}
use npacn_fisac.Base.{M, ◌>>=◌, return-Keep, then-Keep, if-Keep, Ends, Ends-bind, Ensures-Ends}
use npacn_fisac.Winsock.{Socket, Winsock, IsTcp, IsDraining, patience-IsWaning}
use npacn_fisac.Websocket.{Frame, disconnected, ignored, text, unmask, recv_exact, if_read, deliver}
use npacn_fisac.Websocket.{recv_payload, recv_length, recv_after_header, websocket_frame_recv}
use npacn_fisac.Websocket.Reading.{ReadsExactly, exact, failed, recv_exact-ReadsExactly}
use npacn_fisac.Websocket.Bounds.{length-unmask}
use npacn_fisac.Sockets.{HasSockets}
use npacn_fisac.Exchange.{IsApart}
use npacn_fisac.Settling.{Calm, Settles, websocket_frame_send-Settles}

module _ {net : Winsock} {tcp : IsTcp net} {drains : IsDraining net} (apart : IsApart tcp drains)
    (sockets : HasSockets net) (F G : Type 0) (limit fuel : ℕ) (enough : 12300 + limit < fuel) where
  abbrev Fine : {A : Type 0} → M net.Os A → Type 0
  Fine m = Settles apart sockets F G limit fuel enough m

  -- What was read has the length that was asked for.
  abbrev HasLength : ℕ → Option (List ℕ) → Type 0
  HasLength len none = Unit
  HasLength len (some b) = length b ≡ len

  read_then :
      (s : Socket) (len : ℕ) (next : List ℕ → M net.Os Frame)
      → ((b : List ℕ) → length b ≡ len → Fine (next b))
      → Fine (recv_exact net s len >>= if_read net next)
  unfolding if_read
  read_then s len next go os h =
      Ends-bind (λ r after. HasLength len r × Calm drains limit after)
        (Ensures-Ends (recv_exact-ReadsExactly tcp s len os) got) continue
    where
      got :
          (r : Option (List ℕ)) (after : net.Os)
          → ReadsExactly tcp s len os r after
          → HasLength len r × Calm drains limit after
      got _ after (exact e p) = (e, le_trans (p.wanes drains.patience (patience-IsWaning drains)) h)
      got _ after (failed p bad) =
          (tt, le_trans (p.wanes drains.patience (patience-IsWaning drains)) h)

      continue :
          (r : Option (List ℕ)) (after : net.Os)
          → HasLength len r × Calm drains limit after
          → Ends F G (λ f s'. Calm drains limit s') (if_read net next r after)
      continue none after p = return-Keep F G (Calm drains limit) disconnected after p.1
      continue (some []) after p = return-Keep F G (Calm drains limit) disconnected after p.1
      continue (some (b ∷ bs)) after p = go (b ∷ bs) p.0 after p.1

  deliver-Settles :
      (s : Socket) (opcode len : ℕ) (buffer : List ℕ)
      → length buffer ≡ len
      → len ≤ 4095
      → Fine (deliver net fuel s opcode len buffer)
  unfolding deliver
  deliver-Settles s opcode len buffer e le =
      if-Keep F G (Calm drains limit) (opcode == 9) _ _
        (then-Keep F G (Calm drains limit) _ _
          (websocket_frame_send-Settles apart sockets F G limit fuel enough s buffer len 10 e
            (omega arith) (omega arith))
          (return-Keep F G (Calm drains limit) ignored))
        (if-Keep F G (Calm drains limit) (opcode == 10) _ _
          (return-Keep F G (Calm drains limit) ignored)
          (if-Keep F G (Calm drains limit) (opcode == 1) _ _
            (return-Keep F G (Calm drains limit) (text buffer))
            (return-Keep F G (Calm drains limit) ignored)))

  recv_payload-Settles :
      (s : Socket) (opcode mask len : ℕ) → Fine (recv_payload net fuel s 4096 opcode mask len)
  unfolding recv_payload
  recv_payload-Settles s opcode mask len = elim (Bool-cases (ltb 4095 len)) [
    | inl long ↦ rw long (return-Keep F G (Calm drains limit) disconnected)
    | inr short ↦ rw short (
        if-Keep F G (Calm drains limit) (mask == 0) _ _ (rest (ltb→le 4095 len short) [])
          (read_then s 4 _ λ key e. rest (ltb→le 4095 len short) key))
  ]
    where
      unmasked : List ℕ → List ℕ → List ℕ
      unmasked key buffer = if mask == 0 then buffer else unmask key 0 buffer

      length-unmasked :
          (b : Bool) (key buffer : List ℕ)
          → length (if b then buffer else unmask key 0 buffer) ≡ length buffer
      length-unmasked true key buffer = refl
      length-unmasked false key buffer = length-unmask key 0 buffer

      rest :
          len ≤ 4095
          → (key : List ℕ)
          → Fine (
              recv_exact net s len
              >>= if_read net (λ b. deliver net fuel s opcode len (unmasked key b)))
      rest le key = read_then s len _ λ b e.
          deliver-Settles s opcode len (unmasked key b) (length-unmasked (mask == 0) key b ∙ e) le

  recv_length-Settles :
      (s : Socket) (len : ℕ) (next : ℕ → M net.Os Frame)
      → ((n : ℕ) → Fine (next n))
      → Fine (recv_length net s len next)
  unfolding recv_length
  recv_length-Settles s len next go =
      if-Keep F G (Calm drains limit) (len == 126) _ _ (read_then s 2 _ λ b e. go _)
        (if-Keep F G (Calm drains limit) (len == 127) _ _ (read_then s 8 _ λ b e. go _) (go len))

  pub websocket_frame_recv-Settles : (s : Socket) → Fine (websocket_frame_recv net fuel s 4096)
  unfolding websocket_frame_recv recv_after_header
  websocket_frame_recv-Settles s = read_then s 2 _ λ header e.
      if-Keep F G (Calm drains limit) (bit_and (get_or header 0 0) 0x0F == 8) _ _
        (return-Keep F G (Calm drains limit) disconnected)
        (recv_length-Settles s _ _ λ n. recv_payload-Settles s _ _ n)
