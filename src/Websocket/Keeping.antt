-- ===== src/Websocket/Keeping.antt =====
-- Sending and receiving frames keeps whatever the calls of the system keep, and does not fault.
use npacn_fisac.Base.{ℕ, zero, suc, ◌+◌, ◌*◌, ◌-◌, ◌==◌, ltb, Option, none, some, bit_and, get_or}
use npacn_fisac.Base.{List, [], ◌∷◌, ◌++◌, length, M, ◌>>=◌, if◌then◌else◌}
use npacn_fisac.Winsock.{Socket, Winsock}
use npacn_fisac.Network.{RecvStatus, bytes, closed, again, broken}
use npacn_fisac.Websocket.{
  after_recv, recv_exact_loop, recv_exact, if_read, after_payload, after_header,
}
use npacn_fisac.Websocket.{
  websocket_frame_send, deliver, recv_payload, recv_length, recv_after_header,
}
use npacn_fisac.Websocket.{
  Frame, disconnected, ignored, text, websocket_frame_recv, frame_header, unmask,
}
use npacn_fisac.Network.Keeping.{AreCallsKept, a_moment, robust_send-Keep, robust_recv-Keep}
use npacn_fisac.Base.{Keep, return-Keep, stuck-Keep, bind-Keep, then-Keep, if-Keep, loop-Keep}

module _ {net : Winsock} (F : Type 0) {I : net.Os → Type 0} (kept : AreCallsKept net I) where
  abbrev Kept : {A : Type 0} → M net.Os A → Type 0
  Kept m = Keep F (Unit {0}) I m

  after_recv-Keep :
      (loop : List ℕ → ℕ → M net.Os (Option (List ℕ))) (buf : List ℕ) (idle : ℕ) (st : RecvStatus)
      → ((b : List ℕ) (n : ℕ) → Kept (loop b n))
      → Kept (after_recv net loop buf idle st)
  unfolding after_recv
  after_recv-Keep loop buf idle (bytes bs) go = go (buf ++ bs) 0
  after_recv-Keep loop buf idle again go =
      if-Keep F (Unit {0}) I (ltb 2000 (idle + 1)) _ _ (return-Keep F (Unit {0}) I none)
        (then-Keep F (Unit {0}) I _ _ (a_moment F kept) (go buf (idle + 1)))
  after_recv-Keep loop buf idle closed go = return-Keep F (Unit {0}) I none
  after_recv-Keep loop buf idle broken go = return-Keep F (Unit {0}) I none

  recv_exact_loop-Keep :
      (fuel : ℕ) (s : Socket) (len : ℕ) (buf : List ℕ) (idle : ℕ)
      → Kept (recv_exact_loop net fuel s len buf idle)
  unfolding recv_exact_loop
  recv_exact_loop-Keep zero s len buf idle = stuck-Keep F (Unit {0}) I tt
  recv_exact_loop-Keep (suc fuel) s len buf idle =
      loop-Keep F (Unit {0}) I (ltb (length buf) len) _ _
        (bind-Keep F (Unit {0}) I _ _ (robust_recv-Keep F kept s (len - length buf))
          λ st. after_recv-Keep _ buf idle st λ b n. recv_exact_loop-Keep fuel s len b n)
        (return-Keep F (Unit {0}) I (some buf))

  recv_exact-Keep : (s : Socket) (len : ℕ) → Kept (recv_exact net s len)
  unfolding recv_exact
  recv_exact-Keep s len = recv_exact_loop-Keep (len * 2001 + 2001) s len [] 0

  if_read-Keep :
      (next : List ℕ → M net.Os Frame) (r : Option (List ℕ))
      → ((b : List ℕ) → Kept (next b))
      → Kept (if_read net next r)
  unfolding if_read
  if_read-Keep next none go = return-Keep F (Unit {0}) I disconnected
  if_read-Keep next (some []) go = return-Keep F (Unit {0}) I disconnected
  if_read-Keep next (some (b ∷ bs)) go = go (b ∷ bs)

  -- Read some bytes and go on with them.
  read_then :
      (s : Socket) (len : ℕ) (next : List ℕ → M net.Os Frame)
      → ((b : List ℕ) → Kept (next b))
      → Kept (recv_exact net s len >>= if_read net next)
  read_then s len next go =
      bind-Keep F (Unit {0}) I _ _ (recv_exact-Keep s len) λ r. if_read-Keep next r go

  pub websocket_frame_send-Keep :
      (fuel : ℕ) (s : Socket) (message : List ℕ) (len type : ℕ)
      → Kept (websocket_frame_send net fuel s message len type)
  unfolding websocket_frame_send after_header after_payload
  websocket_frame_send-Keep fuel s message len type =
      bind-Keep F (Unit {0}) I _ _ (robust_send-Keep F kept fuel s (frame_header len type) _)
        with_header
    where
      with_payload : (r : Option ℕ) → Kept (after_payload net r)
      with_payload none = return-Keep F (Unit {0}) I none
      with_payload (some n) = return-Keep F (Unit {0}) I (some tt)

      with_header : (r : Option ℕ) → Kept (after_header net fuel s message len r)
      with_header none = return-Keep F (Unit {0}) I none
      with_header (some n) =
          bind-Keep F (Unit {0}) I _ _ (robust_send-Keep F kept fuel s message _) with_payload

  deliver-Keep :
      (fuel : ℕ) (s : Socket) (opcode len : ℕ) (buffer : List ℕ)
      → Kept (deliver net fuel s opcode len buffer)
  unfolding deliver
  deliver-Keep fuel s opcode len buffer =
      if-Keep F (Unit {0}) I (opcode == 9) _ _
        (then-Keep F (Unit {0}) I _ _ (websocket_frame_send-Keep fuel s buffer len 10)
          (return-Keep F (Unit {0}) I ignored))
        (if-Keep F (Unit {0}) I (opcode == 10) _ _ (return-Keep F (Unit {0}) I ignored) (
          if-Keep F (Unit {0}) I (opcode == 1) _ _ (return-Keep F (Unit {0}) I (text buffer))
            (return-Keep F (Unit {0}) I ignored)))

  recv_payload-Keep :
      (fuel : ℕ) (s : Socket) (size opcode mask len : ℕ)
      → Kept (recv_payload net fuel s size opcode mask len)
  unfolding recv_payload
  recv_payload-Keep fuel s size opcode mask len =
      if-Keep F (Unit {0}) I (ltb (size - 1) len) _ _ (return-Keep F (Unit {0}) I disconnected)
        (if-Keep F (Unit {0}) I (mask == 0) _ _ (rest []) (read_then s 4 _ rest))
    where
      unmasked : List ℕ → List ℕ → List ℕ
      unmasked key buffer = if mask == 0 then buffer else unmask key 0 buffer

      rest :
          (key : List ℕ)
          → Kept (
              recv_exact net s len
              >>= if_read net (λ b. deliver net fuel s opcode len (unmasked key b)))
      rest key = read_then s len _ λ buffer. deliver-Keep fuel s opcode len (unmasked key buffer)

  recv_length-Keep :
      (s : Socket) (len : ℕ) (next : ℕ → M net.Os Frame)
      → ((n : ℕ) → Kept (next n))
      → Kept (recv_length net s len next)
  unfolding recv_length
  recv_length-Keep s len next go =
      if-Keep F (Unit {0}) I (len == 126) _ _ (read_then s 2 _ λ b. go _)
        (if-Keep F (Unit {0}) I (len == 127) _ _ (read_then s 8 _ λ b. go _) (go len))

  pub websocket_frame_recv-Keep :
      (fuel : ℕ) (s : Socket) (size : ℕ) → Kept (websocket_frame_recv net fuel s size)
  unfolding websocket_frame_recv recv_after_header
  websocket_frame_recv-Keep fuel s size = read_then s 2 _ λ header.
      if-Keep F (Unit {0}) I (bit_and (get_or header 0 0) 0x0F == 8) _ _
        (return-Keep F (Unit {0}) I disconnected)
        (recv_length-Keep s _ _ λ n. recv_payload-Keep fuel s size _ _ n)
