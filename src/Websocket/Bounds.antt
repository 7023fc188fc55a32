-- ===== src/Websocket/Bounds.antt =====
-- What `websocket_frame_recv` writes into the caller's buffer.
use npacn_fisac.Base.{
  ℕ, suc, ◌-◌, ◌/◌, ◌^◌, bit_and, get_or, ◌≤◌, ◌<◌, ◌≡◌, refl, arith, ap, Bool, true, false, ◌==◌,
  ltb, ltb→le,
}
use npacn_fisac.Base.{Option, List, [], ◌∷◌, length, if◌then◌else◌, Bool-cases, inl, inr}
use npacn_fisac.Base.{
  M, Outcome, return, ◌▷◌, ◌>>=◌, ◌>>◌, Ensures, returns, Keeps, kept, Keeps-after,
}
use npacn_fisac.Winsock.{Socket, Winsock, IsTcp}
use npacn_fisac.Websocket.{ntohs, le_value, swap_uint64}
use npacn_fisac.Websocket.{Frame, disconnected, ignored, text, recv_exact, if_read, deliver, unmask}
use npacn_fisac.Websocket.{
  recv_payload, recv_length, recv_after_header, websocket_frame_recv, websocket_frame_send,
}
use npacn_fisac.Websocket.Reading.{ReadsExactly, exact, failed, recv_exact-ReadsExactly}

-- A text leaves room for its terminator.
abbrev pub IsWithin : ℕ → Frame → Type 0
IsWithin buffer_size (text bytes) = length bytes < buffer_size
IsWithin buffer_size ignored = Unit
IsWithin buffer_size disconnected = Unit

pub length-unmask :
    (key : List ℕ) (i : ℕ) (bytes : List ℕ) → length (unmask key i bytes) ≡ length bytes
unfolding unmask
length-unmask key i [] = refl
length-unmask key i (b ∷ bytes) = ap suc (length-unmask key (suc i) bytes)

module _ {net : Winsock} (tcp : IsTcp net) (fuel : ℕ) (s : Socket) (buffer_size : ℕ) where
  abbrev Within : Outcome net.Os Frame → Type 0
  Within = Keeps (λ (r : Frame) (after : net.Os). IsWithin buffer_size r)

  read_then :
      (len : ℕ) (k : List ℕ → M net.Os Frame) (os : net.Os)
      → ((bytes : List ℕ) (after : net.Os) → length bytes ≡ len → Within (k bytes after))
      → Within (recv_exact net s len os ▷ if_read net k)
  read_then len k os go = continue (recv_exact-ReadsExactly tcp s len os)
    where
      given :
          (r : Option (List ℕ)) (after : net.Os)
          → ReadsExactly tcp s len os r after
          → Within (if_read net k r after)
      given _ after (exact {buf = []} e p) = unfold if_read in kept tt
      given _ after (exact {buf = b ∷ bs} e p) = unfold if_read in go (b ∷ bs) after e
      given _ after (failed p bad) = unfold if_read in kept tt

      continue :
          {o : Outcome net.Os (Option (List ℕ))}
          → Ensures (ReadsExactly tcp s len os) o
          → Within (o ▷ if_read net k)
      continue (returns {a} {s = after} h) = given a after h

  deliver-Within :
      (opcode len : ℕ) (buffer : List ℕ) (os : net.Os)
      → length buffer < buffer_size
      → Within (deliver net fuel s opcode len buffer os)
  unfolding deliver
  deliver-Within opcode len buffer os h = pick (opcode == 9) (opcode == 10) (opcode == 1)
    where
      pong : M net.Os Frame
      pong = websocket_frame_send net fuel s buffer len 10 >> return ignored

      pick :
          (a b c : Bool)
          → Within (
              (if a
                  then pong
                  else if b
                  then return ignored
                  else if c
                  then return (text buffer)
                  else return ignored)
                os)
      pick true b c =
          Keeps-after (websocket_frame_send net fuel s buffer len 10 os) λ u after. kept tt
      pick false true c = kept tt
      pick false false true = kept h
      pick false false false = kept tt

  recv_payload-Within :
      0 < buffer_size
      → (opcode mask len : ℕ) (os : net.Os)
      → Within (recv_payload net fuel s buffer_size opcode mask len os)
  unfolding recv_payload
  recv_payload-Within pos opcode mask len os = elim (Bool-cases (ltb (buffer_size - 1) len)) [
    | inl large ↦ rw large (kept tt)
    | inr fits ↦ rw fits (masked (mask == 0) (ltb→le (buffer_size - 1) len fits))
  ]
    where
      next : Bool → List ℕ → M net.Os Frame
      next plain key =
          recv_exact net s len
          >>= if_read net (λ buffer.
            deliver net fuel s opcode len (if plain then buffer else unmask key 0 buffer))

      body :
          (plain : Bool) (key : List ℕ) (after : net.Os)
          → len ≤ buffer_size - 1
          → Within (next plain key after)
      body true key after le =
          read_then len _ after λ bytes s' e. deliver-Within opcode len bytes s' (omega arith)
      body false key after le = read_then len _ after λ bytes s' e.
          deliver-Within opcode len (unmask key 0 bytes) s'
            (omega (arith, length-unmask key 0 bytes))

      masked :
          (plain : Bool)
          → len ≤ buffer_size - 1
          → Within (
              (if plain then next plain [] else (recv_exact net s 4 >>= if_read net (next plain)))
                os)
      masked true le = body true [] os le
      masked false le = read_then 4 _ os λ key after e. body false key after le

  recv_length-Within :
      (payload_len : ℕ) (k : ℕ → M net.Os Frame) (os : net.Os)
      → ((n : ℕ) (after : net.Os) → Within (k n after))
      → Within (recv_length net s payload_len k os)
  unfolding recv_length
  recv_length-Within payload_len k os go = pick (payload_len == 126) (payload_len == 127)
    where
      two : M net.Os Frame
      two = recv_exact net s 2 >>= if_read net (λ len. k (ntohs (le_value len)))

      eight : M net.Os Frame
      eight = recv_exact net s 8 >>= if_read net (λ len. k (swap_uint64 (le_value len)))

      pick : (a b : Bool) → Within ((if a then two else if b then eight else k payload_len) os)
      pick true b = read_then 2 _ os λ bytes after e. go _ after
      pick false true = read_then 8 _ os λ bytes after e. go _ after
      pick false false = go payload_len os

  recv_after_header-Within :
      0 < buffer_size
      → (header : List ℕ) (os : net.Os)
      → Within (recv_after_header net fuel s buffer_size header os)
  unfolding recv_after_header
  recv_after_header-Within pos header os = pick (bit_and (get_or header 0 0) 0x0F == 8)
    where
      rest : M net.Os Frame
      rest = recv_length net s (bit_and (get_or header 1 0) 0x7F) (λ len.
          recv_payload net fuel s buffer_size (bit_and (get_or header 0 0) 0x0F)
            (bit_and (get_or header 1 0 / 2 ^ 7) 1) len)

      pick : (a : Bool) → Within ((if a then return disconnected else rest) os)
      pick true = kept tt
      pick false =
          recv_length-Within (bit_and (get_or header 1 0) 0x7F) _ os
            λ n after. recv_payload-Within pos _ _ n after

  -- Whatever the peer sends, also a length field that lies: a text that `websocket_frame_recv`
  -- returns is shorter than the caller's buffer, if that has any room, so its terminator fits too.
  pub websocket_frame_recv-IsWithin :
      0 < buffer_size
      → (os : net.Os)
      → Keeps
          (λ (r : Frame) (after : net.Os). IsWithin buffer_size r)
          (websocket_frame_recv net fuel s buffer_size os)
  unfolding websocket_frame_recv
  websocket_frame_recv-IsWithin pos os =
      read_then 2 _ os λ header after e. recv_after_header-Within pos header after
