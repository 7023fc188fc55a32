-- ===== src/Websocket.antt =====
-- FISAC1/src/websocket.c: exact reads, and the frames of RFC 6455 in both directions. The handshake
-- is in Handshake.antt.
pub mod Keeping
pub mod Words
pub mod Reading
pub mod Rfc
pub mod SendFrame
pub mod RecvFrame
pub mod Frames
pub mod Closing
pub mod Bounds
use npacn_fisac.Base.{ℕ, zero, suc, ◌+◌, ◌-◌, ◌*◌, ◌/◌, ◌%◌, ◌^◌, bit_and, bit_or, bit_xor}
use npacn_fisac.Base.{Bool, ltb, leb, ◌==◌, if◌then◌else◌, Option, none, some}
use npacn_fisac.Base.{List, [], ◌∷◌, ◌++◌, length, get_or}
use npacn_fisac.Base.{M, return, stuck, perform, ◌>>=◌, ◌>>◌}
use npacn_fisac.Winsock.{Socket, Winsock}
use npacn_fisac.Network.{RecvStatus, bytes, closed, again, broken, robust_recv, robust_send}

-- The byte order of the host is little-endian, as on every Windows machine.
unfoldable pub le_bytes : ℕ → ℕ → List ℕ
le_bytes zero n = []
le_bytes (suc k) n = n % 256 ∷ le_bytes k (n / 256)

unfoldable pub le_value : List ℕ → ℕ
le_value [] = 0
le_value (b ∷ bs) = b + 256 * le_value bs

-- `ntohs` and `htons`
unfoldable pub ntohs : ℕ → ℕ
ntohs n = n % 256 * 256 + n / 256 % 256

abbrev shl64 : ℕ → ℕ → ℕ
shl64 n k = n * 2 ^ k % 2 ^ 64

unfoldable pub swap_uint64 : ℕ → ℕ
swap_uint64 val =
    let val1 =
      bit_or (bit_and (shl64 val 8) 0xFF00FF00FF00FF00)
        (bit_and (val / 2 ^ 8) 0x00FF00FF00FF00FF) in
    let val2 =
      bit_or (bit_and (shl64 val1 16) 0xFFFF0000FFFF0000)
        (bit_and (val1 / 2 ^ 16) 0x0000FFFF0000FFFF) in
    bit_or (shl64 val2 32) (val2 / 2 ^ 32)

-- What follows on the conversion `(int)n` where a loop counts up to it: a negative number is
-- reached at once, as 0 is.
abbrev pub int_length : ℕ → ℕ
int_length n = if ltb (n % 2 ^ 32) (2 ^ 31) then n % 2 ^ 32 else 0

-- The results of `websocket_frame_recv`: -1, 0, and the length of the text in the buffer.
pub data Frame : Type 0 where
  disconnected ignored : Frame
  text : List ℕ → Frame

unfoldable pub unmask : List ℕ → ℕ → List ℕ → List ℕ
unmask masking_key i [] = []
unmask masking_key i (b ∷ buffer) =
    bit_xor b (get_or masking_key (i % 4) 0) ∷ unmask masking_key (suc i) buffer

unfoldable pub frame_header : ℕ → ℕ → List ℕ
frame_header len type =
    let first = bit_or 0x80 (bit_and type 0x0F) in
    if leb len 125
    then first ∷ len % 256 ∷ []
    else if leb len 65535
    then first ∷ 126 ∷ le_bytes 2 (ntohs (len % 2 ^ 16))
    else first ∷ 127 ∷ le_bytes 8 (swap_uint64 len)

module _ (net : Winsock) where
  open net use {Os, sleep}

  -- The body of the loop of `recv_exact` after its call of `robust_recv`.
  unfoldable pub after_recv :
      (List ℕ → ℕ → M Os (Option (List ℕ))) → List ℕ → ℕ → RecvStatus → M Os (Option (List ℕ))
  after_recv loop buf idle_retries (bytes bs) = loop (buf ++ bs) 0
  after_recv loop buf idle_retries again =
      if ltb 2000 (idle_retries + 1)
      then return none
      else (perform (sleep 1) >> loop buf (idle_retries + 1))
  after_recv loop buf idle_retries _ = return none

  -- The loop, with the bytes read so far; `none` is the result -1.
  unfoldable pub recv_exact_loop : ℕ → Socket → ℕ → List ℕ → ℕ → M Os (Option (List ℕ))
  recv_exact_loop zero client_sock len buf idle_retries os = stuck
  recv_exact_loop (suc fuel) client_sock len buf idle_retries os =
      let step =
        robust_recv net client_sock (len - length buf)
        >>= after_recv (λ b n. recv_exact_loop fuel client_sock len b n) buf idle_retries in
      if ltb (length buf) len then step os else return (some buf) os

  -- Each byte takes at most 2000 retries and a read, so this fuel is enough. The accepted sockets block
  -- without a timeout: a `recv` that then never returns is outside the model, as every call returns here.
  unfoldable pub recv_exact : Socket → ℕ → M Os (Option (List ℕ))
  recv_exact client_sock len = recv_exact_loop (len * 2001 + 2001) client_sock len [] 0

  -- `if (recv_exact(...) <= 0) return -1;`: also a read of no bytes returns 0.
  unfoldable pub if_read : (List ℕ → M Os Frame) → Option (List ℕ) → M Os Frame
  if_read next none = return disconnected
  if_read next (some []) = return disconnected
  if_read next (some (b ∷ bs)) = next (b ∷ bs)

  unfoldable pub after_payload : Option ℕ → M Os (Option (Unit {0}))
  after_payload none = return none
  after_payload (some n) = return (some tt)

  unfoldable pub after_header : ℕ → Socket → List ℕ → ℕ → Option ℕ → M Os (Option (Unit {0}))
  after_header fuel client_sock message len none = return none
  after_header fuel client_sock message len (some n) =
      robust_send net fuel client_sock message (int_length len) >>= after_payload

  -- `some tt` is the result 0 and `none` the result -1.
  unfoldable pub websocket_frame_send : ℕ → Socket → List ℕ → ℕ → ℕ → M Os (Option (Unit {0}))
  websocket_frame_send fuel client_sock message len type =
      let header = frame_header len type in
      robust_send net fuel client_sock header (length header)
      >>= after_header fuel client_sock message len

  -- What becomes of a payload that was read: pings are answered, and only text is passed on.
  unfoldable pub deliver : ℕ → Socket → ℕ → ℕ → List ℕ → M Os Frame
  deliver fuel client_sock opcode payload_len buffer =
      if opcode == 9
      then (websocket_frame_send fuel client_sock buffer payload_len 10 >> return ignored)
      else if opcode == 10
      then return ignored
      else if opcode == 1
      then return (text buffer)
      else return ignored

  -- From the length on: the limit, the masking key, the payload.
  unfoldable pub recv_payload : ℕ → Socket → ℕ → ℕ → ℕ → ℕ → M Os Frame
  recv_payload fuel client_sock buffer_size opcode mask payload_len =
      let next = λ (masking_key : List ℕ).
        recv_exact client_sock payload_len
        >>= if_read (λ buffer.
          deliver fuel client_sock opcode payload_len
            (if mask == 0 then buffer else unmask masking_key 0 buffer)) in
      if ltb (buffer_size - 1) payload_len
      then return disconnected
      else if mask == 0
      then next []
      else (recv_exact client_sock 4 >>= if_read next)

  unfoldable pub recv_length : Socket → ℕ → (ℕ → M Os Frame) → M Os Frame
  recv_length client_sock payload_len next =
      if payload_len == 126
      then (recv_exact client_sock 2 >>= if_read (λ len. next (ntohs (le_value len))))
      else if payload_len == 127
      then (recv_exact client_sock 8 >>= if_read (λ len. next (swap_uint64 (le_value len))))
      else next payload_len

  -- What is done with the first two bytes.
  unfoldable pub recv_after_header : ℕ → Socket → ℕ → List ℕ → M Os Frame
  recv_after_header fuel client_sock buffer_size header =
      let opcode = bit_and (get_or header 0 0) 0x0F in
      let mask = bit_and (get_or header 1 0 / 2 ^ 7) 1 in
      let payload_len = bit_and (get_or header 1 0) 0x7F in
      if opcode == 8
      then return disconnected
      else recv_length client_sock payload_len
          (λ len. recv_payload fuel client_sock buffer_size opcode mask len)

  unfoldable pub websocket_frame_recv : ℕ → Socket → ℕ → M Os Frame
  websocket_frame_recv fuel client_sock buffer_size =
      recv_exact client_sock 2 >>= if_read (recv_after_header fuel client_sock buffer_size)
