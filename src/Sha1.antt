-- ===== src/Sha1.antt =====
-- FISAC1/src/sha1.c and include/sha1.h. Words are numbers below 2 ^ 32. What a read finds beyond the
-- end of its array is a parameter, since the code does read there.
pub mod Update
pub mod Blocks
pub mod Reference
pub mod Final
pub mod Correct
use npacn_fisac.Base.{ℕ, zero, suc, ◌+◌, ◌-◌, ◌*◌, ◌/◌, ◌%◌, ◌^◌, bit_and, bit_or, bit_xor}
use npacn_fisac.Base.{Bool, true, false, ltb, ◌==◌, if◌then◌else◌, Option, none, some}
use npacn_fisac.Base.{List, [], ◌∷◌, ◌++◌, length, get_elem?, get_or, take, drop, replicate}

abbrev pub sha1_block_size : ℕ
sha1_block_size = 64

abbrev pub sha1_digest_size : ℕ
sha1_digest_size = 20

-- `uint32_t state[5]`
pub record State : Type 0 where
  pub s0 : ℕ
  pub s1 : ℕ
  pub s2 : ℕ
  pub s3 : ℕ
  pub s4 : ℕ

pub record Sha1Ctx : Type 0 where
  pub block : List ℕ
  pub state : State
  pub byte_count : ℕ
  pub buffer_offset : ℕ

abbrev pub u32 : ℕ → ℕ
u32 n = n % 2 ^ 32

unfoldable pub rotate_left : ℕ → ℕ → ℕ
rotate_left x n = bit_or (u32 (x * 2 ^ n)) (x / 2 ^ (32 - n))

-- `~b` of a `uint32_t`
abbrev complement : ℕ → ℕ
complement b = 2 ^ 32 - 1 - b

-- The first loop of `sha1_transform`: sixteen words from the bytes of the block.
unfoldable pub load_words : List ℕ → List ℕ
load_words (b0 ∷ b1 ∷ b2 ∷ b3 ∷ bytes) =
    bit_or (bit_or (bit_or (b0 * 2 ^ 24) (b1 * 2 ^ 16)) (b2 * 2 ^ 8)) b3 ∷ load_words bytes
load_words _ = []

-- The second loop, with the number of words still to make and the words so far.
unfoldable pub expand_words : ℕ → List ℕ → List ℕ
unfolding rotate_left
expand_words zero w = w
expand_words (suc left) w =
    let t = length w in
    let x =
      bit_xor (bit_xor (bit_xor (get_or w (t - 3) 0) (get_or w (t - 8) 0)) (get_or w (t - 14) 0))
        (get_or w (t - 16) 0) in
    expand_words left (w ++ (rotate_left x 1 ∷ []))

-- What round `t` adds to `temp`.
unfoldable pub round_term : ℕ → ℕ → ℕ → ℕ → ℕ
round_term t b c d =
    if ltb t 20
    then bit_or (bit_and b c) (bit_and (complement b) d) + 0x5A827999
    else if ltb t 40
    then bit_xor (bit_xor b c) d + 0x6ED9EBA1
    else if ltb t 60
    then bit_or (bit_or (bit_and b c) (bit_and b d)) (bit_and c d) + 0x8F1BBCDC
    else bit_xor (bit_xor b c) d + 0xCA62C1D6

-- The third loop: the rounds for the words that are left, from round `t` on.
unfoldable pub rounds : List ℕ → ℕ → State → State
unfolding rotate_left round_term
rounds [] t s = s
rounds (w ∷ ws) t s =
    let temp = u32 (rotate_left s.s0 5 + s.s4 + w) in
    let temp' = u32 (temp + round_term t s.s1 s.s2 s.s3) in
    rounds ws (t + 1)
      (record { s0 = temp'; s1 = s.s0; s2 = rotate_left s.s1 30; s3 = s.s2; s4 = s.s3 })

-- The state after a block.
unfoldable pub compress : State → List ℕ → State
unfolding load_words expand_words rounds
compress s block =
    let r = rounds (expand_words 64 (load_words block)) 0 s in
    record {
      s0 = u32 (s.s0 + r.s0);
      s1 = u32 (s.s1 + r.s1);
      s2 = u32 (s.s2 + r.s2);
      s3 = u32 (s.s3 + r.s3);
      s4 = u32 (s.s4 + r.s4);
    }

abbrev pub sha1_transform : Sha1Ctx → Sha1Ctx
sha1_transform ctx = record ctx { state = compress ctx.state ctx.block }

abbrev pub initial_state : State
initial_state = record {
  s0 = 0x67452301;
  s1 = 0xEFCDAB89;
  s2 = 0x98BADCFE;
  s3 = 0x10325476;
  s4 = 0xC3D2E1F0;
}

-- The block of a fresh context is whatever the stack held.
abbrev pub sha1_init : List ℕ → Sha1Ctx
sha1_init junk = record { block = junk; state = initial_state; byte_count = 0; buffer_offset = 0 }

-- A read at `i` from an array, where `beyond` is the memory behind it.
abbrev pub byte_at : List ℕ → (ℕ → ℕ) → ℕ → ℕ
byte_at mem beyond i = elim (get_elem? mem i) [ some b ↦ b | none ↦ beyond i ]

abbrev pub read : List ℕ → (ℕ → ℕ) → ℕ → ℕ → List ℕ
read mem beyond i zero = []
read mem beyond i (suc n) = byte_at mem beyond i ∷ read mem beyond (suc i) n

-- `memcpy(block + at, bytes, n)`
abbrev pub write : List ℕ → ℕ → List ℕ → List ℕ
write block at bytes = take at block ++ bytes ++ drop (at + length bytes) block

abbrev pub copy_length : ℕ → ℕ → ℕ
copy_length offset len = let room = sha1_block_size - offset in if ltb len room then len else room

-- One round of the loop of `sha1_update`: copy, and compress a full block.
unfoldable pub absorb : Sha1Ctx → List ℕ → Sha1Ctx
absorb ctx bytes =
    let offset = ctx.buffer_offset + length bytes in
    let ctx' = record ctx {
      block = write ctx.block ctx.buffer_offset bytes;
      buffer_offset = offset;
    } in
    if offset == sha1_block_size then record (sha1_transform ctx') { buffer_offset = 0 } else ctx'

module _ (mem : List ℕ) (beyond : ℕ → ℕ) (len : ℕ) where
  -- The loop at `data + i`. `len` is not counted down, so the last copy can run past the end.
  unfoldable pub update_loop : ℕ → ℕ → Sha1Ctx → Option Sha1Ctx
  update_loop zero i ctx = none
  update_loop (suc fuel) i ctx =
      let n = copy_length ctx.buffer_offset len in
      let rest = update_loop fuel (i + n) (absorb ctx (read mem beyond i n)) in
      if ltb i len then rest else some ctx

  unfoldable pub sha1_update : Sha1Ctx → Option Sha1Ctx
  unfolding update_loop
  sha1_update ctx =
      update_loop (suc len) 0 (record ctx { byte_count = (ctx.byte_count + len) % 2 ^ 64 })

unfoldable pub be_bytes : ℕ → ℕ → List ℕ
be_bytes zero n = []
be_bytes (suc k) n = n / 2 ^ (8 * k) % 256 ∷ be_bytes k n

abbrev pub pad_length : ℕ → ℕ
pad_length offset = if ltb offset 56 then 56 - offset else 120 - offset

unfoldable pub padding : ℕ → List ℕ
padding pad_len = 0x80 ∷ replicate (pad_len - 1) 0

unfoldable pub digest_of : State → List ℕ
unfolding be_bytes
digest_of s =
    be_bytes 4 s.s0 ++ be_bytes 4 s.s1 ++ be_bytes 4 s.s2 ++ be_bytes 4 s.s3 ++ be_bytes 4 s.s4

-- `beyond` is the rest of the `padding` array, which the function does not fill.
unfoldable pub sha1_final : (ℕ → ℕ) → Sha1Ctx → Option (List ℕ)
sha1_final beyond ctx =
    let bit_count = ctx.byte_count * 8 % 2 ^ 64 in
    let pad = padding (pad_length ctx.buffer_offset) in
    elim (sha1_update pad beyond (length pad) ctx) [
      | none ↦ none
      | some c ↦
          let c' = record c { block = write c.block 56 (be_bytes 8 bit_count) } in
          some (digest_of (compress c'.state c'.block))
    ]

-- The three calls in a row, as the handshake makes them.
unfoldable pub sha1 : List ℕ → (ℕ → ℕ) → (ℕ → ℕ) → List ℕ → Option (List ℕ)
sha1 junk beyond beyond_pad message =
    elim (sha1_update message beyond (length message) (sha1_init junk)) [
      | none ↦ none
      | some ctx ↦ sha1_final beyond_pad ctx
    ]
