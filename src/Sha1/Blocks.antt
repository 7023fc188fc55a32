-- ===== src/Sha1/Blocks.antt =====
-- SHA-1 over whole blocks, with the code's compression of a block.
use npacn_fisac.Base.{ℕ, zero, suc, ◌-◌, ◌*◌, ◌/◌, ◌%◌}
use npacn_fisac.Base.{List, ◌∷◌, ◌++◌, length, take, drop, replicate}
use npacn_fisac.Sha1.{State, compress, initial_state, be_bytes, digest_of}

-- The message, a bit 1, zeros up to eight bytes before the end of a block, and the length in bits.
unfoldable pub padded : List ℕ → List ℕ
padded message =
    message
    ++ (0x80 ∷ replicate ((119 - length message % 64) % 64) 0)
    ++ be_bytes 8 (length message * 8)

unfoldable pub compress_blocks : ℕ → State → List ℕ → State
compress_blocks zero s bytes = s
compress_blocks (suc n) s bytes = compress_blocks n (compress s (take 64 bytes)) (drop 64 bytes)

unfoldable pub sha1_by_blocks : List ℕ → List ℕ
sha1_by_blocks message =
    let bytes = padded message in
    digest_of (compress_blocks (length bytes / 64) initial_state bytes)
