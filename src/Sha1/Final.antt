-- ===== src/Sha1/Final.antt =====
-- What `sha1_final` compresses, by the place in the block where the message ends.
use native.Mathlib.Nat
use npacn_fisac.Base.{
  ℕ, zero, suc, ◌+◌, ◌-◌, ◌*◌, ◌%◌, ◌^◌, ◌≤◌, ◌<◌, ◌≡◌, refl, arith, ◌∙◌, ap, ap₂,
}
use npacn_fisac.Base.{append-nil}
use npacn_fisac.Base.{some, List, ◌∷◌, ◌++◌, length, take, drop, replicate}
use npacn_fisac.Base.{lt→ltb, length-take, length-drop, length-append, length-replicate}
use npacn_fisac.Base.Slices.{take-append, drop_all, take-append_le}
use npacn_fisac.Sha1.{Sha1Ctx, compress, read, write, absorb, be_bytes, digest_of}
use npacn_fisac.Sha1.{padding, pad_length, sha1_update, sha1_final}
use npacn_fisac.Sha1.Update.{
  update_once, update_twice, absorb_part, absorb_full, counted, length-read,
}

pub length-be_bytes : (k n : ℕ) → length (be_bytes k n) ≡ k
unfolding be_bytes
length-be_bytes zero n = refl
length-be_bytes (suc k) n = ap suc (length-be_bytes k n)

length-write :
    (block bytes : List ℕ) (at : ℕ)
    → at + length bytes ≤ length block
    → length (write block at bytes) ≡ length block
length-write block bytes at h = omega (
  arith,
  length-append (take at block ++ bytes) (drop (at + length bytes) block),
  length-append (take at block) bytes,
  length-take at block,
  length-drop (at + length bytes) block,
)

-- Writing the last eight bytes of a block of 64.
write_tail :
    (block tail : List ℕ)
    → length block ≡ 64
    → length tail ≡ 8
    → write block 56 tail ≡ take 56 block ++ tail
write_tail block tail h k =
    rw (drop_all (56 + length tail) block (omega arith)) (append-nil (take 56 block ++ tail))

abbrev pub tail_of : ℕ → List ℕ
tail_of n = be_bytes 8 (n * 8 % 2 ^ 64)

-- The digest, once `sha1_update` has taken the padding in.
final_from :
    (beyond : ℕ → ℕ) (ctx c : Sha1Ctx)
    → sha1_update
        (padding (pad_length ctx.buffer_offset))
        beyond
        (length (padding (pad_length ctx.buffer_offset)))
        ctx
      ≡ some c
    → length c.block ≡ 64
    → sha1_final beyond ctx
      ≡ some (digest_of (compress c.state (take 56 c.block ++ tail_of ctx.byte_count)))
unfolding sha1_final
final_from beyond ctx c e full =
    rw (e, sha1_final)
      (ap (λ (b : List ℕ). some (digest_of (compress c.state b)))
        (write_tail c.block (tail_of ctx.byte_count) full (length-be_bytes 8 _)))

pub length-padding : (n : ℕ) → 0 < n → length (padding n) ≡ n
unfolding padding
length-padding n h = omega (arith, length-replicate {A = ℕ} (n - 1) 0)

replicate-append : (n k a : ℕ) → replicate (n + k) a ≡ replicate n a ++ replicate k a
replicate-append zero k a = rw Nat.zero-add
replicate-append (suc n) k a = rw Nat.suc-add (ap (λ t. a ∷ t) (replicate-append n k a))

-- Long padding, split where the block ends.
pub padding-append : (n : ℕ) → 0 < n → padding (n + 56) ≡ padding n ++ replicate 56 0
unfolding padding
padding-append n h =
    ap (λ t. 0x80 ∷ t) (ap (λ (k : ℕ). replicate k 0) (omega arith) ∙ replicate-append (n - 1) 56 0)

module _ (beyond : ℕ → ℕ) (ctx : Sha1Ctx) (full : length ctx.block ≡ 64) where
  abbrev used : ℕ
  used = ctx.buffer_offset

  abbrev kept : List ℕ
  kept = take used ctx.block

  length-kept : used ≤ 64 → length kept ≡ used
  length-kept h = omega (arith, length-take used ctx.block)

  -- There is room for the length: one more block.
  pub final_short :
      used < 56
      → sha1_final beyond ctx
        ≡ some
            (digest_of (compress ctx.state (kept ++ padding (56 - used) ++ tail_of ctx.byte_count)))
  final_short h =
      final_from beyond ctx c taken (length-write ctx.block pad used (omega (arith, size)) ∙ full)
      ∙ ap (λ (b : List ℕ). some (digest_of (compress ctx.state (b ++ tail_of ctx.byte_count))))
          (take-append 56 (kept ++ pad) _
            (omega (arith, length-append kept pad, length-kept (omega arith), size)))
    where
      pad : List ℕ
      pad = padding (56 - used)

      c : Sha1Ctx
      c = record ctx {
        byte_count = (ctx.byte_count + length pad) % 2 ^ 64;
        block = write ctx.block used pad;
        buffer_offset = used + length pad;
      }

      size : length pad ≡ 56 - used
      size = length-padding (56 - used) (omega arith)

      short : pad_length used ≡ 56 - used
      short = rw (lt→ltb used 56 h)

      taken :
          sha1_update (padding (pad_length used)) beyond (length (padding (pad_length used))) ctx
          ≡ some c
      taken = rw short (
          update_once pad beyond ctx (omega (arith, size)) (omega (arith, size))
          ∙ ap some (absorb_part (counted pad beyond ctx) pad (omega (arith, size))))

  -- There is no room for the length: the block is filled up, and the length ends another one. The
  -- bytes that the code reads behind the padding are overwritten by the length.
  pub final_long :
      56 < used
      → used < 64
      → sha1_final beyond ctx
        ≡ some (
            digest_of (
              compress
                (compress ctx.state (kept ++ padding (64 - used)))
                (replicate 56 0 ++ tail_of ctx.byte_count)))
  final_long lo hi =
      final_from beyond ctx c taken (
        length-write c'.block (second ++ garbage) 0 (omega (arith, tail_size, head_size))
        ∙ head_size)
      ∙ ap₂
          (λ (a b : List ℕ).
            some (digest_of (compress (compress ctx.state a) (b ++ tail_of ctx.byte_count))))
          (ap (λ (b : List ℕ). kept ++ first ++ b)
              (drop_all (used + length first) ctx.block (omega (arith, size)))
            ∙ append-nil (kept ++ first))
          (take-append_le 56 (second ++ garbage) (drop (0 + length (second ++ garbage)) c'.block)
              (omega (arith, tail_size))
            ∙ take-append 56 second garbage refl)
    where
      first : List ℕ
      first = padding (64 - used)

      second : List ℕ
      second = replicate 56 0

      garbage : List ℕ
      garbage = read (first ++ second) beyond (length (first ++ second)) (length first)

      size : length first ≡ 64 - used
      size = length-padding (64 - used) (omega arith)

      both_size : length (first ++ second) ≡ 120 - used
      both_size = omega (arith, length-append first second, size)

      tail_size : length (second ++ garbage) ≡ 120 - used
      tail_size = omega (
        arith,
        length-append second garbage,
        length-read (first ++ second) beyond (length (first ++ second)) (length first),
        size,
      )

      c' : Sha1Ctx
      c' = record ctx {
        byte_count = (ctx.byte_count + length (first ++ second)) % 2 ^ 64;
        block = write ctx.block used first;
        state = compress ctx.state (write ctx.block used first);
        buffer_offset = 0;
      }

      c : Sha1Ctx
      c = record c' {
        block = write c'.block 0 (second ++ garbage);
        buffer_offset = 0 + length (second ++ garbage);
      }

      head_size : length c'.block ≡ 64
      head_size = length-write ctx.block first used (omega (arith, size)) ∙ full

      long : padding (pad_length used) ≡ first ++ second
      long = ap padding (ground arith) ∙ padding-append (64 - used) (omega arith)

      filled : absorb (counted (first ++ second) beyond ctx) first ≡ c'
      filled = absorb_full (counted (first ++ second) beyond ctx) first (omega (arith, size))

      taken :
          sha1_update (padding (pad_length used)) beyond (length (padding (pad_length used))) ctx
          ≡ some c
      taken = rw long (
          update_twice first second beyond (omega arith) ctx (omega (arith, size))
            (omega (arith, size)) (omega (arith, both_size))
          ∙ ap (λ (x : Sha1Ctx). some (absorb x (second ++ garbage))) filled
          ∙ ap some (absorb_part c' (second ++ garbage) (omega (arith, tail_size))))
