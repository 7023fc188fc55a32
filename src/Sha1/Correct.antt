-- ===== src/Sha1/Correct.antt =====
-- The code against the definition of SHA-1.
use npacn_fisac.Base.{ℕ, ◌+◌, ◌-◌, ◌*◌, ◌/◌, ◌%◌, ◌^◌, ◌≤◌, ◌<◌, ◌≡◌, ◌≢◌, refl, arith}
use npacn_fisac.Base.{◌∙◌, ap, ap₂, sym, append_assoc, append-nil, ◌⊎◌, inl, inr}
use npacn_fisac.Base.{some, List, [], ◌∷◌, ◌++◌, length, take, drop, replicate}
use npacn_fisac.Base.{length-drop, length-append}
use npacn_fisac.Base.Slices.{take-append, drop-append, take_all, drop_all}
use npacn_fisac.Sha1.{Sha1Ctx, compress, initial_state, sha1_init, be_bytes, digest_of}
use npacn_fisac.Sha1.{padding, write, sha1, sha1_update, sha1_final}
use npacn_fisac.Sha1.Update.{update_once, absorb_part, absorb_full, counted, loop_end}
use npacn_fisac.Sha1.Final.{final_short, final_long, tail_of, length-padding, length-be_bytes}
use npacn_fisac.Sha1.Final.{padding-append}
use npacn_fisac.Sha1.Blocks.{padded, compress_blocks, sha1_by_blocks}
use npacn_fisac.Sha1.Reference.{sha1_reference, sha1_reference-by_blocks}

module _ (message : List ℕ) where
  abbrev compressed : ℕ → List ℕ → List ℕ
  compressed n bytes = digest_of (compress_blocks n initial_state bytes)

  reference_one :
      (block : List ℕ)
      → padded message ≡ block
      → length block ≡ 64
      → sha1_by_blocks message ≡ digest_of (compress initial_state block)
  unfolding sha1_by_blocks compress_blocks
  reference_one block e h =
      let one : length block / 64 ≡ 1 = omega arith in
      ap (λ (b : List ℕ). compressed (length b / 64) b) e
      ∙ ap (λ (n : ℕ). compressed n block) one
      ∙ ap (λ (b : List ℕ). digest_of (compress initial_state b)) (take_all 64 block (omega arith))

  reference_two :
      (first second : List ℕ)
      → padded message ≡ first ++ second
      → length first ≡ 64
      → length second ≡ 64
      → sha1_by_blocks message ≡ digest_of (compress (compress initial_state first) second)
  unfolding sha1_by_blocks compress_blocks
  reference_two first second e h k =
      let two : length (first ++ second) / 64 ≡ 2 = omega (arith, length-append first second) in
      ap (λ (b : List ℕ). compressed (length b / 64) b) e
      ∙ ap (λ (n : ℕ). compressed n (first ++ second)) two
      ∙ ap₂ (λ (a b : List ℕ). digest_of (compress (compress initial_state a) b))
          (take-append 64 first second h)
          (ap (take 64) (drop-append 64 first second h) ∙ take_all 64 second (omega arith))

  -- The padding of the definition, in the words of the code.
  padded_lem :
      (n : ℕ)
      → length message ≤ 64
      → (119 - length message % 64) % 64 + 1 ≡ n
      → padded message ≡ message ++ padding n ++ tail_of (length message)
  unfolding padded padding
  padded_lem n h e =
      ap₂ (λ (k t : ℕ). message ++ (0x80 ∷ replicate k 0) ++ be_bytes 8 t) (omega arith)
        (omega arith)

  length_padded_tail :
      (n : ℕ)
      → 0 < n
      → length (message ++ padding n ++ tail_of (length message)) ≡ length message + n + 8
  length_padded_tail n h = omega (
    arith,
    length-append (message ++ padding n) (tail_of (length message)),
    length-append message (padding n),
    length-padding n h,
    length-be_bytes 8 (length message * 8 % 2 ^ 64),
  )

module _ (junk : List ℕ) (size : length junk ≡ 64) (beyond : ℕ → ℕ) where
  abbrev stored : List ℕ → Sha1Ctx
  stored message = record {
    block = message ++ drop (length message) junk;
    state = initial_state;
    byte_count = length message;
    buffer_offset = length message;
  }

  -- A message that is shorter than a block is only stored.
  update_short :
      (message : List ℕ)
      → length message < 64
      → sha1_update message beyond (length message) (sha1_init junk) ≡ some (stored message)
  unfolding sha1_update
  update_short [] h = loop_end [] beyond 0 1 0 (sha1_init junk) (omega arith) (omega arith)
  update_short (m ∷ ms) h =
      let message = m ∷ ms in
      let count : (0 + length message) % 2 ^ 64 ≡ length message = omega arith in
      let sum : 0 + length message ≡ length message = omega arith in
      update_once message beyond (sha1_init junk) (omega arith) (omega arith)
      ∙ ap some (absorb_part (counted message beyond (sha1_init junk)) message (omega arith))
      ∙ λ i. some (record {
        block = message ++ drop (sum i) junk;
        state = initial_state;
        byte_count = count i;
        buffer_offset = sum i;
      })

  module _ (beyond_pad : ℕ → ℕ) (message : List ℕ) where
    stored_size : length message < 64 → length (stored message).block ≡ 64
    stored_size h = omega (
      arith,
      length-append message (drop (length message) junk),
      length-drop (length message) junk,
    )

    kept_message : take (length message) (stored message).block ≡ message
    kept_message = take-append (length message) message (drop (length message) junk) refl

    final_of :
        length message < 64
        → sha1 junk beyond beyond_pad message ≡ sha1_final beyond_pad (stored message)
    unfolding sha1
    final_of h = rw (update_short message h, sha1)

    correct_short :
        length message < 56 → sha1 junk beyond beyond_pad message ≡ some (sha1_by_blocks message)
    correct_short h =
        final_of (omega arith)
        ∙ final_short beyond_pad (stored message) (stored_size (omega arith)) h
        ∙ ap
            (λ (m : List ℕ). some (
              digest_of (
                compress initial_state
                  (m ++ padding (56 - length message) ++ tail_of (length message)))))
            kept_message
        ∙ ap some (
            sym (
              reference_one message _
                (padded_lem message (56 - length message) (omega arith) (omega arith))
                (omega (arith, length_padded_tail message (56 - length message) (omega arith)))))

    -- The padding crosses into a second block.
    correct_long :
        56 < length message
        → length message < 64
        → sha1 junk beyond beyond_pad message ≡ some (sha1_by_blocks message)
    correct_long lo hi =
        final_of hi
        ∙ final_long beyond_pad (stored message) (stored_size hi) lo hi
        ∙ ap
            (λ (m : List ℕ). some (
              digest_of (
                compress (compress initial_state (m ++ first))
                  (second ++ tail_of (length message)))))
            kept_message
        ∙ ap some (
            sym (
              reference_two message (message ++ first) _ split
                (omega (arith, length-append message first, first_size))
                (omega (
                  arith,
                  length-append second (tail_of (length message)),
                  length-be_bytes 8 (length message * 8 % 2 ^ 64),
                ))))
      where
        first : List ℕ
        first = padding (64 - length message)

        second : List ℕ
        second = replicate 56 0

        first_size : length first ≡ 64 - length message
        first_size = length-padding (64 - length message) (omega arith)

        split : padded message ≡ (message ++ first) ++ (second ++ tail_of (length message))
        split =
            padded_lem message (64 - length message + 56) (omega arith) (omega arith)
            ∙ ap (λ (p : List ℕ). message ++ p ++ tail_of (length message))
                (padding-append (64 - length message) (omega arith))
            ∙ ap (λ (p : List ℕ). p ++ tail_of (length message))
                (sym (append_assoc message first second))
            ∙ append_assoc (message ++ first) second (tail_of (length message))

    -- The message fills the block, and the padding is a block of its own.
    correct_full :
        length message ≡ 64 → sha1 junk beyond beyond_pad message ≡ some (sha1_by_blocks message)
    unfolding sha1
    correct_full h =
        rw (update, sha1)
          (final_short beyond_pad after head_size (omega arith)
            ∙ ap
                (λ (n : ℕ).
                  some
                    (digest_of (compress (compress initial_state block) (padding 56 ++ tail_of n))))
                count
            ∙ ap₂
                (λ (a : List ℕ) (n : ℕ).
                  some (digest_of (compress (compress initial_state a) (padding 56 ++ tail_of n))))
                whole (sym h)
            ∙ ap some (
                sym (
                  reference_two message message _
                    (padded_lem message 56 (omega arith) (omega arith)
                      ∙ append_assoc message (padding 56) (tail_of (length message)))
                    h
                    (omega (
                      arith,
                      length-append (padding 56) (tail_of (length message)),
                      length-padding 56 (omega arith),
                      length-be_bytes 8 (length message * 8 % 2 ^ 64),
                    )))))
      where
        block : List ℕ
        block = write junk 0 message

        count : (0 + length message) % 2 ^ 64 ≡ 64
        count = omega arith

        after : Sha1Ctx
        after = record {
          block = block;
          state = compress initial_state block;
          byte_count = (0 + length message) % 2 ^ 64;
          buffer_offset = 0;
        }

        update : sha1_update message beyond (length message) (sha1_init junk) ≡ some after
        update =
            update_once message beyond (sha1_init junk) (omega arith) (omega arith)
            ∙ ap some (absorb_full (counted message beyond (sha1_init junk)) message (omega arith))

        whole : block ≡ message
        whole =
            ap (λ (l : List ℕ). message ++ l) (drop_all (0 + length message) junk (omega arith))
            ∙ append-nil message

        head_size : length block ≡ 64
        head_size = ap length whole ∙ h

    -- On messages of at most a block, but for those of 56 bytes, the code computes SHA-1: its result
    -- is the one of RFC 3174, with the constants and functions of the RFC, whatever the block held before
    -- and whatever lies behind the arrays.
    pub sha1-eq-reference :
        length message ≤ 64
        → length message ≢ 56
        → sha1 junk beyond beyond_pad message ≡ some (sha1_reference message)
    sha1-eq-reference le ne =
        elim (position (length message) le ne) [
          | inl short ↦ correct_short short
          | inr (inl (lo, hi)) ↦ correct_long lo hi
          | inr (inr full) ↦ correct_full full
        ]
        ∙ ap some (sym (sha1_reference-by_blocks message))
      where
        position : (n : ℕ) → n ≤ 64 → n ≢ 56 → (n < 56) ⊎ (((56 < n) × (n < 64)) ⊎ (n ≡ 64))
        position n le ne = ground arith
