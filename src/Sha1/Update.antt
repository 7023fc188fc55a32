-- ===== src/Sha1/Update.antt =====
-- What one call of `sha1_update` does when its data fits the room that is left in the block.
use native.Mathlib.Nat
use npacn_fisac.Base.{
  ℕ, zero, suc, ◌+◌, ◌-◌, ◌%◌, ◌^◌, ◌≤◌, ◌<◌, ◌≡◌, refl, arith, ◌∙◌, ap, ap₂, sym, subst,
  append_assoc, append-nil,
}
use npacn_fisac.Base.{some, List, [], ◌∷◌, ◌++◌, length, get_elem?}
use npacn_fisac.Base.{lt→ltb, length-append}
use npacn_fisac.Sha1.{Sha1Ctx, compress, read, write, byte_at, absorb, copy_length}
use npacn_fisac.Sha1.{update_loop, sha1_update}

pub length-read : (mem : List ℕ) (beyond : ℕ → ℕ) (i n : ℕ) → length (read mem beyond i n) ≡ n
length-read mem beyond i zero = refl
length-read mem beyond i (suc n) = ap suc (length-read mem beyond (suc i) n)

get_elem?-append :
    (pre rest : List ℕ) (x i : ℕ) → length pre ≡ i → get_elem? (pre ++ (x ∷ rest)) i ≡ some x
get_elem?-append [] rest x zero h = refl
get_elem?-append [] rest x (suc i) h = absurd (omega arith)
get_elem?-append (y ∷ pre) rest x zero h = absurd (omega arith)
get_elem?-append (y ∷ pre) rest x (suc i) h = get_elem?-append pre rest x i (omega arith)

-- A read inside the array sees the array.
pub read-middle :
    (pre xs post : List ℕ) (beyond : ℕ → ℕ) (i : ℕ)
    → length pre ≡ i
    → read (pre ++ (xs ++ post)) beyond i (length xs) ≡ xs
read-middle pre [] post beyond i h = refl
read-middle pre (x ∷ xs) post beyond i h =
    ap₂ ◌∷◌ (rw (get_elem?-append pre (xs ++ post) x i h, byte_at)) (
      subst (λ (l : List ℕ). read l beyond (suc i) (length xs) ≡ xs)
        (append_assoc pre (x ∷ []) (xs ++ post))
        (read-middle (pre ++ (x ∷ [])) xs post beyond (suc i)
          (omega (arith, length-append pre (x ∷ [])))))

pub read_all : (mem : List ℕ) (beyond : ℕ → ℕ) → read mem beyond 0 (length mem) ≡ mem
read_all mem beyond = rw append-nil at (read-middle [] mem [] beyond 0 refl)

pub read-append :
    (mem : List ℕ) (beyond : ℕ → ℕ) (i n k : ℕ)
    → read mem beyond i (n + k) ≡ read mem beyond i n ++ read mem beyond (i + n) k
read-append mem beyond i zero k = rw (Nat.zero-add, Nat.add-zero)
read-append mem beyond i (suc n) k =
    rw (Nat.suc-add, Nat.add-suc)
      (ap (λ t. byte_at mem beyond i ∷ t) (rw Nat.suc-add at (read-append mem beyond (suc i) n k)))

module _ (mem : List ℕ) (beyond : ℕ → ℕ) (len : ℕ) where
  pub loop_end :
      (fuel i : ℕ) (ctx : Sha1Ctx)
      → 0 < fuel
      → len ≤ i
      → update_loop mem beyond len fuel i ctx ≡ some ctx
  unfolding update_loop
  loop_end zero i ctx pos h = absurd (omega arith)
  loop_end (suc fuel) i ctx pos h = ground arith

  pub loop_next :
      (fuel more i n : ℕ) (ctx : Sha1Ctx)
      → fuel ≡ suc more
      → i < len
      → copy_length ctx.buffer_offset len ≡ n
      → update_loop mem beyond len fuel i ctx
        ≡ update_loop mem beyond len more (i + n) (absorb ctx (read mem beyond i n))
  unfolding update_loop
  loop_next fuel more i n ctx enough h e = rw enough (
      rw (lt→ltb i len h) (
        ap (λ (k : ℕ). update_loop mem beyond len more (i + k) (absorb ctx (read mem beyond i k)))
          e))

-- Bytes that leave room in the block are only stored.
pub absorb_part :
    (ctx : Sha1Ctx) (bytes : List ℕ)
    → ctx.buffer_offset + length bytes < 64
    → absorb ctx bytes ≡ record ctx {
      block = write ctx.block ctx.buffer_offset bytes;
      buffer_offset = ctx.buffer_offset + length bytes;
    }
unfolding absorb
absorb_part ctx bytes h = ground arith

-- Bytes that fill the block are compressed with it.
pub absorb_full :
    (ctx : Sha1Ctx) (bytes : List ℕ)
    → ctx.buffer_offset + length bytes ≡ 64
    → absorb ctx bytes ≡ record ctx {
      block = write ctx.block ctx.buffer_offset bytes;
      state = compress ctx.state (write ctx.block ctx.buffer_offset bytes);
      buffer_offset = 0;
    }
unfolding absorb
absorb_full ctx bytes h = ground arith

copy_all : (offset len : ℕ) → offset + len ≤ 64 → copy_length offset len ≡ len
copy_all offset len h = ground arith

copy_room : (offset len : ℕ) → 64 ≤ offset + len → copy_length offset len ≡ 64 - offset
copy_room offset len h = ground arith

module _ (mem : List ℕ) (beyond : ℕ → ℕ) (ctx : Sha1Ctx) where
  abbrev pub counted : Sha1Ctx
  counted = record ctx { byte_count = (ctx.byte_count + length mem) % 2 ^ 64 }

  -- Data that is not longer than the room goes in with one copy.
  pub update_once :
      0 < length mem
      → ctx.buffer_offset + length mem ≤ 64
      → sha1_update mem beyond (length mem) ctx ≡ some (absorb counted mem)
  unfolding sha1_update
  update_once pos fits =
      loop_next mem beyond (length mem) (suc (length mem)) (length mem) 0 (length mem) counted refl
        pos (copy_all ctx.buffer_offset (length mem) fits)
      ∙ loop_end mem beyond (length mem) (length mem) (0 + length mem) _ pos (omega arith)
      ∙ ap (λ (l : List ℕ). some (absorb counted l)) (read_all mem beyond)

module _ (first second : List ℕ) (beyond : ℕ → ℕ) (pos : 0 < length second) where
  abbrev both : List ℕ
  both = first ++ second

  halves-length : length both ≡ length first + length second
  halves-length = length-append first second

  read_first : read both beyond 0 (length first) ≡ first
  read_first = read-middle [] first second beyond 0 refl

  read_second :
      read both beyond (length first) (length both)
      ≡ second ++ read both beyond (length both) (length first)
  read_second =
      ap (read both beyond (length first)) (halves-length ∙ Nat.add_comm _ _)
      ∙ read-append both beyond (length first) (length second) (length first)
      ∙ ap₂ ◌++◌
          (subst (λ (l : List ℕ). read l beyond (length first) (length second) ≡ second)
            (ap (λ (l : List ℕ). first ++ l) (append-nil second))
            (read-middle first second [] beyond (length first) refl))
          (ap (λ (i : ℕ). read both beyond i (length first)) (sym halves-length))

  -- Data that is longer than the room, but short enough, takes two copies. The second asks for
  -- the length of all data again, so the last of its bytes stand behind the array.
  pub update_twice :
      (ctx : Sha1Ctx)
      → ctx.buffer_offset + length first ≡ 64
      → 0 < length first
      → length both < 64
      → sha1_update both beyond (length both) ctx
        ≡ some (
            absorb
              (absorb (counted both beyond ctx) first)
              (second ++ read both beyond (length both) (length first)))
  unfolding sha1_update
  update_twice ctx room pos' short =
      loop_next both beyond (length both) (suc (length both)) (length both) 0 (length first)
        (counted both beyond ctx) refl (omega (arith, halves-length))
        (copy_room ctx.buffer_offset (length both) (omega (arith, halves-length)) ∙ omega arith)
      ∙ ap
          (λ (l : List ℕ).
            update_loop both beyond (length both) (length both) (0 + length first)
              (absorb (counted both beyond ctx) l))
          read_first
      ∙ loop_next both beyond (length both) (length both) (length both - 1) (0 + length first)
          (length both) full (omega (arith, halves-length)) (omega (arith, halves-length))
          (rw (absorb_full (counted both beyond ctx) first room)
            (copy_all 0 (length both) (omega arith)))
      ∙ loop_end both beyond (length both) (length both - 1) _ _ (omega (arith, halves-length))
          (omega (arith, halves-length))
      ∙ ap (λ (l : List ℕ). some (absorb full l)) (rw Nat.zero-add read_second)
    where
      full : Sha1Ctx
      full = absorb (counted both beyond ctx) first
