-- ===== src/Websocket/Words.antt =====
-- The byte swaps of the length fields, on the bytes of a word.
use native.Mathlib.Nat
use npacn_fisac.Base.{ℕ, zero, suc, ◌+◌, ◌*◌, ◌/◌, ◌%◌, ◌^◌, ◌<◌, bit_and, bit_or}
use npacn_fisac.Base.{◌≡◌, refl, arith, ◌∙◌, ap, ap₂, List, [], ◌∷◌, length}
use npacn_fisac.Base.Bits.{bit_and_fields, bit_or_fields, bit_and-mask, bit_and-zero, bit_or-zero}
use npacn_fisac.Base.Bits.{zero-bit_or}
use npacn_fisac.Base.CText.{IsBytes}
use npacn_fisac.Websocket.{le_bytes, le_value, swap_uint64}

-- The number that bytes stand for on the network, most significant byte first.
pub be_value : ℕ → List ℕ → ℕ
be_value acc [] = acc
be_value acc (b ∷ bs) = be_value (acc * 256 + b) bs

zip_with : (ℕ → ℕ → ℕ) → List ℕ → List ℕ → List ℕ
zip_with op (a ∷ as') (b ∷ bs) = op a b ∷ zip_with op as' bs
zip_with op _ _ = []

module _ (op : ℕ → ℕ → ℕ) (nothing : op 0 0 ≡ 0)
    (fields : (k a b r s : ℕ)
      → r < 2 ^ k
      → s < 2 ^ k
      → op (a * 2 ^ k + r) (b * 2 ^ k + s) ≡ op a b * 2 ^ k + op r s) where
  -- An operation on words of as many bytes works byte by byte.
  bytewise :
      (as' bs : List ℕ)
      → IsBytes as'
      → IsBytes bs
      → length as' ≡ length bs
      → op (le_value as') (le_value bs) ≡ le_value (zip_with op as' bs)
  unfolding le_value zip_with
  bytewise [] [] p q e = nothing
  bytewise [] (b ∷ bs) p q e = absurd (omega arith)
  bytewise (a ∷ as') [] p q e = absurd (omega arith)
  bytewise (a ∷ as') (b ∷ bs) p q e =
      ground
        (arith, fields 8 (le_value as') (le_value bs) a b, bytewise as' bs p.1 q.1 (omega arith))

and_bytes :
    (as' bs : List ℕ)
    → IsBytes as'
    → IsBytes bs
    → length as' ≡ length bs
    → bit_and (le_value as') (le_value bs) ≡ le_value (zip_with bit_and as' bs)
and_bytes = bytewise bit_and refl bit_and_fields

or_bytes :
    (as' bs : List ℕ)
    → IsBytes as'
    → IsBytes bs
    → length as' ≡ length bs
    → bit_or (le_value as') (le_value bs) ≡ le_value (zip_with bit_or as' bs)
or_bytes = bytewise bit_or refl bit_or_fields

keep : (b : ℕ) → b < 256 → bit_and b 255 ≡ b
keep b h = omega (arith, bit_and-mask 8 b)

ruleset bytes_laws = (bit_and-zero, bit_or-zero, zero-bit_or)

module _ (b0 b1 b2 b3 b4 b5 b6 b7 : ℕ) where
  abbrev pub word : List ℕ
  word = b0 ∷ b1 ∷ b2 ∷ b3 ∷ b4 ∷ b5 ∷ b6 ∷ b7 ∷ []

  module _ (h : IsBytes word) where
    shift8 : le_value word * 2 ^ 8 % 2 ^ 64 ≡ le_value (0 ∷ b0 ∷ b1 ∷ b2 ∷ b3 ∷ b4 ∷ b5 ∷ b6 ∷ [])
    unfolding le_value
    shift8 = omega arith

    down8 : le_value word / 2 ^ 8 ≡ le_value (b1 ∷ b2 ∷ b3 ∷ b4 ∷ b5 ∷ b6 ∷ b7 ∷ 0 ∷ [])
    unfolding le_value
    down8 = omega arith

    shift16 : le_value word * 2 ^ 16 % 2 ^ 64 ≡ le_value (0 ∷ 0 ∷ b0 ∷ b1 ∷ b2 ∷ b3 ∷ b4 ∷ b5 ∷ [])
    unfolding le_value
    shift16 = omega arith

    down16 : le_value word / 2 ^ 16 ≡ le_value (b2 ∷ b3 ∷ b4 ∷ b5 ∷ b6 ∷ b7 ∷ 0 ∷ 0 ∷ [])
    unfolding le_value
    down16 = omega arith

    shift32 : le_value word * 2 ^ 32 % 2 ^ 64 ≡ le_value (0 ∷ 0 ∷ 0 ∷ 0 ∷ b0 ∷ b1 ∷ b2 ∷ b3 ∷ [])
    unfolding le_value
    shift32 = omega arith

    down32 : le_value word / 2 ^ 32 ≡ le_value (b4 ∷ b5 ∷ b6 ∷ b7 ∷ 0 ∷ 0 ∷ 0 ∷ 0 ∷ [])
    unfolding le_value
    down32 = omega arith

abbrev odd_mask : List ℕ
odd_mask = 0 ∷ 255 ∷ 0 ∷ 255 ∷ 0 ∷ 255 ∷ 0 ∷ 255 ∷ []

abbrev even_mask : List ℕ
even_mask = 255 ∷ 0 ∷ 255 ∷ 0 ∷ 255 ∷ 0 ∷ 255 ∷ 0 ∷ []

abbrev odd_pair_mask : List ℕ
odd_pair_mask = 0 ∷ 0 ∷ 255 ∷ 255 ∷ 0 ∷ 0 ∷ 255 ∷ 255 ∷ []

abbrev even_pair_mask : List ℕ
even_pair_mask = 255 ∷ 255 ∷ 0 ∷ 0 ∷ 255 ∷ 255 ∷ 0 ∷ 0 ∷ []

module _ (b0 b1 b2 b3 b4 b5 b6 b7 : ℕ) (h : IsBytes (word b0 b1 b2 b3 b4 b5 b6 b7)) where
  mask_odd :
      bit_and (le_value (word b0 b1 b2 b3 b4 b5 b6 b7)) 0xFF00FF00FF00FF00
      ≡ le_value (0 ∷ b1 ∷ 0 ∷ b3 ∷ 0 ∷ b5 ∷ 0 ∷ b7 ∷ [])
  unfolding le_value zip_with
  mask_odd =
      and_bytes (word b0 b1 b2 b3 b4 b5 b6 b7) odd_mask h (omega arith) refl
      ∙ ap le_value λ i.
        bit_and-zero b0 i
        ∷ keep b1 (omega arith) i
        ∷ bit_and-zero b2 i
        ∷ keep b3 (omega arith) i
        ∷ bit_and-zero b4 i
        ∷ keep b5 (omega arith) i
        ∷ bit_and-zero b6 i
        ∷ keep b7 (omega arith) i
        ∷ []

  mask_even :
      bit_and (le_value (word b0 b1 b2 b3 b4 b5 b6 b7)) 0x00FF00FF00FF00FF
      ≡ le_value (b0 ∷ 0 ∷ b2 ∷ 0 ∷ b4 ∷ 0 ∷ b6 ∷ 0 ∷ [])
  unfolding le_value zip_with
  mask_even =
      and_bytes (word b0 b1 b2 b3 b4 b5 b6 b7) even_mask h (omega arith) refl
      ∙ ap le_value λ i.
        keep b0 (omega arith) i
        ∷ bit_and-zero b1 i
        ∷ keep b2 (omega arith) i
        ∷ bit_and-zero b3 i
        ∷ keep b4 (omega arith) i
        ∷ bit_and-zero b5 i
        ∷ keep b6 (omega arith) i
        ∷ bit_and-zero b7 i
        ∷ []

  mask_odd_pair :
      bit_and (le_value (word b0 b1 b2 b3 b4 b5 b6 b7)) 0xFFFF0000FFFF0000
      ≡ le_value (0 ∷ 0 ∷ b2 ∷ b3 ∷ 0 ∷ 0 ∷ b6 ∷ b7 ∷ [])
  unfolding le_value zip_with
  mask_odd_pair =
      and_bytes (word b0 b1 b2 b3 b4 b5 b6 b7) odd_pair_mask h (omega arith) refl
      ∙ ap le_value λ i.
        bit_and-zero b0 i
        ∷ bit_and-zero b1 i
        ∷ keep b2 (omega arith) i
        ∷ keep b3 (omega arith) i
        ∷ bit_and-zero b4 i
        ∷ bit_and-zero b5 i
        ∷ keep b6 (omega arith) i
        ∷ keep b7 (omega arith) i
        ∷ []

  mask_even_pair :
      bit_and (le_value (word b0 b1 b2 b3 b4 b5 b6 b7)) 0x0000FFFF0000FFFF
      ≡ le_value (b0 ∷ b1 ∷ 0 ∷ 0 ∷ b4 ∷ b5 ∷ 0 ∷ 0 ∷ [])
  unfolding le_value zip_with
  mask_even_pair =
      and_bytes (word b0 b1 b2 b3 b4 b5 b6 b7) even_pair_mask h (omega arith) refl
      ∙ ap le_value λ i.
        keep b0 (omega arith) i
        ∷ keep b1 (omega arith) i
        ∷ bit_and-zero b2 i
        ∷ bit_and-zero b3 i
        ∷ keep b4 (omega arith) i
        ∷ keep b5 (omega arith) i
        ∷ bit_and-zero b6 i
        ∷ bit_and-zero b7 i
        ∷ []

  join_odd :
      bit_or
        (le_value (0 ∷ b1 ∷ 0 ∷ b3 ∷ 0 ∷ b5 ∷ 0 ∷ b7 ∷ []))
        (le_value (b0 ∷ 0 ∷ b2 ∷ 0 ∷ b4 ∷ 0 ∷ b6 ∷ 0 ∷ []))
      ≡ le_value (word b0 b1 b2 b3 b4 b5 b6 b7)
  unfolding zip_with
  join_odd =
      or_bytes (0 ∷ b1 ∷ 0 ∷ b3 ∷ 0 ∷ b5 ∷ 0 ∷ b7 ∷ []) (b0 ∷ 0 ∷ b2 ∷ 0 ∷ b4 ∷ 0 ∷ b6 ∷ 0 ∷ [])
        (omega arith) (omega arith) refl
      ∙ ap le_value λ i.
        zero-bit_or b0 i
        ∷ bit_or-zero b1 i
        ∷ zero-bit_or b2 i
        ∷ bit_or-zero b3 i
        ∷ zero-bit_or b4 i
        ∷ bit_or-zero b5 i
        ∷ zero-bit_or b6 i
        ∷ bit_or-zero b7 i
        ∷ []

  join_pairs :
      bit_or
        (le_value (0 ∷ 0 ∷ b2 ∷ b3 ∷ 0 ∷ 0 ∷ b6 ∷ b7 ∷ []))
        (le_value (b0 ∷ b1 ∷ 0 ∷ 0 ∷ b4 ∷ b5 ∷ 0 ∷ 0 ∷ []))
      ≡ le_value (word b0 b1 b2 b3 b4 b5 b6 b7)
  unfolding zip_with
  join_pairs =
      or_bytes (0 ∷ 0 ∷ b2 ∷ b3 ∷ 0 ∷ 0 ∷ b6 ∷ b7 ∷ []) (b0 ∷ b1 ∷ 0 ∷ 0 ∷ b4 ∷ b5 ∷ 0 ∷ 0 ∷ [])
        (omega arith) (omega arith) refl
      ∙ ap le_value λ i.
        zero-bit_or b0 i
        ∷ zero-bit_or b1 i
        ∷ bit_or-zero b2 i
        ∷ bit_or-zero b3 i
        ∷ zero-bit_or b4 i
        ∷ zero-bit_or b5 i
        ∷ bit_or-zero b6 i
        ∷ bit_or-zero b7 i
        ∷ []

  join_halves :
      bit_or
        (le_value (0 ∷ 0 ∷ 0 ∷ 0 ∷ b4 ∷ b5 ∷ b6 ∷ b7 ∷ []))
        (le_value (b0 ∷ b1 ∷ b2 ∷ b3 ∷ 0 ∷ 0 ∷ 0 ∷ 0 ∷ []))
      ≡ le_value (word b0 b1 b2 b3 b4 b5 b6 b7)
  unfolding zip_with
  join_halves =
      or_bytes (0 ∷ 0 ∷ 0 ∷ 0 ∷ b4 ∷ b5 ∷ b6 ∷ b7 ∷ []) (b0 ∷ b1 ∷ b2 ∷ b3 ∷ 0 ∷ 0 ∷ 0 ∷ 0 ∷ [])
        (omega arith) (omega arith) refl
      ∙ ap le_value λ i.
        zero-bit_or b0 i
        ∷ zero-bit_or b1 i
        ∷ zero-bit_or b2 i
        ∷ zero-bit_or b3 i
        ∷ bit_or-zero b4 i
        ∷ bit_or-zero b5 i
        ∷ bit_or-zero b6 i
        ∷ bit_or-zero b7 i
        ∷ []

-- For every eight bytes, the three steps of the swap reverse the bytes of the 64-bit word.
pub swap_uint64-le_value :
    (b0 b1 b2 b3 b4 b5 b6 b7 : ℕ)
    → IsBytes (word b0 b1 b2 b3 b4 b5 b6 b7)
    → swap_uint64 (le_value (word b0 b1 b2 b3 b4 b5 b6 b7))
      ≡ le_value (word b7 b6 b5 b4 b3 b2 b1 b0)
unfolding swap_uint64
swap_uint64-le_value b0 b1 b2 b3 b4 b5 b6 b7 h =
    ap (λ v. third (second v)) step1 ∙ ap third step2 ∙ step3
  where
    second : ℕ → ℕ
    second v =
        bit_or (bit_and (v * 2 ^ 16 % 2 ^ 64) 0xFFFF0000FFFF0000)
          (bit_and (v / 2 ^ 16) 0x0000FFFF0000FFFF)

    third : ℕ → ℕ
    third v = bit_or (v * 2 ^ 32 % 2 ^ 64) (v / 2 ^ 32)

    step1 :
        bit_or
          (bit_and (le_value (word b0 b1 b2 b3 b4 b5 b6 b7) * 2 ^ 8 % 2 ^ 64) 0xFF00FF00FF00FF00)
          (bit_and (le_value (word b0 b1 b2 b3 b4 b5 b6 b7) / 2 ^ 8) 0x00FF00FF00FF00FF)
        ≡ le_value (word b1 b0 b3 b2 b5 b4 b7 b6)
    step1 =
        ap₂ (λ a b. bit_or (bit_and a 0xFF00FF00FF00FF00) (bit_and b 0x00FF00FF00FF00FF))
          (shift8 b0 b1 b2 b3 b4 b5 b6 b7 h) (down8 b0 b1 b2 b3 b4 b5 b6 b7 h)
        ∙ ap₂ bit_or (mask_odd 0 b0 b1 b2 b3 b4 b5 b6 (omega arith))
            (mask_even b1 b2 b3 b4 b5 b6 b7 0 (omega arith))
        ∙ join_odd b1 b0 b3 b2 b5 b4 b7 b6 (omega arith)

    step2 :
        second (le_value (word b1 b0 b3 b2 b5 b4 b7 b6)) ≡ le_value (word b3 b2 b1 b0 b7 b6 b5 b4)
    step2 =
        ap₂ (λ a b. bit_or (bit_and a 0xFFFF0000FFFF0000) (bit_and b 0x0000FFFF0000FFFF))
          (shift16 b1 b0 b3 b2 b5 b4 b7 b6 (omega arith))
          (down16 b1 b0 b3 b2 b5 b4 b7 b6 (omega arith))
        ∙ ap₂ bit_or (mask_odd_pair 0 0 b1 b0 b3 b2 b5 b4 (omega arith))
            (mask_even_pair b3 b2 b5 b4 b7 b6 0 0 (omega arith))
        ∙ join_pairs b3 b2 b1 b0 b7 b6 b5 b4 (omega arith)

    step3 :
        third (le_value (word b3 b2 b1 b0 b7 b6 b5 b4)) ≡ le_value (word b7 b6 b5 b4 b3 b2 b1 b0)
    step3 =
        ap₂ bit_or (shift32 b3 b2 b1 b0 b7 b6 b5 b4 (omega arith))
          (down32 b3 b2 b1 b0 b7 b6 b5 b4 (omega arith))
        ∙ join_halves b7 b6 b5 b4 b3 b2 b1 b0 (omega arith)

pub le_bytes-le_value : (bs : List ℕ) → IsBytes bs → le_bytes (length bs) (le_value bs) ≡ bs
unfolding le_bytes le_value
le_bytes-le_value [] h = refl
le_bytes-le_value (b ∷ bs) h =
    let low : (b + 256 * le_value bs) % 256 ≡ b = omega arith in
    let high : (b + 256 * le_value bs) / 256 ≡ le_value bs = omega arith in
    ap₂ ◌∷◌ low (ap (le_bytes (length bs)) high ∙ le_bytes-le_value bs h.1)

pub le_value-le_bytes : (k n : ℕ) → n < 256 ^ k → le_value (le_bytes k n) ≡ n
unfolding le_bytes le_value
le_value-le_bytes zero n h = omega arith
le_value-le_bytes (suc k) n h =
    omega (arith, le_value-le_bytes k (n / 256) (omega (arith, Nat.pow-suc 256 k)))

pub IsBytes-le_bytes : (k n : ℕ) → IsBytes (le_bytes k n)
unfolding le_bytes
IsBytes-le_bytes zero n = tt
IsBytes-le_bytes (suc k) n = (omega arith, IsBytes-le_bytes k (n / 256))

-- The eight bytes of a swapped word, in memory order.
pub le_bytes-swap_uint64 :
    (b0 b1 b2 b3 b4 b5 b6 b7 : ℕ)
    → IsBytes (word b0 b1 b2 b3 b4 b5 b6 b7)
    → le_bytes 8 (swap_uint64 (le_value (word b0 b1 b2 b3 b4 b5 b6 b7)))
      ≡ word b7 b6 b5 b4 b3 b2 b1 b0
le_bytes-swap_uint64 b0 b1 b2 b3 b4 b5 b6 b7 h =
    ap (le_bytes 8) (swap_uint64-le_value b0 b1 b2 b3 b4 b5 b6 b7 h)
    ∙ le_bytes-le_value (word b7 b6 b5 b4 b3 b2 b1 b0) (omega arith)
