-- ===== src/Base64/Decoding.antt =====
-- Base64 read back by the description of RFC 4648: four characters stand for 24 bits, and `=` fills
-- the last group.
use npacn_fisac.Base.{
  ℕ, ◌+◌, ◌-◌, leb, ◌*◌, ◌/◌, ◌%◌, ◌^◌, ◌<◌, bit_and, bit_or, ◌≡◌, refl, ap, ap₂, ◌∙◌,
}
use npacn_fisac.Base.{Bool, true, false, ◌&&◌, not, Option, none, some, List, [], ◌∷◌, arith}
use npacn_fisac.Base.{◌==◌, if◌then◌else◌, length, passes_under, passes_under_lem}
use npacn_fisac.Base.Bits.{bit_and-mask, bit_or-glue}
use npacn_fisac.Base.CText.{IsBytes}
use npacn_fisac.Base64.{base64_char, base64_encode}

-- The value of a character: A to Z are 0 to 25, a to z are 26 to 51, 0 to 9 are 52 to 61, then + and /.
place : ℕ → Option ℕ
place c =
    if leb 65 c && leb c 90
    then some (c - 65)
    else if leb 97 c && leb c 122
    then some (c - 71)
    else if leb 48 c && leb c 57
    then some (c + 4)
    else if c == b'+'
    then some 62
    else if c == b'/'
    then some 63
    else none

infixl 5 ◌>>=◌
abbrev ◌>>=◌ {ℓ κ} : {A : Type ℓ} {B : Type κ} → Option A → (A → Option B) → Option B
none >>= f = none
some a >>= f = f a

-- One group of four characters, with the bytes of the groups behind it.
decode_group : ℕ → ℕ → ℕ → ℕ → Option (List ℕ) → Option (List ℕ)
decode_group w x y z more = do
  a ← place w
  b ← place x
  let first = a * 4 + b / 16
  if y == b'=' then some (first ∷ []) else do
    c ← place y
    let second = b % 16 * 16 + c / 4
    if z == b'='
        then some (first ∷ second ∷ [])
        else do d ← place z; bytes ← more; some (first ∷ second ∷ (c % 4 * 64 + d) ∷ bytes)

pub decode : List ℕ → Option (List ℕ)
decode [] = some []
decode (w ∷ x ∷ y ∷ z ∷ rest) = decode_group w x y z (decode rest)
decode _ = none

is_placed : Option ℕ → ℕ → Bool
is_placed none i = false
is_placed (some j) i = j == i

good_char : ℕ → Bool
good_char i = is_placed (place (base64_char i)) i && not (base64_char i == b'=')

table : passes_under good_char 64 ≡ true
unfolding good_char is_placed place base64_char
table = refl

is_placed_sound : (o : Option ℕ) (i : ℕ) → is_placed o i ≡ true → o ≡ some i
unfolding is_placed
is_placed_sound none i h = cc
is_placed_sound (some j) i h = ground arith

-- Each of the 64 characters is found at its own place, and none of them is the filler.
place-char : (i : ℕ) → i < 64 → place (base64_char i) ≡ some i
unfolding good_char
place-char i h = is_placed_sound _ i (ground (arith, passes_under_lem good_char 64 i h table))

char-ne-filler : (i : ℕ) → i < 64 → (base64_char i == b'=') ≡ false
unfolding good_char
char-ne-filler i h = ground (arith, passes_under_lem good_char 64 i h table)

module _ (a b : ℕ) (ha : a < 64) (hb : b < 64) (more : Option (List ℕ)) where
  decode_group_one :
      decode_group (base64_char a) (base64_char b) b'=' b'=' more ≡ some ((a * 4 + b / 16) ∷ [])
  unfolding decode_group
  decode_group_one = rw (place-char a ha, place-char b hb)

  module _ (c : ℕ) (hc : c < 64) where
    decode_group_two :
        decode_group (base64_char a) (base64_char b) (base64_char c) b'=' more
        ≡ some ((a * 4 + b / 16) ∷ (b % 16 * 16 + c / 4) ∷ [])
    unfolding decode_group
    decode_group_two = rw (place-char a ha, place-char b hb, char-ne-filler c hc, place-char c hc)

    decode_group_three :
        (d : ℕ) (bytes : List ℕ)
        → d < 64
        → more ≡ some bytes
        → decode_group (base64_char a) (base64_char b) (base64_char c) (base64_char d) more
          ≡ some ((a * 4 + b / 16) ∷ (b % 16 * 16 + c / 4) ∷ (c % 4 * 64 + d) ∷ bytes)
    unfolding decode_group
    decode_group_three d bytes hd e = rw (
      place-char a ha,
      place-char b hb,
      char-ne-filler c hc,
      place-char c hc,
      char-ne-filler d hd,
      place-char d hd,
      e,
    )

-- The six-bit groups, as numbers.
pub second_six :
    (s t : ℕ) → t < 256 → bit_or (bit_and s 0x03 * 2 ^ 4) (t / 2 ^ 4) ≡ s % 4 * 16 + t / 16
second_six s t h = rw (bit_and-mask 2 s) (bit_or-glue 4 (s % 4) (t / 16) (omega arith))

pub third_six :
    (s t : ℕ) → t < 256 → bit_or (bit_and s 0x0f * 2 ^ 2) (t / 2 ^ 6) ≡ s % 16 * 4 + t / 64
third_six s t h = rw (bit_and-mask 4 s) (bit_or-glue 2 (s % 16) (t / 64) (omega arith))

-- For every list of bytes, decoding the encoded bytes gives the bytes back.
pub decode-base64_encode : (bs : List ℕ) → IsBytes bs → decode (base64_encode bs) ≡ some bs
unfolding base64_encode decode
decode-base64_encode [] h = refl
decode-base64_encode (s0 ∷ []) h = rw (bit_and-mask 2 s0) (
    decode_group_one (s0 / 4) (s0 % 4 * 16) (omega arith) (omega arith) (some [])
    ∙ ap some (ap₂ ◌∷◌ (omega arith) refl))
decode-base64_encode (s0 ∷ s1 ∷ []) h =
    rw (second_six s0 s1 (omega arith), bit_and-mask 4 s1)
      (decode_group_two (s0 / 4) (s0 % 4 * 16 + s1 / 16) (omega arith) (omega arith) (some [])
          (s1 % 16 * 4) (omega arith)
        ∙ ground arith)
decode-base64_encode (s0 ∷ s1 ∷ s2 ∷ rest) h =
    rw (second_six s0 s1 (omega arith), third_six s1 s2 (omega arith), bit_and-mask 6 s2)
      (decode_group_three (s0 / 4) (s0 % 4 * 16 + s1 / 16) (omega arith) (omega arith) _
          (s1 % 16 * 4 + s2 / 64) (omega arith) (s2 % 64) rest (omega arith)
          (decode-base64_encode rest h.1.1.1)
        ∙ ground arith)

-- The encoder writes four characters for each three bytes, rounded up.
pub length-base64_encode : (bs : List ℕ) → length (base64_encode bs) ≡ (length bs + 2) / 3 * 4
unfolding base64_encode
length-base64_encode [] = refl
length-base64_encode (s0 ∷ []) = refl
length-base64_encode (s0 ∷ s1 ∷ []) = refl
length-base64_encode (s0 ∷ s1 ∷ s2 ∷ rest) = omega (arith, length-base64_encode rest)
