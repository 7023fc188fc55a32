-- ===== src/Base64/Reference.antt =====
-- Base64 as RFC 4648 describes it, apart from the code: six bits at a time, each by its letter.
use npacn_fisac.Base.{ℕ, ◌+◌, ◌-◌, ◌*◌, ◌/◌, ◌%◌, ◌<◌, ◌≡◌, refl, arith}
use npacn_fisac.Base.{◌==◌, ltb, ==_iff, if◌then◌else◌, true, List, [], ◌∷◌}
use npacn_fisac.Base.{passes_under, passes_under_lem, Bool}
use npacn_fisac.Base.Bits.{bit_and-mask}
use npacn_fisac.Base.CText.{IsBytes}
use npacn_fisac.Base64.{base64_char, base64_encode}
use npacn_fisac.Base64.Decoding.{second_six, third_six}

-- A to Z, a to z, 0 to 9, + and /.
unfoldable pub letter : ℕ → ℕ
letter i =
    if ltb i 26
    then 65 + i
    else if ltb i 52
    then 71 + i
    else if ltb i 62
    then i - 4
    else if i == 62
    then b'+'
    else b'/'

unfoldable pub base64_text : List ℕ → List ℕ
base64_text (s0 ∷ s1 ∷ s2 ∷ rest) =
    letter (s0 / 4)
    ∷ letter (s0 % 4 * 16 + s1 / 16)
    ∷ letter (s1 % 16 * 4 + s2 / 64)
    ∷ letter (s2 % 64)
    ∷ base64_text rest
base64_text (s0 ∷ s1 ∷ []) =
    letter (s0 / 4) ∷ letter (s0 % 4 * 16 + s1 / 16) ∷ letter (s1 % 16 * 4) ∷ b'=' ∷ []
base64_text (s0 ∷ []) = letter (s0 / 4) ∷ letter (s0 % 4 * 16) ∷ b'=' ∷ b'=' ∷ []
base64_text [] = []

same_letter : ℕ → Bool
same_letter i = base64_char i == letter i

table : passes_under same_letter 64 ≡ true
unfolding same_letter base64_char letter
table = refl

char-letter : (i : ℕ) → i < 64 → base64_char i ≡ letter i
unfolding same_letter
char-letter i h = (==_iff (base64_char i) (letter i)).0 (passes_under_lem same_letter 64 i h table)

pub base64_encode-text : (bs : List ℕ) → IsBytes bs → base64_encode bs ≡ base64_text bs
unfolding base64_encode base64_text
base64_encode-text [] h = refl
base64_encode-text (s0 ∷ []) h =
    rw
      (
        bit_and-mask 2 s0,
        char-letter (s0 / 4) (omega arith),
        char-letter (s0 % 4 * 16) (omega arith),
      )
      refl
base64_encode-text (s0 ∷ s1 ∷ []) h =
    rw
      (
        second_six s0 s1 (omega arith),
        bit_and-mask 4 s1,
        char-letter (s0 / 4) (omega arith),
        char-letter (s0 % 4 * 16 + s1 / 16) (omega arith),
        char-letter (s1 % 16 * 4) (omega arith),
      )
      refl
base64_encode-text (s0 ∷ s1 ∷ s2 ∷ rest) h =
    rw
      (
        second_six s0 s1 (omega arith),
        third_six s1 s2 (omega arith),
        bit_and-mask 6 s2,
        char-letter (s0 / 4) (omega arith),
        char-letter (s0 % 4 * 16 + s1 / 16) (omega arith),
        char-letter (s1 % 16 * 4 + s2 / 64) (omega arith),
        char-letter (s2 % 64) (omega arith),
        base64_encode-text rest h.1.1.1,
      )
      refl
