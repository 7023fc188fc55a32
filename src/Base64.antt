-- ===== src/Base64.antt =====
-- FISAC1/src/base64.c: the encoder that the WebSocket handshake uses.
pub mod Decoding
pub mod Reference
use npacn_fisac.Base.{ℕ, ◌*◌, ◌/◌, ◌^◌, bit_and, bit_or, List, [], ◌∷◌, get_or}
use npacn_fisac.Base.CText.{codes}

abbrev pub base64_table : List ℕ
base64_table = codes "ABCDEFGHIJKLMNOPQRSTUVWXYZabcdefghijklmnopqrstuvwxyz0123456789+/"

pub base64_char : ℕ → ℕ
base64_char i = get_or base64_table i 0

-- The bytes written to `out`; the function returns their number and puts a NUL behind them.
unfoldable pub base64_encode : List ℕ → List ℕ
base64_encode (s0 ∷ s1 ∷ s2 ∷ rest) =
    base64_char (s0 / 2 ^ 2)
    ∷ base64_char (bit_or (bit_and s0 0x03 * 2 ^ 4) (s1 / 2 ^ 4))
    ∷ base64_char (bit_or (bit_and s1 0x0f * 2 ^ 2) (s2 / 2 ^ 6))
    ∷ base64_char (bit_and s2 0x3f)
    ∷ base64_encode rest
base64_encode (s0 ∷ s1 ∷ []) =
    base64_char (s0 / 2 ^ 2)
    ∷ base64_char (bit_or (bit_and s0 0x03 * 2 ^ 4) (s1 / 2 ^ 4))
    ∷ base64_char (bit_and s1 0x0f * 2 ^ 2)
    ∷ b'='
    ∷ []
base64_encode (s0 ∷ []) =
    base64_char (s0 / 2 ^ 2) ∷ base64_char (bit_and s0 0x03 * 2 ^ 4) ∷ b'=' ∷ b'=' ∷ []
base64_encode [] = []
