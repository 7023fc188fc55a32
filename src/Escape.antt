-- ===== src/Escape.antt =====
-- FISAC1/src/protocol.c: `json_escape_minimal`.
pub mod Laws
use npacn_fisac.Base.{ℕ, zero, suc, ◌+◌, Bool, ◌||◌, ◌&&◌, ltb, leb, ◌==◌, if◌then◌else◌}
use npacn_fisac.Base.{List, [], ◌∷◌}

abbrev pub needs_escape : ℕ → Bool
needs_escape c = c == b'"' || c == b'\\'

-- The loop with `j` bytes written, up to the end of the string or of the buffer.
unfoldable pub escape_loop : ℕ → ℕ → List ℕ → List ℕ
escape_loop out_size j [] = []
escape_loop out_size j (c ∷ cs) =
    let escaped = b'\\' ∷ c ∷ escape_loop out_size (j + 2) cs in
    let plain = c ∷ escape_loop out_size (j + 1) cs in
    let dropped = escape_loop out_size j cs in
    if ltb (j + 1) out_size
    then (if needs_escape c && ltb (j + 2) out_size
        then escaped
        else if leb 0x20 c
        then plain
        else dropped)
    else []

-- The string left in `out`; its terminator is written behind it.
unfoldable pub json_escape_minimal : List ℕ → ℕ → List ℕ
unfolding escape_loop
json_escape_minimal in_text out_size = if out_size == 0 then [] else escape_loop out_size 0 in_text
