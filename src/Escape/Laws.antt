-- ===== src/Escape/Laws.antt =====
-- What `json_escape_minimal` writes.
use mathlib.Core.Option
use npacn_fisac.Base.{ℕ, ◌+◌, ◌*◌, ◌<◌, ◌≡◌, refl, arith, Bool, true, false, ◌||◌}
use npacn_fisac.Base.{
  Option, none, some, List, [], ◌∷◌, length, ltb, leb, ◌==◌, if◌then◌else◌, lt→ltb, Bool-cases, inl,
  inr,
}
use npacn_fisac.Escape.{escape_loop, json_escape_minimal, needs_escape}

-- The characters between the quotes of a JSON string, for the escapes of quotes and backslashes;
-- `none` when they do not form a string. The flag says that a backslash came before.
unfoldable pub read_string : Bool → List ℕ → Option (List ℕ)
read_string true [] = none
read_string false [] = some []
read_string true (c ∷ cs) =
    let more = Option.map (λ (s : List ℕ). c ∷ s) (read_string false cs) in
    if (c == b'"') || (c == b'\\') then more else none
read_string false (c ∷ cs) =
    let escaped = read_string true cs in
    let more = Option.map (λ (s : List ℕ). c ∷ s) (read_string false cs) in
    if c == b'\\' then escaped else if (c == b'"') || ltb c 0x20 then none else more

-- The text without its control characters.
unfoldable pub printable : List ℕ → List ℕ
printable [] = []
printable (c ∷ cs) = if leb 0x20 c then c ∷ printable cs else printable cs

escape_loop-fits :
    (out_size j : ℕ) (cs : List ℕ)
    → j < out_size
    → j + length (escape_loop out_size j cs) < out_size
unfolding escape_loop
escape_loop-fits out_size j [] h = omega arith
escape_loop-fits out_size j (c ∷ cs) h = ground (
  arith,
  λ (q : j + 2 < out_size). escape_loop-fits out_size (j + 2) cs q,
  λ (q : j + 1 < out_size). escape_loop-fits out_size (j + 1) cs q,
  escape_loop-fits out_size j cs h,
)

-- The escaped text and its terminator fit the buffer, for every text.
pub length-json_escape_minimal :
    (in_text : List ℕ) (out_size : ℕ)
    → 0 < out_size
    → length (json_escape_minimal in_text out_size) < out_size
unfolding json_escape_minimal
length-json_escape_minimal in_text out_size h =
    let fits = escape_loop-fits out_size 0 in_text h in ground (arith, fits)

module _ (c : ℕ) (rest text : List ℕ) (reads : read_string false rest ≡ some text) where
  read_escaped :
      needs_escape c ≡ true
      → read_string false (b'\\' ∷ c ∷ rest) ≡ some (if leb 0x20 c then c ∷ text else text)
  unfolding read_string
  read_escaped needs = rw (needs, reads, visible) refl
    where
      visible : leb 0x20 c ≡ true
      visible = ground arith

  read_plain :
      needs_escape c ≡ false → leb 0x20 c ≡ true → read_string false (c ∷ rest) ≡ some (c ∷ text)
  unfolding read_string
  read_plain harmless visible = rw (no_backslash, no_quote, no_control, reads) refl
    where
      no_backslash : (c == b'\\') ≡ false
      no_backslash = ground arith

      no_quote : (c == b'"') ≡ false
      no_quote = ground arith

      no_control : ltb c 0x20 ≡ false
      no_control = ground arith

escape_loop-read :
    (out_size j : ℕ) (cs : List ℕ)
    → j + 2 * length cs < out_size
    → read_string false (escape_loop out_size j cs) ≡ some (printable cs)
unfolding escape_loop printable
escape_loop-read out_size j [] h = unfold read_string in refl
escape_loop-read out_size j (c ∷ cs) h = elim (Bool-cases (needs_escape c)) [
  | inl needs ↦
      rw (one, two, needs)
        (read_escaped c _ (printable cs) (escape_loop-read out_size (j + 2) cs (omega arith)) needs)
  | inr harmless ↦ elim (Bool-cases (leb 0x20 c)) [
    | inl visible ↦
        rw (one, harmless, visible)
          (read_plain c _ (printable cs) (escape_loop-read out_size (j + 1) cs (omega arith))
            harmless visible)
    | inr control ↦ rw (one, harmless, control) (escape_loop-read out_size j cs (omega arith))
  ]
]
  where
    one : ltb (j + 1) out_size ≡ true
    one = lt→ltb (j + 1) out_size (omega arith)

    two : ltb (j + 2) out_size ≡ true
    two = lt→ltb (j + 2) out_size (omega arith)

-- With a buffer of more than two bytes for every character, what is written reads back as the body
-- of a JSON string with the characters of the text, but for its control characters, which are left
-- out.
pub read_string-json_escape_minimal :
    (in_text : List ℕ) (out_size : ℕ)
    → 2 * length in_text < out_size
    → read_string false (json_escape_minimal in_text out_size) ≡ some (printable in_text)
unfolding json_escape_minimal
read_string-json_escape_minimal in_text out_size h =
    let reads = escape_loop-read out_size 0 in_text (omega arith) in ground (arith, reads)
