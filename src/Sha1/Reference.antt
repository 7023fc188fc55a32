-- ===== src/Sha1/Reference.antt =====
-- SHA-1 as RFC 3174 defines it, apart from the code: its own constants, functions, words and padding.
use npacn_fisac.Base.{ℕ, zero, suc, ◌+◌, ◌-◌, ◌*◌, ◌/◌, ◌%◌, ◌^◌, ◌≡◌, refl, arith, ap, ◌∙◌}
use npacn_fisac.Base.{ltb, Bool-cases, inl, inr, if◌then◌else◌, bit_and, bit_or, bit_xor}
use npacn_fisac.Base.{List, [], ◌∷◌, ◌++◌, length, take, drop, replicate, get_or}
use npacn_fisac.Base.CText.{codes, IsBytes}
use npacn_fisac.Sha1.{
  State, load_words, expand_words, round_term, rounds, rotate_left, compress, initial_state,
}
use npacn_fisac.Sha1.{be_bytes, digest_of}
use npacn_fisac.Sha1.Blocks.{padded, compress_blocks, sha1_by_blocks}

-- S^n(X), the circular shift to the left.
unfoldable pub circular_shift : ℕ → ℕ → ℕ
circular_shift n x = bit_or (x * 2 ^ n % 2 ^ 32) (x / 2 ^ (32 - n))

-- f(t; B, C, D) and K(t) of section 5.
unfoldable pub function : ℕ → ℕ → ℕ → ℕ → ℕ
function t b c d =
    if ltb t 20
    then bit_or (bit_and b c) (bit_and (4294967295 - b) d)
    else if ltb t 40
    then bit_xor (bit_xor b c) d
    else if ltb t 60
    then bit_or (bit_or (bit_and b c) (bit_and b d)) (bit_and c d)
    else bit_xor (bit_xor b c) d

unfoldable pub constant : ℕ → ℕ
constant t =
    if ltb t 20
    then 0x5A827999
    else if ltb t 40
    then 0x6ED9EBA1
    else if ltb t 60
    then 0x8F1BBCDC
    else 0xCA62C1D6

-- W(0) to W(15), from the left, and the words behind them.
unfoldable pub first_words : List ℕ → List ℕ
first_words (b0 ∷ b1 ∷ b2 ∷ b3 ∷ bytes) =
    bit_or (bit_or (bit_or (b0 * 16777216) (b1 * 65536)) (b2 * 256)) b3 ∷ first_words bytes
first_words _ = []

unfoldable pub more_words : ℕ → List ℕ → List ℕ
more_words zero w = w
more_words (suc left) w =
    let t = length w in
    let x =
      bit_xor (bit_xor (bit_xor (get_or w (t - 3) 0) (get_or w (t - 8) 0)) (get_or w (t - 14) 0))
        (get_or w (t - 16) 0) in
    more_words left (w ++ (circular_shift 1 x ∷ []))

-- Step (d) for the words that are left, from round `t` on.
unfoldable pub steps : List ℕ → ℕ → State → State
steps [] t s = s
steps (w ∷ ws) t s = steps ws (t + 1) (record {
  s0 = (circular_shift 5 s.s0 + function t s.s1 s.s2 s.s3 + s.s4 + w + constant t) % 2 ^ 32;
  s1 = s.s0;
  s2 = circular_shift 30 s.s1;
  s3 = s.s2;
  s4 = s.s3;
})

-- H0 to H4 after a block.
unfoldable pub next_state : State → List ℕ → State
next_state h block =
    let r = steps (more_words 64 (first_words block)) 0 h in
    record {
      s0 = (h.s0 + r.s0) % 2 ^ 32;
      s1 = (h.s1 + r.s1) % 2 ^ 32;
      s2 = (h.s2 + r.s2) % 2 ^ 32;
      s3 = (h.s3 + r.s3) % 2 ^ 32;
      s4 = (h.s4 + r.s4) % 2 ^ 32;
    }

unfoldable pub all_blocks : ℕ → State → List ℕ → State
all_blocks zero h bytes = h
all_blocks (suc n) h bytes = all_blocks n (next_state h (take 64 bytes)) (drop 64 bytes)

abbrev pub first_state : State
first_state = record {
  s0 = 0x67452301;
  s1 = 0xEFCDAB89;
  s2 = 0x98BADCFE;
  s3 = 0x10325476;
  s4 = 0xC3D2E1F0;
}

-- A number in four bytes, and in eight, from the left.
abbrev pub four_bytes : ℕ → List ℕ
four_bytes n = n / 16777216 % 256 ∷ n / 65536 % 256 ∷ n / 256 % 256 ∷ n % 256 ∷ []

abbrev pub eight_bytes : ℕ → List ℕ
eight_bytes n = four_bytes (n / 4294967296) ++ four_bytes n

-- The message, a bit 1, zeros up to eight bytes before the end of a block, and the length in bits.
unfoldable pub padded_message : List ℕ → List ℕ
padded_message message =
    message
    ++ (0x80 ∷ replicate ((119 - length message % 64) % 64) 0)
    ++ eight_bytes (length message * 8)

unfoldable pub sha1_reference : List ℕ → List ℕ
sha1_reference message =
    let bytes = padded_message message in
    let h = all_blocks (length bytes / 64) first_state bytes in
    four_bytes h.s0 ++ four_bytes h.s1 ++ four_bytes h.s2 ++ four_bytes h.s3 ++ four_bytes h.s4

abc_reference :
    sha1_reference (codes "abc")
    ≡ four_bytes 0xa9993e36
      ++ four_bytes 0x4706816a
      ++ four_bytes 0xba3e2571
      ++ four_bytes 0x7850c26c
      ++ four_bytes 0x9cd0d89d
unfolding sha1_reference padded_message all_blocks next_state steps more_words first_words constant
    function circular_shift
abc_reference = refl

-- The same by the code's compression.
first_words-eq : (block : List ℕ) → first_words block ≡ load_words block
unfolding first_words load_words
first_words-eq (b0 ∷ b1 ∷ b2 ∷ b3 ∷ bytes) =
    ap (λ (ws : List ℕ). bit_or (bit_or (bit_or (b0 * 2 ^ 24) (b1 * 2 ^ 16)) (b2 * 2 ^ 8)) b3 ∷ ws)
      (first_words-eq bytes)
first_words-eq (b0 ∷ b1 ∷ b2 ∷ []) = refl
first_words-eq (b0 ∷ b1 ∷ []) = refl
first_words-eq (b0 ∷ []) = refl
first_words-eq [] = refl

more_words-eq : (left : ℕ) (w : List ℕ) → more_words left w ≡ expand_words left w
unfolding more_words expand_words circular_shift rotate_left
more_words-eq zero w = refl
more_words-eq (suc left) w = more_words-eq left _

term-eq : (t b c d : ℕ) → function t b c d + constant t ≡ round_term t b c d
unfolding function constant round_term
term-eq t b c d = elim (Bool-cases (ltb t 20)) [
  | inl e ↦ rw e refl
  | inr e ↦ rw e (elim (Bool-cases (ltb t 40)) [
    | inl e' ↦ rw e' refl
    | inr e' ↦
        rw e' (elim (Bool-cases (ltb t 60)) [ inl e'' ↦ rw e'' refl | inr e'' ↦ rw e'' refl ])
  ])
]

sum_lem :
    (a f e w k g : ℕ)
    → f + k ≡ g
    → (a + f + e + w + k) % 2 ^ 32 ≡ ((a + e + w) % 2 ^ 32 + g) % 2 ^ 32
sum_lem a f e w k g q = omega (arith, q)

steps-eq : (ws : List ℕ) (t : ℕ) (s : State) → steps ws t s ≡ rounds ws t s
unfolding steps rounds circular_shift rotate_left
steps-eq [] t s = refl
steps-eq (w ∷ ws) t s =
    ap
      (λ (temp : ℕ).
        steps ws (t + 1)
          (record { s0 = temp; s1 = s.s0; s2 = circular_shift 30 s.s1; s3 = s.s2; s4 = s.s3 }))
      (sum_lem (circular_shift 5 s.s0) (function t s.s1 s.s2 s.s3) s.s4 w (constant t)
        (round_term t s.s1 s.s2 s.s3) (term-eq t s.s1 s.s2 s.s3))
    ∙ steps-eq ws (t + 1) _

next_state-eq : (h : State) (block : List ℕ) → next_state h block ≡ compress h block
unfolding next_state compress
next_state-eq h block =
    ap
      (λ (r : State). record {
        s0 = (h.s0 + r.s0) % 2 ^ 32;
        s1 = (h.s1 + r.s1) % 2 ^ 32;
        s2 = (h.s2 + r.s2) % 2 ^ 32;
        s3 = (h.s3 + r.s3) % 2 ^ 32;
        s4 = (h.s4 + r.s4) % 2 ^ 32;
      })
      (ap (λ (ws : List ℕ). steps (more_words 64 ws) 0 h) (first_words-eq block)
        ∙ ap (λ (ws : List ℕ). steps ws 0 h) (more_words-eq 64 (load_words block))
        ∙ steps-eq _ 0 h)

all_blocks-eq :
    (n : ℕ) (h : State) (bytes : List ℕ) → all_blocks n h bytes ≡ compress_blocks n h bytes
unfolding all_blocks compress_blocks
all_blocks-eq zero h bytes = refl
all_blocks-eq (suc n) h bytes =
    ap (λ (s : State). all_blocks n s (drop 64 bytes)) (next_state-eq h (take 64 bytes))
    ∙ all_blocks-eq n (compress h (take 64 bytes)) (drop 64 bytes)

four_bytes-eq : (n : ℕ) → four_bytes n ≡ be_bytes 4 n
unfolding be_bytes
four_bytes-eq n =
    ap (λ (b : ℕ). n / 2 ^ 24 % 256 ∷ n / 2 ^ 16 % 256 ∷ n / 2 ^ 8 % 256 ∷ b ∷ []) (omega arith)

eight_bytes-eq : (n : ℕ) → eight_bytes n ≡ be_bytes 8 n
unfolding be_bytes
eight_bytes-eq n = λ i. e7 i ∷ e6 i ∷ e5 i ∷ e4 i ∷ (four_bytes-eq n i)
  where
    e7 : n / 4294967296 / 16777216 % 256 ≡ n / 2 ^ 56 % 256
    e7 = omega arith

    e6 : n / 4294967296 / 65536 % 256 ≡ n / 2 ^ 48 % 256
    e6 = omega arith

    e5 : n / 4294967296 / 256 % 256 ≡ n / 2 ^ 40 % 256
    e5 = omega arith

    e4 : n / 4294967296 % 256 ≡ n / 2 ^ 32 % 256
    e4 = omega arith

padded_message-eq : (message : List ℕ) → padded_message message ≡ padded message
unfolding padded_message padded
padded_message-eq message =
    ap (λ (l : List ℕ). message ++ (0x80 ∷ replicate ((119 - length message % 64) % 64) 0) ++ l)
      (eight_bytes-eq (length message * 8))

abbrev digest : State → List ℕ
digest h =
    four_bytes h.s0 ++ four_bytes h.s1 ++ four_bytes h.s2 ++ four_bytes h.s3 ++ four_bytes h.s4

digest-eq : (h : State) → digest h ≡ digest_of h
unfolding digest_of
digest-eq h = λ i.
    four_bytes-eq h.s0 i
    ++ four_bytes-eq h.s1 i
    ++ four_bytes-eq h.s2 i
    ++ four_bytes-eq h.s3 i
    ++ four_bytes-eq h.s4 i

pub sha1_reference-by_blocks : (message : List ℕ) → sha1_reference message ≡ sha1_by_blocks message
unfolding sha1_reference sha1_by_blocks
sha1_reference-by_blocks message =
    ap (λ (bytes : List ℕ). digest (all_blocks (length bytes / 64) first_state bytes))
      (padded_message-eq message)
    ∙ ap digest (all_blocks-eq (length (padded message) / 64) initial_state (padded message))
    ∙ digest-eq _

pub sha1_reference-IsBytes : (message : List ℕ) → IsBytes (sha1_reference message)
unfolding sha1_reference
sha1_reference-IsBytes message = search arith
