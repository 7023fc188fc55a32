-- ===== src/Database/Hash.antt =====
-- The password hash: what it computes, and which passwords it does not tell apart.
use npacn_fisac.Base.{
  ℕ, zero, suc, ◌+◌, ◌-◌, ◌*◌, ◌/◌, ◌%◌, ◌^◌, ◌<◌, ◌≡◌, refl, arith, ◌∙◌, ap, sym,
}
use npacn_fisac.Base.{
  Bool, true, ltb, ◌==◌, if◌then◌else◌, List, [], ◌∷◌, ◌++◌, length, passes_under, passes_under_lem,
  ==_iff,
}
use native.Mathlib.Nat.{div-add-mod, div-div-eq-div-mul, pow-suc, one-le-pow}
use npacn_fisac.Base.Slices.{take_all}
use npacn_fisac.Base.CText.{c_str, fit}
use npacn_fisac.Database.{sign_extend, djb2_loop, djb2_hash, hex_digit, hex_digits, hash_password}

-- The hash over numbers without bound: a value to the base 33.
unfoldable pub base33 : ℕ → List ℕ → ℕ
base33 hash [] = hash
base33 hash (c ∷ str) = base33 (hash * 33 + sign_extend c) str

-- Numbers that are equal modulo 2 ^ 32 stay so.
base33-wrap :
    (q r : ℕ) (str : List ℕ) → base33 (q * 2 ^ 32 + r) str % 2 ^ 32 ≡ base33 r str % 2 ^ 32
unfolding base33
base33-wrap q r [] = omega arith
base33-wrap q r (c ∷ str) =
    ap (λ (h : ℕ). base33 h str % 2 ^ 32) e ∙ base33-wrap (q * 33) (r * 33 + sign_extend c) str
  where
    e : (q * 2 ^ 32 + r) * 33 + sign_extend c ≡ q * 33 * 2 ^ 32 + (r * 33 + sign_extend c)
    e = omega arith

base33_mod : (h : ℕ) (str : List ℕ) → base33 (h % 2 ^ 32) str % 2 ^ 32 ≡ base33 h str % 2 ^ 32
base33_mod h str =
    sym (base33-wrap (h / 2 ^ 32) (h % 2 ^ 32) str)
    ∙ ap (λ (n : ℕ). base33 n str % 2 ^ 32) (omega arith)

djb2_loop-eq-base33 :
    (hash : ℕ) (str : List ℕ) → hash < 2 ^ 32 → djb2_loop hash str ≡ base33 hash str % 2 ^ 32
unfolding djb2_loop base33
djb2_loop-eq-base33 hash [] h = omega arith
djb2_loop-eq-base33 hash (c ∷ str) h =
    djb2_loop-eq-base33 next str (omega arith)
    ∙ ap (λ (n : ℕ). base33 n str % 2 ^ 32) wrapped
    ∙ base33_mod (hash * 33 + sign_extend c) str
  where
    next : ℕ
    next = (hash * 2 ^ 5 % 2 ^ 32 + hash + sign_extend c) % 2 ^ 32

    wrapped : next ≡ (hash * 33 + sign_extend c) % 2 ^ 32
    wrapped = omega arith

-- For every password, `djb2_hash` is the value to the base 33 of its characters, which are signed,
-- behind the start value 5381, modulo 2 ^ 32: no shift or addition that wraps around on the way
-- changes it.
djb2_hash-eq-base33 : (str : List ℕ) → djb2_hash str ≡ base33 5381 (c_str str) % 2 ^ 32
unfolding djb2_hash
djb2_hash-eq-base33 str = djb2_loop-eq-base33 5381 (c_str str) (omega arith)

-- Two ASCII strings that differ in two neighbouring characters, one up and 33 down.
swapped :
    (hash c d : ℕ) (pre post : List ℕ)
    → c < 127
    → d < 95
    → base33 hash (pre ++ (c ∷ (d + 33) ∷ post)) ≡ base33 hash (pre ++ ((c + 1) ∷ d ∷ post))
unfolding base33
swapped hash c d [] post hc hd = ap (λ (n : ℕ). base33 n post) e
  where
    e :
        (hash * 33 + sign_extend c) * 33 + sign_extend (d + 33)
        ≡ (hash * 33 + sign_extend (c + 1)) * 33 + sign_extend d
    e = unfold sign_extend in ground arith
swapped hash c d (p ∷ pre) post hc hd = swapped (hash * 33 + sign_extend p) c d pre post hc hd

-- A string without NUL is its own C string.
abbrev pub NoNul : List ℕ → Type 0
NoNul [] = Unit
NoNul (c ∷ cs) = (0 < c) × NoNul cs

pub c_str-NoNul : (s : List ℕ) → NoNul s → c_str s ≡ s
unfolding c_str
c_str-NoNul [] h = refl
c_str-NoNul (c ∷ cs) h = let rest = c_str-NoNul cs h.1 in ground (arith, rest)

NoNul-append : (s t : List ℕ) → NoNul s → NoNul t → NoNul (s ++ t)
NoNul-append [] t h k = k
NoNul-append (c ∷ s) t h k = (h.0, NoNul-append s t h.1 k)

-- A password of ASCII characters and another have one hash where the second has, of two neighbouring
-- characters, the first raised by one and the second lowered by 33, whatever comes before and behind.
djb2_hash_collides :
    (c d : ℕ) (pre post : List ℕ)
    → 0 < c
    → c < 127
    → 0 < d
    → d < 95
    → NoNul pre
    → NoNul post
    → djb2_hash (pre ++ (c ∷ (d + 33) ∷ post)) ≡ djb2_hash (pre ++ ((c + 1) ∷ d ∷ post))
djb2_hash_collides c d pre post c_pos hc d_pos hd h k =
    djb2_hash-eq-base33 first
    ∙ ap (λ (n : ℕ). n % 2 ^ 32)
        (ap (base33 5381) (c_str-NoNul first (NoNul-append pre _ h (omega arith, (omega arith, k))))
          ∙ swapped 5381 c d pre post hc hd
          ∙ ap (base33 5381)
              (sym (c_str-NoNul second (NoNul-append pre _ h (omega arith, (d_pos, k))))))
    ∙ sym (djb2_hash-eq-base33 second)
  where
    first : List ℕ
    first = pre ++ (c ∷ (d + 33) ∷ post)

    second : List ℕ
    second = pre ++ ((c + 1) ∷ d ∷ post)

digit_value : ℕ → ℕ
digit_value c = if ltb c 58 then c - 48 else c - 87

-- The value of lower-case hexadecimal digits.
unfoldable pub read_hex : ℕ → List ℕ → ℕ
unfolding digit_value
read_hex n [] = n
read_hex n (c ∷ cs) = read_hex (n * 16 + digit_value c) cs

good_digit : ℕ → Bool
good_digit d = digit_value (hex_digit d) == d

all_digits : passes_under good_digit 16 ≡ true
unfolding good_digit digit_value hex_digit
all_digits = refl

digit_value-hex_digit : (d : ℕ) → d < 16 → digit_value (hex_digit d) ≡ d
unfolding good_digit
digit_value-hex_digit d h = (==_iff _ _).0 (passes_under_lem good_digit 16 d h all_digits)

spread : (p q d : ℕ) → p * (16 * q + d) ≡ p * 16 * q + d * p
spread p q d = grind arith

split_digit : (p h : ℕ) → 0 < p → h % (p * 16) ≡ h / p % 16 * p + h % p
split_digit p h pos = omega (
  arith,
  div-add-mod h p,
  div-add-mod h (p * 16),
  ap (λ (t : ℕ). p * t) (sym (div-add-mod (h / p) 16)),
  spread p (h / p / 16) (h / p % 16),
  ap (λ (t : ℕ). p * 16 * t) (div-div-eq-div-mul h p 16),
)

distribute : (n d p : ℕ) → (n * 16 + d) * p ≡ n * (p * 16) + d * p
distribute n d p = grind arith

join :
    (n p next h : ℕ)
    → next ≡ p * 16
    → 0 < p
    → (n * 16 + h / p % 16) * p + h % p ≡ n * next + h % next
join n p next h e pos = rw e (omega (arith, distribute n (h / p % 16) p, split_digit p h pos))

read_hex-hex_digits : (w n h : ℕ) → read_hex n (hex_digits w h) ≡ n * 16 ^ w + h % 16 ^ w
unfolding read_hex hex_digits
read_hex-hex_digits zero n h = omega arith
read_hex-hex_digits (suc w) n h =
    ap (λ (d : ℕ). read_hex (n * 16 + d) (hex_digits w h)) (digit_value-hex_digit d (omega arith))
    ∙ read_hex-hex_digits w (n * 16 + d) h
    ∙ join n (16 ^ w) (16 ^ suc w) h (omega (arith, pow-suc 16 w)) (omega (arith, one-le-pow w 16))
  where
    d : ℕ
    d = h / 16 ^ w % 16

length-hex_digits : (w h : ℕ) → length (hex_digits w h) ≡ w
unfolding hex_digits
length-hex_digits zero h = refl
length-hex_digits (suc w) h = ap suc (length-hex_digits w h)

-- Into a buffer with room for 16 characters, the hash of every password is written as 16 hexadecimal
-- digits and no more, and read back from them.
pub read_hex-hash_password :
    (password : List ℕ) (out_size : ℕ)
    → 16 < out_size
    → (length (hash_password password out_size) ≡ 16)
      × (read_hex 0 (hash_password password out_size) ≡ djb2_hash password)
unfolding hash_password
read_hex-hash_password password out_size room = (
  ap length whole ∙ length-hex_digits 16 hash,
  ap (read_hex 0) whole
      ∙ read_hex-hex_digits 16 0 hash
      ∙ omega (arith, djb2_hash-eq-base33 password),
)
  where
    hash : ℕ
    hash = djb2_hash password

    whole : fit out_size (hex_digits 16 hash) ≡ hex_digits 16 hash
    whole = take_all (out_size - 1) (hex_digits 16 hash) (omega (arith, length-hex_digits 16 hash))
