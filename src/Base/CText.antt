-- ===== src/Base/CText.antt =====
-- C strings as lists of bytes, and the functions of the C library that the server calls on them.
use Prim.Native.Nat.{ℕ, zero, suc, ◌+◌, ◌-◌, ◌/◌, ◌%◌, ◌<◌, ◌≤◌}
use Prim.Native.Char.{code}
use Prim.Native.String.{String}
use native.Mathlib.Omega.{arith}
use mathlib.Core.Path.{◌≡◌, refl}
use mathlib.Core.Bool.{Bool, true, false, ◌&&◌}
use mathlib.Core.Option.{Option, none, some}
use mathlib.Core.Option
use mathlib.Core.List.{List, [], ◌∷◌}
use npacn_fisac.Base.Tests.{◌==◌, ltb, if◌then◌else◌}
use npacn_fisac.Base.Lists.{take, length}

-- The bytes of an ASCII literal.
abbrev pub codes : String → List ℕ
codes String.[] = []
codes (String.◌∷◌ c s) = code c ∷ codes s

-- The string that a buffer holds: its bytes before the first NUL.
unfoldable pub c_str : List ℕ → List ℕ
c_str [] = []
c_str (b ∷ bs) = if b == 0 then [] else b ∷ c_str bs

-- `strcmp(a, b) == 0`, on strings.
unfoldable pub strcmp_eq : List ℕ → List ℕ → Bool
strcmp_eq [] [] = true
strcmp_eq (a ∷ as') (b ∷ bs) = (a == b) && strcmp_eq as' bs
strcmp_eq _ _ = false

unfoldable pub starts_with : List ℕ → List ℕ → Bool
starts_with s [] = true
starts_with [] (p ∷ ps) = false
starts_with (b ∷ bs) (p ∷ ps) = (b == p) && starts_with bs ps

-- `strstr(s, p)` as an offset into `s`.
unfoldable pub strstr : List ℕ → List ℕ → Option ℕ
unfolding starts_with
strstr [] p = if starts_with [] p then some 0 else none
strstr (b ∷ bs) p =
    let rest = Option.map suc (strstr bs p) in if starts_with (b ∷ bs) p then some 0 else rest

-- What `snprintf` leaves in a buffer of `size` bytes, and `strncpy` of `size - 1` bytes with the
-- terminator written behind them: the text, cut off where it does not fit.
abbrev pub fit : ℕ → List ℕ → List ℕ
fit size s = take (size - 1) s

-- `%d` of a number that is not negative, by its decimal digits.
decimal_digits : ℕ → ℕ → List ℕ → List ℕ
decimal_digits zero n acc = acc
decimal_digits (suc f) n acc =
    let rest = decimal_digits f (n / 10) ((n % 10 + 48) ∷ acc) in
    if ltb n 10 then (n + 48) ∷ acc else rest

unfoldable pub decimal : ℕ → List ℕ
unfolding decimal_digits
decimal n = decimal_digits (suc n) n []

length-decimal_digits : (f n : ℕ) (acc : List ℕ) → length (decimal_digits f n acc) ≤ f + length acc
unfolding decimal_digits
length-decimal_digits zero n acc = omega arith
length-decimal_digits (suc f) n acc =
    let rest = length-decimal_digits f (n / 10) ((n % 10 + 48) ∷ acc) in ground (arith, rest)

pub length-decimal : (n : ℕ) → length (decimal n) ≤ suc n
unfolding decimal
length-decimal n = omega (arith, length-decimal_digits (suc n) n [])

abbrev pub IsBytes : List ℕ → Type 0
IsBytes [] = Unit
IsBytes (b ∷ bs) = (b < 256) × IsBytes bs

pub strcmp_eq_self : (s : List ℕ) → strcmp_eq s s ≡ true
unfolding strcmp_eq
strcmp_eq_self [] = refl
strcmp_eq_self (c ∷ s) = let rest = strcmp_eq_self s in ground (arith, rest)

pub strcmp_eq_sound : (s t : List ℕ) → strcmp_eq s t ≡ true → s ≡ t
unfolding strcmp_eq
strcmp_eq_sound [] [] e = refl
strcmp_eq_sound [] (d ∷ t) e = cc
strcmp_eq_sound (c ∷ s) [] e = cc
strcmp_eq_sound (c ∷ s) (d ∷ t) e = let rest = strcmp_eq_sound s t in ground (arith, rest)

pub length-c_str : (s : List ℕ) → length (c_str s) ≤ length s
unfolding c_str
length-c_str [] = omega arith
length-c_str (b ∷ bs) = let rest = length-c_str bs in ground (arith, rest)
