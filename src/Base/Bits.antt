-- ===== src/Base/Bits.antt =====
-- `&`, `|` and `^` of C at variables. Each is a recursion on binary digits; the laws here say how it
-- acts on numbers that are glued together from fields of `k` bits.
use Prim.Native.Nat.{ℕ, zero, suc, ◌+◌, ◌-◌, ◌*◌, ◌/◌, ◌%◌, ◌^◌, ◌≤◌, ◌<◌, min, max, differ}
use Prim.Native.Nat.{digits, bitwise, bit_and, bit_or, bit_xor}
use Prim.Native.Nat.{bit_and-bitwise, bit_or-bitwise, bit_xor-bitwise}
use mathlib.Core.Path.{◌≡◌, refl, ap}
use native.Mathlib.Nat.{pow-suc, one-le-pow, le_refl}
use native.Mathlib.Omega.{arith}

-- The recursion has fuel, and any fuel that covers the first number gives the same digits.
module _ (z : ℕ → ℕ) (f : ℕ → ℕ → ℕ) where
  digits_enough : (n m a b : ℕ) → a ≤ n → a ≤ m → digits z f n a b ≡ digits z f m a b
  digits_enough zero zero a b p q = refl
  digits_enough zero (suc m) zero b p q = refl
  digits_enough (suc n) zero zero b p q = refl
  digits_enough (suc n) (suc m) zero b p q = refl
  digits_enough zero m (suc a) b p q = absurd (omega arith)
  digits_enough (suc n) zero (suc a) b p q = absurd (omega arith)
  digits_enough (suc n) (suc m) (suc a) b p q =
      rw (digits_enough n m (suc a / 2) (b / 2) (omega arith) (omega arith))

  lowest_digit :
      (c b : ℕ)
      → bitwise z f (suc c) b ≡ f (suc c % 2) (b % 2) + 2 * bitwise z f (suc c / 2) (b / 2)
  lowest_digit c b =
      let shorter = digits_enough c (suc c / 2) (suc c / 2) (b / 2) (omega arith) (le_refl _) in
      omega (arith, shorter)

pub bit_and_digit : (a b : ℕ) → bit_and a b ≡ bit_and (a / 2) (b / 2) * 2 + min (a % 2) (b % 2)
bit_and_digit zero b = simp bit_and-bitwise (omega arith)
bit_and_digit (suc a) b = simp bit_and-bitwise (omega (arith, lowest_digit (λ y. 0) min a b))

pub bit_or_digit : (a b : ℕ) → bit_or a b ≡ bit_or (a / 2) (b / 2) * 2 + max (a % 2) (b % 2)
bit_or_digit zero b = simp bit_or-bitwise (omega arith)
bit_or_digit (suc a) b = simp bit_or-bitwise (omega (arith, lowest_digit (λ y. y) max a b))

pub bit_xor_digit : (a b : ℕ) → bit_xor a b ≡ bit_xor (a / 2) (b / 2) * 2 + differ (a % 2) (b % 2)
bit_xor_digit zero b = simp bit_xor-bitwise (omega arith)
bit_xor_digit (suc a) b = simp bit_xor-bitwise (omega (arith, lowest_digit (λ y. y) differ a b))

double_power : (q k : ℕ) → q * 2 ^ suc k ≡ 2 * (q * 2 ^ k)
double_power q k = omega (arith, ap (λ (t : ℕ). q * t) (pow-suc 2 k))

-- An operation that works digit by digit works field by field.
module _ (op : ℕ → ℕ → ℕ) (f : ℕ → ℕ → ℕ)
    (digit : (a b : ℕ) → op a b ≡ op (a / 2) (b / 2) * 2 + f (a % 2) (b % 2))
    (nothing : op 0 0 ≡ 0) where
  by_fields :
      (k a b r s : ℕ)
      → r < 2 ^ k
      → s < 2 ^ k
      → op (a * 2 ^ k + r) (b * 2 ^ k + s) ≡ op a b * 2 ^ k + op r s
  by_fields zero a b zero zero p q = ground (arith, nothing)
  by_fields zero a b (suc r) s p q = absurd (omega arith)
  by_fields zero a b zero (suc s) p q = absurd (omega arith)
  by_fields (suc k) a b r s p q = ground (
    arith,
    digit (a * 2 ^ suc k + r) (b * 2 ^ suc k + s),
    digit r s,
    double_power a k,
    double_power b k,
    double_power (op a b) k,
    pow-suc 2 k,
    by_fields k a b (r / 2) (s / 2) (omega (arith, pow-suc 2 k)) (omega (arith, pow-suc 2 k)),
  )

  module _ (bit : (x y : ℕ) → x < 2 → y < 2 → f x y < 2) where
    by_fields-lt : (k r s : ℕ) → r < 2 ^ k → s < 2 ^ k → op r s < 2 ^ k
    by_fields-lt zero zero zero p q = omega (arith, nothing)
    by_fields-lt zero (suc r) s p q = absurd (omega arith)
    by_fields-lt zero zero (suc s) p q = absurd (omega arith)
    by_fields-lt (suc k) r s p q = omega (
      arith,
      digit r s,
      pow-suc 2 k,
      bit (r % 2) (s % 2) (omega arith) (omega arith),
      by_fields-lt k (r / 2) (s / 2) (omega (arith, pow-suc 2 k)) (omega (arith, pow-suc 2 k)),
    )

differ-lt : (x y : ℕ) → x < 2 → y < 2 → differ x y < 2
differ-lt zero y p q = q
differ-lt (suc x) zero p q = p
differ-lt (suc zero) (suc y) p q = omega arith
differ-lt (suc (suc x)) (suc y) p q = absurd (omega arith)

pub bit_and_fields :
    (k a b r s : ℕ)
    → r < 2 ^ k
    → s < 2 ^ k
    → bit_and (a * 2 ^ k + r) (b * 2 ^ k + s) ≡ bit_and a b * 2 ^ k + bit_and r s
bit_and_fields = by_fields bit_and min bit_and_digit refl

pub bit_or_fields :
    (k a b r s : ℕ)
    → r < 2 ^ k
    → s < 2 ^ k
    → bit_or (a * 2 ^ k + r) (b * 2 ^ k + s) ≡ bit_or a b * 2 ^ k + bit_or r s
bit_or_fields = by_fields bit_or max bit_or_digit refl

pub bit_xor-lt : (k r s : ℕ) → r < 2 ^ k → s < 2 ^ k → bit_xor r s < 2 ^ k
bit_xor-lt = by_fields-lt bit_xor differ bit_xor_digit refl differ-lt

-- Facts about one operation and a field of `k` bits, by induction on `k`.
below_half : (k a : ℕ) → a < 2 ^ suc k → a / 2 < 2 ^ k
below_half k a h = omega (arith, pow-suc 2 k)

bit_and-zero_below : (k a : ℕ) → a < 2 ^ k → bit_and a 0 ≡ 0
bit_and-zero_below zero zero h = refl
bit_and-zero_below zero (suc a) h = absurd (omega arith)
bit_and-zero_below (suc k) a h =
    omega (arith, bit_and_digit a 0, bit_and-zero_below k (a / 2) (below_half k a h))

bit_or-zero_below : (k a : ℕ) → a < 2 ^ k → bit_or a 0 ≡ a
bit_or-zero_below zero zero h = refl
bit_or-zero_below zero (suc a) h = absurd (omega arith)
bit_or-zero_below (suc k) a h =
    omega (arith, bit_or_digit a 0, bit_or-zero_below k (a / 2) (below_half k a h))

lt-two-pow : (a : ℕ) → a < 2 ^ a
lt-two-pow zero = omega arith
lt-two-pow (suc a) = omega (arith, pow-suc 2 a, lt-two-pow a)

pub bit_and-zero : (a : ℕ) → bit_and a 0 ≡ 0
bit_and-zero a = bit_and-zero_below a a (lt-two-pow a)

pub bit_or-zero : (a : ℕ) → bit_or a 0 ≡ a
bit_or-zero a = bit_or-zero_below a a (lt-two-pow a)

pub zero-bit_or : (a : ℕ) → bit_or 0 a ≡ a
zero-bit_or a = bit_or-bitwise 0 a

pub zero-bit_and : (a : ℕ) → bit_and 0 a ≡ 0
zero-bit_and a = bit_and-bitwise 0 a

bit_and-ones_below : (k a : ℕ) → a < 2 ^ k → bit_and a (2 ^ k - 1) ≡ a
bit_and-ones_below zero zero h = refl
bit_and-ones_below zero (suc a) h = absurd (omega arith)
bit_and-ones_below (suc k) a h = ground (
  arith,
  bit_and_digit a (2 ^ suc k - 1),
  pow-suc 2 k,
  one-le-pow k 2,
  bit_and-ones_below k (a / 2) (below_half k a h),
)

-- A mask of `k` low ones is the remainder by `2 ^ k`.
pub bit_and-mask : (k a : ℕ) → bit_and a (2 ^ k - 1) ≡ a % 2 ^ k
bit_and-mask k a = ground (
  arith,
  one-le-pow k 2,
  bit_and_fields k (a / 2 ^ k) 0 (a % 2 ^ k) (2 ^ k - 1),
  bit_and-zero (a / 2 ^ k),
  bit_and-ones_below k (a % 2 ^ k),
)

-- `(q << k) | r` is a sum when `r` fits `k` bits.
pub bit_or-glue : (k q r : ℕ) → r < 2 ^ k → bit_or (q * 2 ^ k) r ≡ q * 2 ^ k + r
bit_or-glue k q r h =
    ground (arith, one-le-pow k 2, bit_or_fields k q 0 0 r, bit_or-zero q, zero-bit_or r)

differ_twice : (x y : ℕ) → x < 2 → y < 2 → differ (differ x y) y ≡ x
differ_twice zero zero p q = refl
differ_twice zero (suc zero) p q = refl
differ_twice (suc zero) zero p q = refl
differ_twice (suc zero) (suc zero) p q = refl
differ_twice (suc (suc x)) y p q = absurd (omega arith)
differ_twice zero (suc (suc y)) p q = absurd (omega arith)
differ_twice (suc zero) (suc (suc y)) p q = absurd (omega arith)

-- Exclusive or with the same number twice changes nothing.
pub bit_xor_twice : (k a b : ℕ) → a < 2 ^ k → b < 2 ^ k → bit_xor (bit_xor a b) b ≡ a
bit_xor_twice zero zero zero p q = refl
bit_xor_twice zero (suc a) b p q = absurd (omega arith)
bit_xor_twice zero zero (suc b) p q = absurd (omega arith)
bit_xor_twice (suc k) a b p q = ground (
  arith,
  bit_xor_digit (bit_xor a b) b,
  bit_xor_digit a b,
  differ-lt (a % 2) (b % 2),
  differ_twice (a % 2) (b % 2),
  bit_xor_twice k (a / 2) (b / 2) (below_half k a p) (below_half k b q),
)
