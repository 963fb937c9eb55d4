-- ===== src/Prelude/Bits.antt =====
-- `&` with a mask of low or shifted ones, and `|` of disjoint fields, as arithmetic.
use Prim.Native.Nat.{
  ℕ, zero, suc, ◌+◌, ◌*◌, ◌/◌, ◌%◌, ◌<◌, ◌≤◌, min, max, bit_and, bit_or, digits, bit_and-bitwise,
  bit_or-bitwise,
}
use mathlib.Core.Path.{◌≡◌, refl, ap}
use native.Mathlib.Omega.{arith}

-- The digit recursion does not depend on its fuel, once that is enough.
same_digits :
    (z : ℕ → ℕ) (f : ℕ → ℕ → ℕ) (k l a b : ℕ) → a ≤ k → a ≤ l → digits z f k a b ≡ digits z f l a b
same_digits z f zero zero zero b hk hl = refl
same_digits z f (suc k) zero zero b hk hl = refl
same_digits z f zero (suc l) zero b hk hl = refl
same_digits z f (suc k) (suc l) zero b hk hl = refl
same_digits z f zero l (suc a) b hk hl = absurd (omega arith)
same_digits z f (suc k) zero (suc a) b hk hl = absurd (omega arith)
same_digits z f (suc k) (suc l) (suc a) b hk hl =
    ap (λ d. d * 2 + f (suc a % 2) (b % 2))
      (same_digits z f k l (suc a / 2) (b / 2) (omega arith) (omega arith))

-- One binary digit at a time.
pub bit_and-halves : (a b : ℕ) → bit_and a b ≡ bit_and (a / 2) (b / 2) * 2 + min (a % 2) (b % 2)
bit_and-halves zero b = omega (arith, bit_and-bitwise 0 b, bit_and-bitwise 0 (b / 2))
bit_and-halves (suc a) b = omega (
  arith,
  bit_and-bitwise (suc a) b,
  bit_and-bitwise (suc a / 2) (b / 2),
  same_digits (λ _. 0) min a (suc a / 2) (suc a / 2) (b / 2) (omega arith) (omega arith),
)

pub bit_or-halves : (a b : ℕ) → bit_or a b ≡ bit_or (a / 2) (b / 2) * 2 + max (a % 2) (b % 2)
bit_or-halves zero b = omega (arith, bit_or-bitwise 0 b, bit_or-bitwise 0 (b / 2))
bit_or-halves (suc a) b = omega (
  arith,
  bit_or-bitwise (suc a) b,
  bit_or-bitwise (suc a / 2) (b / 2),
  same_digits (λ y. y) max a (suc a / 2) (suc a / 2) (b / 2) (omega arith) (omega arith),
)

bit_and-zero_below : (n a : ℕ) → a ≤ n → bit_and a 0 ≡ 0
bit_and-zero_below n zero h = refl
bit_and-zero_below zero (suc a) h = absurd (omega arith)
bit_and-zero_below (suc n) (suc a) h =
    omega (arith, bit_and-halves (suc a) 0, bit_and-zero_below n (suc a / 2) (omega arith))

bit_or-zero_below : (n a : ℕ) → a ≤ n → bit_or a 0 ≡ a
bit_or-zero_below n zero h = refl
bit_or-zero_below zero (suc a) h = absurd (omega arith)
bit_or-zero_below (suc n) (suc a) h =
    omega (arith, bit_or-halves (suc a) 0, bit_or-zero_below n (suc a / 2) (omega arith))

bit_and-zero : (a : ℕ) → bit_and a 0 ≡ 0
bit_and-zero a = bit_and-zero_below a a (omega arith)

bit_or-zero : (a : ℕ) → bit_or a 0 ≡ a
bit_or-zero a = bit_or-zero_below a a (omega arith)

bit_and_nibble : (a : ℕ) → bit_and a 0xF ≡ a % 16
bit_and_nibble a = omega (
  arith,
  bit_and-halves a 0xF,
  bit_and-halves (a / 2) 7,
  bit_and-halves (a / 2 / 2) 3,
  bit_and-halves (a / 2 / 2 / 2) 1,
  bit_and-zero (a / 2 / 2 / 2 / 2),
)

pub bit_and_low_byte : (a : ℕ) → bit_and a 0xFF ≡ a % 256
bit_and_low_byte a = omega (
  arith,
  bit_and-halves a 0xFF,
  bit_and-halves (a / 2) 0x7F,
  bit_and-halves (a / 2 / 2) 0x3F,
  bit_and-halves (a / 2 / 2 / 2) 0x1F,
  bit_and_nibble (a / 2 / 2 / 2 / 2),
)

-- The mask of the second byte.
pub bit_and_high_byte : (a : ℕ) → bit_and a 0xFF00 ≡ a / 256 % 256 * 256
bit_and_high_byte a = omega (
  arith,
  bit_and-halves a 0xFF00,
  bit_and-halves (a / 2) 0x7F80,
  bit_and-halves (a / 2 / 2) 0x3FC0,
  bit_and-halves (a / 2 / 2 / 2) 0x1FE0,
  bit_and_sixteenth (a / 2 / 2 / 2 / 2),
)
  where
    bit_and_sixteenth : (b : ℕ) → bit_and b 0xFF0 ≡ b / 16 % 256 * 16
    bit_and_sixteenth b = omega (
      arith,
      bit_and-halves b 0xFF0,
      bit_and-halves (b / 2) 0x7F8,
      bit_and-halves (b / 2 / 2) 0x3FC,
      bit_and-halves (b / 2 / 2 / 2) 0x1FE,
      bit_and_low_byte (b / 2 / 2 / 2 / 2),
    )

bit_or-double : (a k o : ℕ) → a ≡ k * 2 → bit_or a o ≡ bit_or k (o / 2) * 2 + o % 2
bit_or-double a k o e = ground (arith, bit_or-halves a o, ap (λ t. bit_or t (o / 2)) half)
  where
    half : a / 2 ≡ k
    half = omega arith

bit_or-sixteen : (a k o : ℕ) → a ≡ k * 16 → bit_or a o ≡ bit_or k (o / 16) * 16 + o % 16
bit_or-sixteen a k o e = ground (
  arith,
  bit_or-double a (k * 8) o (omega arith),
  bit_or-double (k * 8) (k * 4) (o / 2) (omega arith),
  bit_or-double (k * 4) (k * 2) (o / 2 / 2) (omega arith),
  bit_or-double (k * 2) k (o / 2 / 2 / 2) (omega arith),
  ap (bit_or k) sixteenth,
)
  where
    sixteenth : o / 2 / 2 / 2 / 2 ≡ o / 16
    sixteenth = omega arith

-- `|` of a byte into the place that a shift by eight has cleared is a sum.
pub bit_or_low_byte : (k o : ℕ) → o < 256 → bit_or (k * 256) o ≡ k * 256 + o
bit_or_low_byte k o h = ground (
  arith,
  bit_or-sixteen (k * 256) (k * 16) o (omega arith),
  bit_or-sixteen (k * 16) k (o / 16) (omega arith),
  ap (bit_or k) nothing,
  bit_or-zero k,
)
  where
    nothing : o / 16 / 16 ≡ 0
    nothing = omega arith
