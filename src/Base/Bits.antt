-- ===== src/Base/Bits.antt =====
-- Single bits of machine words, and bitwise or as arithmetic.
use Prim.Native.Nat.{
  ℕ, zero, suc, ◌+◌, ◌-◌, ◌*◌, ◌/◌, ◌%◌, ◌^◌, ◌<◌, ◌≤◌, max, digits, bit_or, bit_or-bitwise,
}
use mathlib.Core.Path.{◌≡◌, refl, ap, ◌∙◌}
use mathlib.Core.Bool.{Bool}
use native.Mathlib.Nat.{pow-suc}
use native.Mathlib.Omega.{arith}
use valkyrie.Base.Tests.{◌==◌, if◌then◌else◌}

-- `x & (1 << k)`, as a test
abbrev pub has_bit : ℕ → ℕ → Bool
has_bit k x = x / 2 ^ k % 2 == 1

-- `x | (1 << k)`
abbrev pub set_bit : ℕ → ℕ → ℕ
set_bit k x = if has_bit k x then x else x + 2 ^ k

-- `x & ~(1 << k)`
abbrev pub clear_bit : ℕ → ℕ → ℕ
clear_bit k x = if has_bit k x then x - 2 ^ k else x

abbrev or_digits : ℕ → ℕ → ℕ → ℕ
or_digits n a b = digits (λ b. b) max n a b

or_digits_fuel : (n m a b : ℕ) → a ≤ n → a ≤ m → or_digits n a b ≡ or_digits m a b
or_digits_fuel zero zero a b p q = refl
or_digits_fuel zero (suc m) zero b p q = refl
or_digits_fuel zero (suc m) (suc a) b p q = absurd (omega arith)
or_digits_fuel (suc n) zero zero b p q = refl
or_digits_fuel (suc n) zero (suc a) b p q = absurd (omega arith)
or_digits_fuel (suc n) (suc m) zero b p q = refl
or_digits_fuel (suc n) (suc m) (suc a) b p q =
    omega (arith, or_digits_fuel n m (suc a / 2) (b / 2) (omega arith) (omega arith))

pub zero-bit_or : (b : ℕ) → bit_or 0 b ≡ b
zero-bit_or b = bit_or-bitwise 0 b

-- The lowest digit of a bitwise or.
pub bit_or_step : (a b : ℕ) → bit_or a b ≡ bit_or (a / 2) (b / 2) * 2 + max (a % 2) (b % 2)
bit_or_step zero b = omega (arith, zero-bit_or b, zero-bit_or (b / 2))
bit_or_step (suc a) b = omega (
  arith,
  bit_or-bitwise (suc a) b,
  bit_or-bitwise (suc a / 2) (b / 2),
  or_digits_fuel a (suc a / 2) (suc a / 2) (b / 2) (omega arith) (omega arith),
)

bit_or-zero_fuel : (n a : ℕ) → a ≤ n → bit_or a 0 ≡ a
bit_or-zero_fuel n zero h = refl
bit_or-zero_fuel zero (suc a) h = absurd (omega arith)
bit_or-zero_fuel (suc n) (suc a) h =
    omega (arith, bit_or_step (suc a) 0, bit_or-zero_fuel n (suc a / 2) (omega arith))

pub bit_or-zero : (a : ℕ) → bit_or a 0 ≡ a
bit_or-zero a = bit_or-zero_fuel a a (omega arith)

double : (q k : ℕ) → q * 2 ^ suc k ≡ 2 * (q * 2 ^ k)
double q k = omega (arith, ap (λ (t : ℕ). q * t) (pow-suc 2 k))

-- Low bits that only the second number has.
pub bit_or_low :
    (k q h r : ℕ) → r < 2 ^ k → bit_or (q * 2 ^ k) (h * 2 ^ k + r) ≡ bit_or q h * 2 ^ k + r
bit_or_low zero q h r fits =
    let a : q * 1 ≡ q = omega arith in
    let b : h * 1 + r ≡ h = omega (arith, fits) in
    let c : r ≡ 0 = omega (arith, fits) in rw (a, b, c) (omega arith)
bit_or_low (suc k) q h r fits =
    let a : q * 2 ^ suc k / 2 ≡ q * 2 ^ k = omega (arith, double q k) in
    let b : (h * 2 ^ suc k + r) / 2 ≡ h * 2 ^ k + r / 2 = omega (arith, double h k) in
    let low : r / 2 < 2 ^ k = omega (arith, pow-suc 2 k) in
    omega (
      arith,
      bit_or_step (q * 2 ^ suc k) (h * 2 ^ suc k + r),
      ap (λ (t : ℕ). bit_or t ((h * 2 ^ suc k + r) / 2)) a,
      ap (bit_or (q * 2 ^ k)) b,
      bit_or_low k q h (r / 2) low,
      double q k,
      double h k,
      double (bit_or q h) k,
    )

-- Low bits that only the first number has.
pub bit_or_high : (k q r : ℕ) → r < 2 ^ k → bit_or r (q * 2 ^ k) ≡ q * 2 ^ k + r
bit_or_high zero q r fits =
    let a : q * 1 ≡ q = omega arith in
    let c : r ≡ 0 = omega (arith, fits) in rw (a, c) (zero-bit_or q ∙ omega arith)
bit_or_high (suc k) q r fits =
    let a : q * 2 ^ suc k / 2 ≡ q * 2 ^ k = omega (arith, double q k) in
    let low : r / 2 < 2 ^ k = omega (arith, pow-suc 2 k) in
    omega (
      arith,
      bit_or_step r (q * 2 ^ suc k),
      ap (bit_or (r / 2)) a,
      bit_or_high k q (r / 2) low,
      double q k,
    )
