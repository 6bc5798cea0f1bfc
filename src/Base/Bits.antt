-- ===== src/Base/Bits.antt =====
-- Facts about `|` at variables: where the operands have no common bit it is a sum.
use Prim.Native.Nat.{
  ℕ, zero, suc, ◌+◌, ◌*◌, ◌/◌, ◌%◌, ◌^◌, ◌≤◌, ◌<◌, max, bit_or, digits, bit_or-bitwise,
}
use mathlib.Core.Path.{◌≡◌, refl, ap}
use native.Mathlib.Omega.{arith}
use native.Mathlib.Nat.{pow-suc}

-- x >> k and x & (2 ^ k - 1).
abbrev pub shr : ℕ → ℕ → ℕ
shr x k = x / 2 ^ k

abbrev pub low_bits : ℕ → ℕ → ℕ
low_bits x k = x % 2 ^ k

abbrev or_digits : ℕ → ℕ → ℕ → ℕ
or_digits n a b = digits (λ b. b) max n a b

or_digits_fuel : (n m a b : ℕ) → a ≤ n → a ≤ m → or_digits n a b ≡ or_digits m a b
or_digits_fuel zero zero a b p q = refl
or_digits_fuel zero (suc m) zero b p q = refl
or_digits_fuel zero (suc m) (suc a) b p q = absurd (omega arith)
or_digits_fuel (suc n) zero zero b p q = refl
or_digits_fuel (suc n) zero (suc a) b p q = absurd (omega arith)
or_digits_fuel (suc n) (suc m) zero b p q = refl
or_digits_fuel (suc n) (suc m) (suc a) b p q =
    omega (arith, or_digits_fuel n m (suc a / 2) (b / 2) (omega arith) (omega arith))

zero-bit_or : (b : ℕ) → bit_or 0 b ≡ b
zero-bit_or b = bit_or-bitwise 0 b

bit_or_step : (a b : ℕ) → bit_or a b ≡ bit_or (a / 2) (b / 2) * 2 + max (a % 2) (b % 2)
bit_or_step zero b = omega (arith, zero-bit_or b, zero-bit_or (b / 2))
bit_or_step (suc a) b = omega (
  arith,
  bit_or-bitwise (suc a) b,
  bit_or-bitwise (suc a / 2) (b / 2),
  or_digits_fuel a (suc a / 2) (suc a / 2) (b / 2) (omega arith) (omega arith),
)

bit_or-zero_fuel : (n a : ℕ) → a ≤ n → bit_or a 0 ≡ a
bit_or-zero_fuel n zero h = refl
bit_or-zero_fuel zero (suc a) h = absurd (omega arith)
bit_or-zero_fuel (suc n) (suc a) h =
    omega (arith, bit_or_step (suc a) 0, bit_or-zero_fuel n (suc a / 2) (omega arith))

double : (k a : ℕ) → a * 2 ^ suc k ≡ 2 * (a * 2 ^ k)
double k a = omega (arith, ap (λ (t : ℕ). a * t) (pow-suc 2 k))

half_bound : (k b : ℕ) → b < 2 ^ suc k → b / 2 < 2 ^ k
half_bound k b h = omega (arith, pow-suc 2 k)

bit_or_even : (x b : ℕ) → bit_or (2 * x) b ≡ bit_or x (b / 2) * 2 + b % 2
bit_or_even x b = let e : 2 * x / 2 ≡ x = omega arith in rw (bit_or_step (2 * x) b, e) (omega arith)

bit_or_even_right : (x b : ℕ) → bit_or b (2 * x) ≡ bit_or (b / 2) x * 2 + b % 2
bit_or_even_right x b =
    let e : 2 * x / 2 ≡ x = omega arith in rw (bit_or_step b (2 * x), e) (omega arith)

-- `(a << k) | b` for b below 2 ^ k.
pub bit_or_high : (k a b : ℕ) → b < 2 ^ k → bit_or (a * 2 ^ k) b ≡ a * 2 ^ k + b
bit_or_high zero a zero h = omega (arith, bit_or-zero_fuel (a * 1) (a * 1) (omega arith))
bit_or_high zero a (suc b) h = absurd (omega arith)
bit_or_high (suc k) a b h =
    rw (double k a)
      (omega (arith, bit_or_even (a * 2 ^ k) b, bit_or_high k a (b / 2) (half_bound k b h)))

-- `b | (a << k)` for b below 2 ^ k.
pub bit_or_low : (k a b : ℕ) → b < 2 ^ k → bit_or b (a * 2 ^ k) ≡ b + a * 2 ^ k
bit_or_low zero a zero h = omega (arith, zero-bit_or (a * 1))
bit_or_low zero a (suc b) h = absurd (omega arith)
bit_or_low (suc k) a b h =
    rw (double k a)
      (omega (arith, bit_or_even_right (a * 2 ^ k) b, bit_or_low k a (b / 2) (half_bound k b h)))
