-- ===== src/Prelude/Bits.antt =====
-- `|` of a shifted word and a byte, from the digit recursion that the native operation stands for.
use Prim.Native.Nat.{
  ℕ, zero, suc, ◌+◌, ◌*◌, ◌/◌, ◌%◌, ◌^◌, ◌≤◌, ◌<◌, max, bit_or, digits, bit_or-bitwise,
}
use mathlib.Core.Path.{◌≡◌, refl}
use native.Mathlib.Nat.{pow-suc, mul_assoc}
use native.Mathlib.Omega.{arith}

abbrev or_digits : ℕ → ℕ → ℕ → ℕ
or_digits n a b = digits (λ b. b) max n a b

or_digits_fuel : (n m a b : ℕ) → a ≤ n → a ≤ m → or_digits n a b ≡ or_digits m a b
or_digits_fuel zero zero a b p q = refl
or_digits_fuel zero (suc m) zero b p q = refl
or_digits_fuel zero (suc m) (suc a) b p q = absurd (omega arith)
or_digits_fuel (suc n) zero zero b p q = refl
or_digits_fuel (suc n) zero (suc a) b p q = absurd (omega arith)
or_digits_fuel (suc n) (suc m) zero b p q = refl
or_digits_fuel (suc n) (suc m) (suc a) b p q =
    omega (arith, or_digits_fuel n m (suc a / 2) (b / 2) (omega arith) (omega arith))

zero-bit_or : (b : ℕ) → bit_or 0 b ≡ b
zero-bit_or b = bit_or-bitwise 0 b

or_step : (a b : ℕ) → bit_or a b ≡ bit_or (a / 2) (b / 2) * 2 + max (a % 2) (b % 2)
or_step zero b = omega (arith, zero-bit_or b, zero-bit_or (b / 2))
or_step (suc a) b = omega (
  arith,
  bit_or-bitwise (suc a) b,
  bit_or-bitwise (suc a / 2) (b / 2),
  or_digits_fuel a (suc a / 2) (suc a / 2) (b / 2) (omega arith) (omega arith),
)

bit_or-zero_fuel : (n a : ℕ) → a ≤ n → bit_or a 0 ≡ a
bit_or-zero_fuel n zero h = refl
bit_or-zero_fuel zero (suc a) h = absurd (omega arith)
bit_or-zero_fuel (suc n) (suc a) h =
    omega (arith, or_step (suc a) 0, bit_or-zero_fuel n (suc a / 2) (omega arith))

bit_or-zero : (a : ℕ) → bit_or a 0 ≡ a
bit_or-zero a = bit_or-zero_fuel a a (omega arith)

double : (a k : ℕ) → a * 2 ^ suc k ≡ a * 2 ^ k * 2
double a k = simp (pow-suc, mul_assoc)

-- Where the low `k` bits of the left word are zero and the right word has no others, `|` adds.
pub bit_or-eq-add : (k a b : ℕ) → b < 2 ^ k → bit_or (a * 2 ^ k) b ≡ a * 2 ^ k + b
bit_or-eq-add zero a b h =
    let none_left : b ≡ 0 = omega arith in rw none_left (omega (arith, bit_or-zero (a * 1)))
bit_or-eq-add (suc k) a b h =
    let half : b / 2 < 2 ^ k = omega (arith, double 1 k) in
    let low : bit_or (a * 2 ^ k) (b / 2) ≡ a * 2 ^ k + b / 2 = bit_or-eq-add k a (b / 2) half in
    let whole : bit_or (a * 2 ^ k * 2) b ≡ a * 2 ^ k * 2 + b =
      omega (arith, step (a * 2 ^ k) b, low) in
    rw (double a k) whole
  where
    step : (x y : ℕ) → bit_or (x * 2) y ≡ bit_or x (y / 2) * 2 + y % 2
    step x y =
        let quotient : x * 2 / 2 ≡ x = omega arith in
        let rest : x * 2 % 2 ≡ 0 = omega arith in
        rw (or_step (x * 2) y, quotient, rest) (omega arith)
