-- ===== src/Double.antt =====
-- The `double` comparisons of src/sensor, on IEEE 754 bit patterns: sign in bit 63, then the magnitude,
-- whose order is that of the patterns; the patterns above infinity's are NaN.
use smart_sensor_network.Prelude.{
  ℕ, ◌+◌, ◌-◌, ◌%◌, ◌^◌, ◌<◌, ◌≤◌, ◌≡◌, Bool, false, not, ◌&&◌, ltb, leb, if◌then◌else◌,
}

abbrev pub infinity : ℕ
infinity = 0x7ff0_0000_0000_0000

abbrev pub is_nan : ℕ → Bool
is_nan x = ltb infinity (x % 2 ^ 63)

-- A number that orders the patterns as their values are ordered; both zeros have one rank.
abbrev pub rank : ℕ → ℕ
rank x = if ltb x (2 ^ 63) then 2 ^ 63 + x else 2 ^ 64 - x

-- `a < b` and `a <= b`; `a > b` is `b < a`. A comparison with NaN is false.
unfoldable pub less : ℕ → ℕ → Bool
less a b = not (is_nan a) && (not (is_nan b) && ltb (rank a) (rank b))

unfoldable pub less_eq : ℕ → ℕ → Bool
less_eq a b = not (is_nan a) && (not (is_nan b) && leb (rank a) (rank b))

-- A `double` that is a number, and one from 0 up to and with infinity.
abbrev pub IsNumber : ℕ → Type 0
IsNumber x = (x < 2 ^ 64) × (is_nan x ≡ false)

abbrev pub IsNonNegative : ℕ → Type 0
IsNonNegative x = x ≤ infinity
