-- ===== src/Prelude/RoundTrip.antt =====
-- `std::stoi` reads back what `std::to_string` prints.
use Prim.Native.Nat.{ℕ, zero, suc, ◌+◌, ◌*◌, ◌/◌, ◌%◌, ◌≤◌, ◌<◌}
use mathlib.Core.Path.{◌≡◌, refl, ◌∙◌, ap}
use mathlib.Core.Logic.{inl, inr, ◌≢◌}
use native.Mathlib.Numerals.{add-one}
use mathlib.Core.List.{[], ◌∷◌, ◌++◌}
use native.Mathlib.Omega.{arith}
use smart_sensor_network.Prelude.Tests.{ltb, Bool-cases, ltb→lt, ltb→ge}
use smart_sensor_network.Prelude.Lists.{Bytes, All, All-append}
use smart_sensor_network.Prelude.Results.{ok}
use smart_sensor_network.Prelude.Decimal.{decimal, decimal_fuel}
use smart_sensor_network.Prelude.Int.{pos, digit, digits_value, stoi, int_max}

abbrev IsDigit : ℕ → Type 0
IsDigit c = (48 ≤ c) × (c ≤ 57)

digits_value-append :
    (acc : ℕ) (s : Bytes) (c : ℕ)
    → All IsDigit s
    → IsDigit c
    → digits_value acc (s ++ (c ∷ [])) ≡ digits_value acc s * 10 + digit c
unfolding digits_value
digits_value-append acc [] c h d = ground arith
digits_value-append acc (x ∷ s) c h d =
    ground (arith, digits_value-append (acc * 10 + digit x) s c h.1 d)

decimal_fuel-IsDigit : (fuel n : ℕ) → All IsDigit (decimal_fuel fuel n)
unfolding decimal_fuel
decimal_fuel-IsDigit zero n = tt
decimal_fuel-IsDigit (suc fuel) n = elim (Bool-cases (ltb n 10)) [
  | inl last ↦ let small : n < 10 = ltb→lt n 10 last in rw last ((omega arith, omega arith), tt)
  | inr more ↦ rw more (
      All-append IsDigit (decimal_fuel fuel (n / 10)) ((b'0' + n % 10) ∷ [])
        (decimal_fuel-IsDigit fuel (n / 10)) ((omega arith, omega arith), tt))
]

digit_alone : (n : ℕ) → n < 10 → digits_value 0 ((b'0' + n) ∷ []) ≡ n
unfolding digits_value
digit_alone n h = ground arith

decimal_fuel-value : (fuel n : ℕ) → n < fuel → digits_value 0 (decimal_fuel fuel n) ≡ n
unfolding decimal_fuel
decimal_fuel-value zero n h = absurd (omega arith)
decimal_fuel-value (suc fuel) n h = elim (Bool-cases (ltb n 10)) [
  | inl last ↦ rw last (digit_alone n (ltb→lt n 10 last))
  | inr more ↦
      let large : 10 ≤ n = ltb→ge n 10 more in
      let front : digits_value 0 (decimal_fuel fuel (n / 10)) ≡ n / 10 =
        decimal_fuel-value fuel (n / 10) (omega arith) in
      rw more (
        digits_value-append 0 (decimal_fuel fuel (n / 10)) (b'0' + n % 10)
          (decimal_fuel-IsDigit fuel (n / 10)) (omega arith, omega arith)
        ∙ omega (arith, front))
]

append-ne_nil : (s : Bytes) (c : ℕ) → s ++ (c ∷ []) ≢ []
append-ne_nil [] c e = cc
append-ne_nil (x ∷ s) c e = cc

decimal_fuel-ne_nil : (fuel n : ℕ) → decimal_fuel (suc fuel) n ≢ []
unfolding decimal_fuel
decimal_fuel-ne_nil fuel n = elim (Bool-cases (ltb n 10)) [
  | inl last ↦ rw last (λ e. cc)
  | inr more ↦ rw more (append-ne_nil (decimal_fuel fuel (n / 10)) (b'0' + n % 10))
]

-- A text of digits that starts with one is read as its value, if that is an `int`.
stoi_digits :
    (s : Bytes)
    → All IsDigit s
    → s ≢ []
    → digits_value 0 s ≤ int_max
    → stoi s ≡ ok (pos (digits_value 0 s))
unfolding stoi
stoi_digits [] h ne fits = absurd (ne refl)
stoi_digits (c ∷ s) h ne fits = ground arith

-- Every number that fits an `int` is read back from its decimal digits.
pub stoi-decimal : (n : ℕ) → n ≤ int_max → stoi (decimal n) ≡ ok (pos n)
unfolding decimal
stoi-decimal n h =
    let s : Bytes = decimal_fuel (n + 1) n in
    let value : digits_value 0 s ≡ n = decimal_fuel-value (n + 1) n (omega arith) in
    let ne : s ≢ [] = rw (add-one n) (decimal_fuel-ne_nil n n) in
    stoi_digits s (decimal_fuel-IsDigit (n + 1) n) ne (omega arith) ∙ ap (λ t. ok (pos t)) value
