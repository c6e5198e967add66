-- ===== src/Time/Text.antt =====
-- `currentTimeString` and what its text says.
use smart_sensor_network.Prelude.{
  ℕ, suc, ◌+◌, ◌-◌, ◌*◌, ◌/◌, ◌%◌, ◌<◌, ◌≤◌, ◌≡◌, refl, ap, ◌∙◌, ◌++◌, [], ◌∷◌, Bytes, codes,
  Option, some, none, arith, leb, ltb, lt→ltb, ge→ltb, ltb→lt, ltb→ge, Bool-cases, inl, inr, ◌==◌,
  ◌&&◌, if◌then◌else◌,
}
use smart_sensor_network.Prelude.Decimal.{decimal, decimal_fuel}
use smart_sensor_network.Time.{Tm, two_digits, zero_filled, now, current_time_string}

-- The digits of a number below ten, below a hundred, and of three.
one_digit : (fuel n : ℕ) → n < 10 → decimal_fuel (suc fuel) n ≡ (b'0' + n) ∷ []
unfolding decimal_fuel
one_digit fuel n h = rw (lt→ltb n 10 h) refl

more_digits :
    (fuel n : ℕ)
    → 10 ≤ n
    → decimal_fuel (suc fuel) n ≡ decimal_fuel fuel (n / 10) ++ ((b'0' + n % 10) ∷ [])
unfolding decimal_fuel
more_digits fuel n h = rw (ge→ltb n 10 h) refl

three_digits : ℕ → Bytes
three_digits n = (b'0' + n / 100) ∷ (b'0' + n / 10 % 10) ∷ (b'0' + n % 10) ∷ []

three :
    {a b c a' b' c' : ℕ}
    → a ≡ a'
    → b ≡ b'
    → c ≡ c'
    → ◌≡◌ {A = Bytes} (a ∷ b ∷ c ∷ []) (a' ∷ b' ∷ c' ∷ [])
three p q r i = p i ∷ q i ∷ r i ∷ []

decimal-suc : (n : ℕ) → decimal n ≡ decimal_fuel (suc n) n
unfolding decimal
decimal-suc n =
    let one_more : n + 1 ≡ suc n = omega arith in ap (λ fuel. decimal_fuel fuel n) one_more

-- A number below a thousand, filled to three digits.
zero_filled-decimal : (n : ℕ) → n < 1000 → zero_filled 3 (decimal n) ≡ three_digits n
unfolding three_digits
zero_filled-decimal n h = elim (Bool-cases (ltb n 10)) [
  | inl below ↦
      let small : n < 10 = ltb→lt n 10 below in
      ap (zero_filled 3) (decimal-suc n ∙ one_digit n n small)
      ∙ three (omega arith) (omega arith) (omega arith)
  | inr above ↦
      let least : 10 ≤ n = ltb→ge n 10 above in
      let fuel : n ≡ suc (n - 1) = omega arith in
      let split : decimal n ≡ decimal_fuel (suc (n - 1)) (n / 10) ++ ((b'0' + n % 10) ∷ []) =
        decimal-suc n
        ∙ more_digits n n least
        ∙ ap (λ k. decimal_fuel k (n / 10) ++ ((b'0' + n % 10) ∷ [])) fuel in
      elim (Bool-cases (ltb (n / 10) 10)) [
        | inl two ↦
            let small : n / 10 < 10 = ltb→lt (n / 10) 10 two in
            ap (zero_filled 3)
              (split ∙ ap (λ t. t ++ ((b'0' + n % 10) ∷ [])) (one_digit (n - 1) (n / 10) small))
            ∙ three (omega arith) (omega arith) refl
        | inr three_long ↦
            let many : 10 ≤ n / 10 = ltb→ge (n / 10) 10 three_long in
            let more : n - 1 ≡ suc (n - 2) = omega arith in
            ap (zero_filled 3) (
              split
              ∙ ap (λ t. t ++ ((b'0' + n % 10) ∷ []))
                  (more_digits (n - 1) (n / 10) many
                    ∙ ap (λ k. decimal_fuel k (n / 10 / 10) ++ ((b'0' + n / 10 % 10) ∷ [])) more
                    ∙ ap (λ t. t ++ ((b'0' + n / 10 % 10) ∷ []))
                        (one_digit (n - 2) (n / 10 / 10) (omega arith))))
            ∙ three (omega arith) refl refl
      ]
]

infixl 5 ◌>>=◌
abbrev ◌>>=◌ {ℓ κ} : {A : Type ℓ} {B : Type κ} → Option A → (A → Option B) → Option B
none >>= f = none
some a >>= f = f a

-- What a character says as a digit, and what two and three of them say.
abbrev digit : ℕ → Option ℕ
digit c = if leb b'0' c && leb c b'9' then some (c - b'0') else none

unfoldable read_two : ℕ → ℕ → Option ℕ
read_two a b = do m ← digit a; n ← digit b; some (10 * m + n)

unfoldable read_three : ℕ → ℕ → ℕ → Option ℕ
unfolding read_two
read_three a b c = do m ← digit a; n ← read_two b c; some (100 * m + n)

abbrev all_four : Option ℕ → Option ℕ → Option ℕ → Option ℕ → Option (ℕ × ℕ × ℕ × ℕ)
all_four hour min sec ms = do h ← hour; m ← min; s ← sec; x ← ms; some (h, m, s, x)

-- The time of day that a text of the form "HH:MM:SS.mmm" says, where each letter is a digit: hours,
-- minutes, seconds, milliseconds. Any other text says none.
unfoldable pub read_time : Bytes → Option (ℕ × ℕ × ℕ × ℕ)
unfolding read_two read_three
read_time (h ∷ h' ∷ c ∷ m ∷ m' ∷ d ∷ s ∷ s' ∷ p ∷ x ∷ y ∷ z ∷ []) =
    if c == b':' && d == b':' && p == b'.'
    then all_four (read_two h h') (read_two m m') (read_two s s') (read_three x y z)
    else none
read_time _ = none

-- What `localtime` gives, a leap second included.
pub record IsTm (tm : Tm) : Type 0 where
  pub hour_lt : tm.hour < 24
  pub min_lt : tm.min < 60
  pub sec_le : tm.sec ≤ 60

four :
    {a b c d a' b' c' d' : Option ℕ}
    → a ≡ a'
    → b ≡ b'
    → c ≡ c'
    → d ≡ d'
    → all_four a b c d ≡ all_four a' b' c' d'
four p q r s i = all_four (p i) (q i) (r i) (s i)

digit-lem : (n : ℕ) → n < 10 → digit (b'0' + n) ≡ some n
digit-lem n h = ground arith

two_read : (n : ℕ) → n < 100 → read_two (b'0' + n / 10) (b'0' + n % 10) ≡ some n
unfolding read_two
two_read n h =
    let sum : 10 * (n / 10) + n % 10 ≡ n = omega arith in
    rw (digit-lem (n / 10) (omega arith), digit-lem (n % 10) (omega arith)) (ap some sum)

three_read :
    (n : ℕ) → n < 1000 → read_three (b'0' + n / 100) (b'0' + n / 10 % 10) (b'0' + n % 10) ≡ some n
unfolding read_three read_two
three_read n h =
    let sum : 100 * (n / 100) + (10 * (n / 10 % 10) + n % 10) ≡ n = omega arith in
    rw
      (
        digit-lem (n / 100) (omega arith),
        digit-lem (n / 10 % 10) (omega arith),
        digit-lem (n % 10) (omega arith),
      )
      (ap some sum)

-- For a time zone that gives hours below 24, minutes below 60 and seconds up to 60, the text of a log line's time has
-- the form "HH:MM:SS.mmm", each letter a digit, and is read back as the local hour, minute and second of the clock's
-- second and the millisecond within it that `now()` has.
pub read_time-current_time_string :
    (ticks : ℕ) (local : ℕ → Tm) (count : ℕ)
    → ((second : ℕ) → IsTm (local second))
    → let tm = local (count / (ticks * 1000)) in
      read_time (current_time_string ticks local count)
      ≡ some (tm.hour, tm.min, tm.sec, now ticks count % 1000)
unfolding current_time_string now three_digits read_time read_two read_three
read_time-current_time_string ticks local count zone =
    let ms : ℕ = count / ticks % 1000 in
    let tm : Tm = local (count / (ticks * 1000)) in
    let valid : IsTm tm = zone (count / (ticks * 1000)) in
    let filled = zero_filled-decimal ms (omega arith) in
    ap
      (λ (t : Bytes). read_time (
        two_digits tm.hour
        ++ (codes ":"
            ++ (two_digits tm.min ++ (codes ":" ++ (two_digits tm.sec ++ (codes "." ++ t)))))))
      filled
    ∙ four (two_read tm.hour (omega (arith, valid.hour_lt)))
        (two_read tm.min (omega (arith, valid.min_lt)))
        (two_read tm.sec (omega (arith, valid.sec_le))) (three_read ms (omega arith))
