-- ===== src/Time.antt =====
-- src/include/common/TimeUtils.hpp: the timestamps of the messages and of the log lines.
-- The clock and the time zone are not the program's: what `system_clock::now()` and `localtime` give is
-- part of the input.
pub mod Text
use smart_sensor_network.Prelude.{
  ℕ, ◌+◌, ◌-◌, ◌*◌, ◌/◌, ◌%◌, ◌++◌, [], ◌∷◌, Bytes, codes, length, replicate,
}
use smart_sensor_network.Prelude.Decimal.{decimal}

-- `std::tm`, as far as it is printed.
pub record Tm : Type 0 where
  pub hour : ℕ
  pub min : ℕ
  pub sec : ℕ

-- `%H`, `%M` and `%S`: two digits each.
abbrev pub two_digits : ℕ → Bytes
two_digits n = (b'0' + n / 10) ∷ (b'0' + n % 10) ∷ []

-- `std::setw(width) << std::setfill('0')`.
abbrev pub zero_filled : ℕ → Bytes → Bytes
zero_filled width text = replicate (width - length text) b'0' ++ text

-- `ticks` of the clock are one millisecond.
module _ (ticks : ℕ) where
  -- `now()`, for the clock's count since the epoch.
  unfoldable pub now : ℕ → ℕ
  now count = count / ticks

  -- `local` is `localtime`, for whole seconds since the epoch.
  unfoldable pub current_time_string : (ℕ → Tm) → ℕ → Bytes
  current_time_string local count =
      let ms = count / ticks % 1000 in
      let tm = local (count / (ticks * 1000)) in
      two_digits tm.hour
      ++ (codes ":"
          ++ (two_digits tm.min
              ++ (codes ":" ++ (two_digits tm.sec ++ (codes "." ++ zero_filled 3 (decimal ms))))))
