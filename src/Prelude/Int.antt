-- ===== src/Prelude/Int.antt =====
-- `std::stoi`: white space, a sign and decimal digits in front of any text, within an `int`.
use Prim.Native.Nat.{ℕ, ◌+◌, ◌-◌, ◌*◌, ◌^◌}
use mathlib.Core.Bool.{Bool, false, ◌&&◌, ◌||◌}
use mathlib.Core.List.{[], ◌∷◌}
use smart_sensor_network.Prelude.Tests.{ltb, leb, ◌==◌, if◌then◌else◌}
use smart_sensor_network.Prelude.Lists.{Bytes, codes}
use smart_sensor_network.Prelude.Results.{Result, ok, throw, invalid_argument, out_of_range}

-- `negsuc n` is -(n + 1).
pub data ℤ : Type 0 where
  pos : ℕ → ℤ
  negsuc : ℕ → ℤ

abbrev pub is_space : ℕ → Bool
is_space c = c == b' ' || (leb 9 c && leb c 13)

abbrev pub is_digit : ℕ → Bool
is_digit c = leb b'0' c && leb c b'9'

abbrev pub digit : ℕ → ℕ
digit c = c - b'0'

-- The number that the digits in front stand for, behind the digits of `acc`.
unfoldable pub digits_value : ℕ → Bytes → ℕ
digits_value acc [] = acc
digits_value acc (c ∷ s) =
    let rest = digits_value (acc * 10 + digit c) s in if is_digit c then rest else acc

unfoldable pub skip_space : Bytes → Bytes
skip_space [] = []
skip_space (c ∷ s) = let rest = skip_space s in if is_space c then rest else c ∷ s

abbrev pub starts_digit : Bytes → Bool
starts_digit [] = false
starts_digit (c ∷ s) = is_digit c

abbrev pub int_max : ℕ
int_max = 2 ^ 31 - 1

abbrev pub stoi_text : Bytes
stoi_text = codes "stoi"

unfoldable pub non_negative : Bytes → Result ℤ
unfolding digits_value
non_negative s =
    if starts_digit s
    then (let n = digits_value 0 s in
        if ltb int_max n then throw (out_of_range stoi_text) else ok (pos n))
    else throw (invalid_argument stoi_text)

unfoldable pub negative : Bytes → Result ℤ
unfolding digits_value
negative s =
    if starts_digit s
    then (let n = digits_value 0 s in
        if ltb (int_max + 1) n
        then throw (out_of_range stoi_text)
        else if n == 0
        then ok (pos 0)
        else ok (negsuc (n - 1)))
    else throw (invalid_argument stoi_text)

unfoldable pub signed : Bytes → Result ℤ
unfolding non_negative negative
signed [] = throw (invalid_argument stoi_text)
signed (c ∷ s) =
    if c == b'-' then negative s else if c == b'+' then non_negative s else non_negative (c ∷ s)

unfoldable pub stoi : Bytes → Result ℤ
unfolding signed skip_space
stoi s = signed (skip_space s)
