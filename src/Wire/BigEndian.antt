-- ===== src/Wire/BigEndian.antt =====
-- The wire format of a word, written down without the loops of the source: base 256 digits, the most
-- significant first.
use mathlib.Core.Path.{ap₂}
use native.Mathlib.Nat.{
  pow-suc, add-mul, mul-add-div_right, mul-add-mod_self_right, mod-eq_of_lt, mod-lt, div-eq_of_lt,
  mod-one, div-add-mod', mul-le-mul_right,
}
use smart_sensor_network.Prelude.{
  ℕ, zero, suc, ◌+◌, ◌*◌, ◌/◌, ◌%◌, ◌^◌, ◌≤◌, ◌<◌, ◌≡◌, refl, sym, ◌∙◌, ap, [], ◌∷◌, Bytes,
  AreBytes, length, arith,
}

-- The number whose digits are `bytes`, behind the digits of `acc`.
abbrev pub horner : ℕ → Bytes → ℕ
horner acc [] = acc
horner acc (b ∷ bs) = horner (acc * 256 + b) bs

abbrev pub big_endian : ℕ → ℕ → Bytes
big_endian zero v = []
big_endian (suc i) v = v / 2 ^ (i * 8) % 256 ∷ big_endian i v

pub length-big_endian : (k v : ℕ) → length (big_endian k v) ≡ k
length-big_endian zero v = refl
length-big_endian (suc k) v = ap suc (length-big_endian k v)

pub big_endian-AreBytes : (k v : ℕ) → AreBytes (big_endian k v)
big_endian-AreBytes zero v = tt
big_endian-AreBytes (suc k) v = (omega arith, big_endian-AreBytes k v)

pub byte_power : (k : ℕ) → 2 ^ (suc k * 8) ≡ 2 ^ (k * 8) * 256
byte_power k =
    let e : suc k * 8 ≡ suc (suc (suc (suc (suc (suc (suc (suc (k * 8)))))))) = omega arith in
    rw e (simp pow-suc (omega arith))

pub byte_power_pos : (k : ℕ) → 0 < 2 ^ (k * 8)
byte_power_pos zero = omega arith
byte_power_pos (suc k) = omega (arith, byte_power k, byte_power_pos k)

-- A word's last digits: the digit in front of them and the rest.
mod_split : (v n : ℕ) → 0 < n → v % (n * 256) ≡ v / n % 256 * n + v % n
mod_split v n h =
    ap (λ t. t % (n * 256)) whole
    ∙ mul-add-mod_self_right (v / n / 256) (n * 256) low
    ∙ mod-eq_of_lt small
  where
    low : ℕ
    low = v / n % 256 * n + v % n

    whole : v ≡ v / n / 256 * (n * 256) + low
    whole =
        let digits : v / n / 256 * 256 * n + v / n % 256 * n ≡ v / n * n =
          sym (add-mul _ _ n) ∙ ap (λ t. t * n) (div-add-mod' (v / n) 256) in
        omega (arith, div-add-mod' v n, digits)

    small : low < n * 256
    small =
        let digit : v / n % 256 ≤ 255 = omega arith in
        omega (arith, mul-le-mul_right n digit, mod-lt v h)

pub horner-big_endian :
    (k acc v : ℕ) → horner acc (big_endian k v) ≡ acc * 2 ^ (k * 8) + v % 2 ^ (k * 8)
horner-big_endian zero acc v = omega (arith, mod-one v)
horner-big_endian (suc k) acc v = omega (
  arith,
  horner-big_endian k (acc * 256 + v / 2 ^ (k * 8) % 256) v,
  byte_power k,
  ap (λ t. acc * t) (byte_power k),
  ap (λ t. v % t) (byte_power k),
  mod_split v (2 ^ (k * 8)) (byte_power_pos k),
)

-- The digits below the accumulator.
pub horner-eq : (acc : ℕ) (bs : Bytes) → horner acc bs ≡ acc * 2 ^ (length bs * 8) + horner 0 bs
horner-eq acc [] = omega arith
horner-eq acc (b ∷ bs) = omega (
  arith,
  horner-eq (acc * 256 + b) bs,
  horner-eq (0 + b) bs,
  ap (λ t. acc * t) (byte_power (length bs)),
)

digit : (b : ℕ) → b < 256 → b ≤ 255
digit b h = omega arith

pub horner-lt : (bs : Bytes) → AreBytes bs → horner 0 bs < 2 ^ (length bs * 8)
horner-lt [] h = omega arith
horner-lt (b ∷ bs) h = omega (
  arith,
  horner-eq (0 + b) bs,
  horner-lt bs h.1,
  byte_power (length bs),
  mul-le-mul_right (2 ^ (length bs * 8)) (digit b h.0),
)

-- Reading the digits of a word of `bs`' length gives `bs` back.
pub big_endian-horner :
    (acc : ℕ) (bs : Bytes) → AreBytes bs → big_endian (length bs) (horner acc bs) ≡ bs
big_endian-horner acc [] h = refl
big_endian-horner acc (b ∷ bs) h =
    let n : ℕ = 2 ^ (length bs * 8) in
    let value : horner (acc * 256 + b) bs ≡ (acc * 256 + b) * n + horner 0 bs =
      horner-eq (acc * 256 + b) bs in
    let low : horner 0 bs / n ≡ 0 = div-eq_of_lt (horner-lt bs h.1) in
    let high : horner (acc * 256 + b) bs / n ≡ acc * 256 + b =
      ap (λ t. t / n) value
      ∙ mul-add-div_right (byte_power_pos (length bs)) (acc * 256 + b) (horner 0 bs)
      ∙ omega arith in
    ap₂ ◌∷◌ (ap (λ t. t % 256) high ∙ omega arith) (big_endian-horner (acc * 256 + b) bs h.1)
