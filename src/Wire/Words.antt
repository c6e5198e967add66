-- ===== src/Wire/Words.antt =====
-- `write` and `read` against the big-endian format.
use native.Mathlib.Nat.{mod-eq_of_lt, mul-le-mul_left, mul-le-mul_right}
use native.Mathlib.Numerals.{add-one}
use Prim.Native.Nat.{bit_or}
use smart_sensor_network.Prelude.{
  ℕ, zero, suc, ◌+◌, ◌*◌, ◌/◌, ◌%◌, ◌^◌, ◌≤◌, ◌<◌, ◌≡◌, refl, sym, ◌∙◌, ap, [], ◌∷◌, ◌++◌,
  append-nil, append_assoc, Bytes, AreBytes, length, get_or, take, drop, arith, ltb, Bool-cases,
  inl, inr, ltb→ge, if◌then◌else◌, ok, throw,
}
use smart_sensor_network.Prelude.Bits.{bit_or-eq-add}
use smart_sensor_network.Wire.{write, write_loop, read, read_loop, underflow}
use smart_sensor_network.Wire.BigEndian.{horner, big_endian, byte_power, byte_power_pos}

-- `width` bytes of the buffer from `offset` on.
abbrev pub slice : ℕ → ℕ → Bytes → Bytes
slice offset width buffer = take width (drop offset buffer)

write_loop-eq : (i : ℕ) (buffer : Bytes) (v : ℕ) → write_loop i buffer v ≡ buffer ++ big_endian i v
unfolding write_loop
write_loop-eq zero buffer v = sym (append-nil buffer)
write_loop-eq (suc i) buffer v =
    write_loop-eq i (buffer ++ (v / 2 ^ (i * 8) % 256 ∷ [])) v
    ∙ append_assoc buffer (v / 2 ^ (i * 8) % 256 ∷ []) (big_endian i v)

-- `write` appends the big-endian form of the value.
pub write_lem :
    (width : ℕ) (buffer : Bytes) (v : ℕ) → write width buffer v ≡ buffer ++ big_endian width v
unfolding write
write_lem width buffer v = write_loop-eq width buffer v

drop-get_or : (n : ℕ) (xs : Bytes) → n < length xs → drop n xs ≡ get_or xs n 0 ∷ drop (suc n) xs
drop-get_or n [] h = elim h [ ]
drop-get_or zero (x ∷ xs) h = refl
drop-get_or (suc n) (x ∷ xs) h = drop-get_or n xs (omega arith)

get_or-lt : (n : ℕ) (xs : Bytes) → AreBytes xs → get_or xs n 0 < 256
get_or-lt n [] h = omega arith
get_or-lt zero (x ∷ xs) h = h.0
get_or-lt (suc n) (x ∷ xs) h = get_or-lt n xs h.1

-- One more byte takes a 256th of the room.
shift_room :
    (value b n m : ℕ) → b < 256 → (value + 1) * (n * 256) ≤ m → (value * 256 + b + 1) * n ≤ m
shift_room value b n m small room =
    let step : value * 256 + b + 1 ≤ (value + 1) * 256 = omega arith in
    omega (arith, mul-le-mul_right n step)

room_lt : (value : ℕ) {n m : ℕ} → 0 < n → (value + 1) * n ≤ m → value < m
room_lt value {n} {m} pos room =
    let one : 1 ≤ n = omega arith in omega (arith, mul-le-mul_left (value + 1) one)

-- While the word read so far leaves room for the rest, no round loses a bit.
read_loop-eq :
    (width left : ℕ) (buffer : Bytes) (offset value : ℕ)
    → AreBytes buffer
    → offset + left ≤ length buffer
    → (value + 1) * 2 ^ (left * 8) ≤ 2 ^ (width * 8)
    → read_loop width left buffer offset value
      ≡ (horner value (slice offset left buffer), offset + left)
unfolding read_loop
read_loop-eq width zero buffer offset value bytes inside room = ap (λ t. (value, t)) (omega arith)
read_loop-eq width (suc left) buffer offset value bytes inside room =
    let b : ℕ = get_or buffer offset 0 in
    let small : b < 256 = get_or-lt offset buffer bytes in
    let fits : (value * 256 + b + 1) * 2 ^ (left * 8) ≤ 2 ^ (width * 8) =
      shift_room value b (2 ^ (left * 8)) (2 ^ (width * 8)) small (rw (byte_power left) at room) in
    let word : bit_or (value * 2 ^ 8) b % 2 ^ (width * 8) ≡ value * 256 + b =
      ap (λ t. t % 2 ^ (width * 8)) (bit_or-eq-add 8 value b small)
      ∙ mod-eq_of_lt (room_lt (value * 256 + b) (byte_power_pos left) fits) in
    rw (word, drop-get_or offset buffer (omega arith))
      (rw (sym (add-one offset)) (
        rw (read_loop-eq width left buffer (offset + 1) (value * 256 + b) bytes (omega arith) fits)
          (ap (λ t. (horner (value * 256 + b) (slice (offset + 1) left buffer), t)) (omega arith))))

-- `read` gives the word whose digits stand at the offset, or throws where the buffer ends before them.
pub read_lem :
    (width : ℕ) (buffer : Bytes) (offset : ℕ)
    → AreBytes buffer
    → read width buffer offset ≡ (
        if ltb (length buffer) (offset + width)
        then throw underflow
        else ok (horner 0 (slice offset width buffer), offset + width))
unfolding read
read_lem width buffer offset bytes = elim (Bool-cases (ltb (length buffer) (offset + width))) [
  | inl short ↦ rw short
  | inr enough ↦
      rw enough
        (ap ok (read_loop-eq width width buffer offset 0 bytes (ltb→ge _ _ enough) (omega arith)))
]
