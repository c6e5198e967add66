-- ===== src/Wire.antt =====
-- src/network/PacketSerializer.cpp, `write` and `read`: words of one to eight bytes, the most
-- significant byte first.
pub mod BigEndian
pub mod Words
use Prim.Native.Nat.{bit_or}
use smart_sensor_network.Prelude.{
  ℕ, zero, suc, ◌+◌, ◌*◌, ◌/◌, ◌%◌, ◌^◌, [], ◌∷◌, ◌++◌, Bytes, codes, length, get_or, ltb,
  if◌then◌else◌, Result, ok, throw, Exception, runtime_error,
}

abbrev pub bits_per_byte : ℕ
bits_per_byte = 8

-- The rounds of `for (i = sizeof(T); i > 0; --i)` that are left. The mask 0xFF keeps the low byte.
unfoldable pub write_loop : ℕ → Bytes → ℕ → Bytes
write_loop zero buffer value = buffer
write_loop (suc i) buffer value =
    write_loop i (buffer ++ (value / 2 ^ (i * bits_per_byte) % 256 ∷ [])) value

unfoldable pub write : ℕ → Bytes → ℕ → Bytes
unfolding write_loop
write width buffer value = write_loop width buffer value

-- The rounds of the loop of `read` that are left; the cast to T keeps `width` bytes of the word.
unfoldable pub read_loop : ℕ → ℕ → Bytes → ℕ → ℕ → ℕ × ℕ
read_loop width zero buffer offset value = (value, offset)
read_loop width (suc left) buffer offset value =
    read_loop width left buffer (offset + 1)
      (bit_or (value * 2 ^ bits_per_byte) (get_or buffer offset 0) % 2 ^ (width * bits_per_byte))

abbrev pub underflow : Exception
underflow = runtime_error (codes "Buffer underflow during deserialization")

-- The value that was read, with the new offset.
unfoldable pub read : ℕ → Bytes → ℕ → Result (ℕ × ℕ)
unfolding read_loop
read width buffer offset =
    if ltb (length buffer) (offset + width)
    then throw underflow
    else ok (read_loop width width buffer offset 0)
