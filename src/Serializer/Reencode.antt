-- ===== src/Serializer/Reencode.antt =====
-- Bytes through the telemetry decoder and back.
use Prim.Native.Nat.add
use mathlib.Core.Path.{ap₂}
use smart_sensor_network.Prelude.{
  ℕ, zero, suc, [], ◌∷◌, inl, inr, ◌+◌, ◌≤◌, ◌≡◌, refl, sym, ap, ◌∙◌, ◌++◌, Bytes, AreBytes, length,
  take, drop, arith, ge→ltb, ok,
}
use smart_sensor_network.Protocol.{
  TelemetryMessage, message_type_byte-message_type, sensor_type_byte-sensor_type,
  sensor_state_byte-sensor_state,
}
use smart_sensor_network.Wire.BigEndian.{big_endian, big_endian-horner}
use smart_sensor_network.Wire.Words.{slice}
use smart_sensor_network.Serializer.{serialize_telemetry, deserialize_telemetry}
use smart_sensor_network.Serializer.Decode.{
  word, decoded_header, decoded_telemetry, deserialize_telemetry_lem, length-slice, slice-AreBytes,
  deserialize_telemetry_total,
}
use smart_sensor_network.Serializer.RoundTrip.{
  header_wire, payload_wire, serialize_telemetry-eq-wire,
}

take-nil : (n : ℕ) → take {A = ℕ} n [] ≡ []
take-nil zero = refl
take-nil (suc n) = refl

drop-nil : (n : ℕ) → drop {A = ℕ} n [] ≡ []
drop-nil zero = refl
drop-nil (suc n) = refl

slice-append_from : (a c : ℕ) (b : Bytes) → take a b ++ take c (drop a b) ≡ take (a + c) b
slice-append_from zero c b = ap (λ t. take t b) (omega arith)
slice-append_from (suc a) c [] = take-nil c ∙ sym (take-nil (suc a + c))
slice-append_from (suc a) c (x ∷ b) = rw (add.suc a c) (ap (λ t. x ∷ t) (slice-append_from a c b))

-- Two slices that meet are one slice.
slice-append : (o a c : ℕ) (b : Bytes) → slice o a b ++ slice (o + a) c b ≡ slice o (a + c) b
slice-append zero a c b = ap (λ t. take a b ++ slice t c b) (omega arith) ∙ slice-append_from a c b
slice-append (suc o) a c [] = simp (drop-nil, take-nil)
slice-append (suc o) a c (x ∷ b) = rw (add.suc o a) (slice-append o a c b)

big_endian-word :
    (k o : ℕ) (b : Bytes) → AreBytes b → o + k ≤ length b → big_endian k (word k o b) ≡ slice o k b
big_endian-word k o b bytes h =
    rw (length-slice k o b h) at (big_endian-horner 0 (slice o k b) (slice-AreBytes k o b bytes))

header_wire-decoded_header :
    (b : Bytes) → AreBytes b → 13 ≤ length b → header_wire (decoded_header b) ≡ slice 0 13 b
header_wire-decoded_header b bytes h =
    ap₂ ◌++◌
      (ap (big_endian 1) (message_type_byte-message_type (word 1 0 b))
        ∙ big_endian-word 1 0 b bytes (omega arith))
      (ap₂ ◌++◌ (big_endian-word 4 1 b bytes (omega arith))
          (big_endian-word 8 5 b bytes (omega arith))
        ∙ slice-append 1 4 8 b)
    ∙ slice-append 0 1 12 b

payload_wire-decoded_telemetry :
    (b : Bytes) → AreBytes b → 23 ≤ length b → payload_wire (decoded_telemetry b) ≡ slice 13 10 b
payload_wire-decoded_telemetry b bytes h =
    ap₂ ◌++◌
      (ap (big_endian 1) (sensor_type_byte-sensor_type (word 1 13 b))
        ∙ big_endian-word 1 13 b bytes (omega arith))
      (ap₂ ◌++◌
          (ap (big_endian 1) (sensor_state_byte-sensor_state (word 1 14 b))
            ∙ big_endian-word 1 14 b bytes (omega arith))
          (big_endian-word 8 15 b bytes (omega arith))
        ∙ slice-append 14 1 8 b)
    ∙ slice-append 13 1 9 b

-- Whatever bytes a message is decoded from, serializing it gives back the first 23 of them.
pub serialize_telemetry-deserialize_telemetry :
    (b : Bytes) (m : TelemetryMessage)
    → AreBytes b
    → deserialize_telemetry b ≡ ok m
    → serialize_telemetry m ≡ take 23 b
serialize_telemetry-deserialize_telemetry b m bytes e = elim (deserialize_telemetry_total b bytes) [
  | inl (short, thrown) ↦ cc
  | inr (enough, _) ↦
      let decoded : ok (decoded_telemetry b) ≡ ok m =
        rw (deserialize_telemetry_lem b bytes, ge→ltb (length b) 23 enough) at e in
      let same : decoded_telemetry b ≡ m = cc in
      ap serialize_telemetry (sym same)
      ∙ serialize_telemetry-eq-wire (decoded_telemetry b)
      ∙ ap₂ ◌++◌ (header_wire-decoded_header b bytes (omega arith))
          (payload_wire-decoded_telemetry b bytes enough)
      ∙ slice-append 0 13 10 b
]
