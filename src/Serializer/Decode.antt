-- ===== src/Serializer/Decode.antt =====
-- What the decoders make of any byte buffer.
use smart_sensor_network.Prelude.{
  ℕ, zero, suc, [], ◌∷◌, ◌*◌, ◌⊎◌, inl, inr, ap, take, drop, length-take, Bool-cases, ltb→lt,
  ltb→ge, ◌+◌, ◌^◌, ◌<◌, ◌≤◌, ◌≡◌, Bytes, AreBytes, length, arith, ltb, if◌then◌else◌, ok, throw,
}
use smart_sensor_network.Protocol.{
  PacketHeader, TelemetryMessage, message_type, sensor_type, sensor_state, IsHeader, IsTelemetry,
  message_type-IsMessageType, sensor_type-IsSensorType, sensor_state-IsSensorState,
}
use smart_sensor_network.Wire.{underflow}
use smart_sensor_network.Wire.BigEndian.{horner, horner-lt}
use smart_sensor_network.Wire.Words.{slice, read_lem}
use smart_sensor_network.Serializer.{
  deserialize_telemetry, deserialize_heartbeat, peek_message_type,
}

-- The word of `width` bytes at an offset.
abbrev pub word : ℕ → ℕ → Bytes → ℕ
word width offset buffer = horner 0 (slice offset width buffer)

-- The tables of the README: a header of 13 bytes, and 10 bytes of telemetry behind it.
abbrev pub decoded_header : Bytes → PacketHeader
decoded_header buffer = record {
  type = message_type (word 1 0 buffer);
  sensor_id = word 4 1 buffer;
  timestamp_ms = word 8 5 buffer;
}

abbrev pub decoded_telemetry : Bytes → TelemetryMessage
decoded_telemetry buffer = record {
  header = decoded_header buffer;
  type = sensor_type (word 1 13 buffer);
  state = sensor_state (word 1 14 buffer);
  value = word 8 15 buffer;
}

pub deserialize_telemetry_lem :
    (buffer : Bytes)
    → AreBytes buffer
    → deserialize_telemetry buffer
      ≡ (if ltb (length buffer) 23 then throw underflow else ok (decoded_telemetry buffer))
unfolding deserialize_telemetry
deserialize_telemetry_lem buffer bytes = ground (
  arith,
  read_lem 1 buffer 0 bytes,
  read_lem 4 buffer 1 bytes,
  read_lem 8 buffer 5 bytes,
  read_lem 1 buffer 13 bytes,
  read_lem 1 buffer 14 bytes,
  read_lem 8 buffer 15 bytes,
)

pub deserialize_heartbeat_lem :
    (buffer : Bytes)
    → AreBytes buffer
    → deserialize_heartbeat buffer ≡ (
        if ltb (length buffer) 13
        then throw underflow
        else ok (record { header = decoded_header buffer }))
unfolding deserialize_heartbeat
deserialize_heartbeat_lem buffer bytes =
    ground (arith, read_lem 1 buffer 0 bytes, read_lem 4 buffer 1 bytes, read_lem 8 buffer 5 bytes)

pub peek_message_type_lem :
    (buffer : Bytes)
    → AreBytes buffer
    → peek_message_type buffer
      ≡ (if ltb (length buffer) 13 then throw underflow else ok (message_type (word 1 0 buffer)))
unfolding peek_message_type
peek_message_type_lem buffer bytes =
    ground (arith, read_lem 1 buffer 0 bytes, read_lem 4 buffer 1 bytes, read_lem 8 buffer 5 bytes)

take-AreBytes : (n : ℕ) (xs : Bytes) → AreBytes xs → AreBytes (take n xs)
take-AreBytes zero xs h = tt
take-AreBytes (suc n) [] h = tt
take-AreBytes (suc n) (x ∷ xs) h = (h.0, take-AreBytes n xs h.1)

drop-AreBytes : (n : ℕ) (xs : Bytes) → AreBytes xs → AreBytes (drop n xs)
drop-AreBytes zero xs h = h
drop-AreBytes (suc n) [] h = tt
drop-AreBytes (suc n) (x ∷ xs) h = drop-AreBytes n xs h.1

length-drop : (n : ℕ) (xs : Bytes) → n ≤ length xs → length (drop n xs) + n ≡ length xs
length-drop zero xs h = omega arith
length-drop (suc n) [] h = absurd (omega arith)
length-drop (suc n) (x ∷ xs) h = omega (arith, length-drop n xs)

pub length-slice :
    (width offset : ℕ) (buffer : Bytes)
    → offset + width ≤ length buffer
    → length (slice offset width buffer) ≡ width
length-slice width offset buffer h =
    length-take width (drop offset buffer) (omega (arith, length-drop offset buffer))

pub slice-AreBytes :
    (width offset : ℕ) (buffer : Bytes) → AreBytes buffer → AreBytes (slice offset width buffer)
slice-AreBytes width offset buffer h =
    take-AreBytes width (drop offset buffer) (drop-AreBytes offset buffer h)

pub word-lt :
    (width offset : ℕ) (buffer : Bytes)
    → AreBytes buffer
    → offset + width ≤ length buffer
    → word width offset buffer < 2 ^ (width * 8)
word-lt width offset buffer bytes h =
    rw (ap (λ t. 2 ^ (t * 8)) (length-slice width offset buffer h)) at
      (horner-lt (slice offset width buffer) (slice-AreBytes width offset buffer bytes))

pub decoded_header-IsHeader :
    (buffer : Bytes) → AreBytes buffer → 13 ≤ length buffer → IsHeader (decoded_header buffer)
decoded_header-IsHeader buffer bytes h = record {
  type_ok = message_type-IsMessageType _ (word-lt 1 0 buffer bytes (omega arith));
  sensor_id_lt = word-lt 4 1 buffer bytes (omega arith);
  timestamp_lt = word-lt 8 5 buffer bytes (omega arith);
}

pub decoded_telemetry-IsTelemetry :
    (buffer : Bytes) → AreBytes buffer → 23 ≤ length buffer → IsTelemetry (decoded_telemetry buffer)
decoded_telemetry-IsTelemetry buffer bytes h = record {
  header_ok = decoded_header-IsHeader buffer bytes (omega arith);
  type_ok = sensor_type-IsSensorType _ (word-lt 1 13 buffer bytes (omega arith));
  state_ok = sensor_state-IsSensorState _ (word-lt 1 14 buffer bytes (omega arith));
  value_lt = word-lt 8 15 buffer bytes (omega arith);
}

-- On any bytes the telemetry decoder either throws, which it does exactly when there are fewer than
-- 23, or returns a message all of whose fields are in range.
pub deserialize_telemetry_total :
    (buffer : Bytes)
    → AreBytes buffer
    → ((length buffer < 23) × (deserialize_telemetry buffer ≡ throw underflow))
      ⊎ ((23 ≤ length buffer)
          × ((m : TelemetryMessage) × (deserialize_telemetry buffer ≡ ok m) × IsTelemetry m))
deserialize_telemetry_total buffer bytes = elim (Bool-cases (ltb (length buffer) 23)) [
  | inl short ↦ inl (ltb→lt _ _ short, rw (deserialize_telemetry_lem buffer bytes, short))
  | inr enough ↦ inr (
    ltb→ge _ _ enough,
    (
      decoded_telemetry buffer,
      rw (deserialize_telemetry_lem buffer bytes, enough),
      decoded_telemetry-IsTelemetry buffer bytes (ltb→ge _ _ enough),
    ),
  )
]
