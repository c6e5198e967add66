-- ===== src/Serializer/RoundTrip.antt =====
-- Messages through the encoders and back, and the layout of the packets.
use native.Mathlib.Nat.{mod-eq_of_lt}
use smart_sensor_network.Prelude.{
  ℕ, ◌*◌, ◌^◌, ◌<◌, ◌≡◌, refl, ap, ◌∙◌, ◌++◌, Bytes, AreBytes, All-append, length, arith, ge→ltb,
  ok,
}
use smart_sensor_network.Protocol.{
  HeartbeatMessage, TelemetryMessage, PacketHeader, message_type_byte, sensor_type_byte,
  sensor_state_byte, message_type, sensor_type, sensor_state, IsHeader, IsTelemetry,
  message_type-message_type_byte, sensor_type-sensor_type_byte, sensor_state-sensor_state_byte,
  message_type_byte-lt, sensor_type_byte-lt, sensor_state_byte-lt,
}
use smart_sensor_network.Wire.BigEndian.{horner, big_endian, horner-big_endian, big_endian-AreBytes}
use smart_sensor_network.Wire.Words.{write_lem}
use smart_sensor_network.Serializer.{
  serialize_telemetry, serialize_heartbeat, deserialize_telemetry, deserialize_heartbeat,
  peek_message_type,
}
use smart_sensor_network.Serializer.Decode.{
  word, decoded_header, decoded_telemetry, deserialize_telemetry_lem, deserialize_heartbeat_lem,
  peek_message_type_lem,
}

abbrev pub header_wire : PacketHeader → Bytes
header_wire h =
    big_endian 1 (message_type_byte h.type)
    ++ (big_endian 4 h.sensor_id ++ big_endian 8 h.timestamp_ms)

abbrev pub payload_wire : TelemetryMessage → Bytes
payload_wire m =
    big_endian 1 (sensor_type_byte m.type)
    ++ (big_endian 1 (sensor_state_byte m.state) ++ big_endian 8 m.value)

abbrev pub telemetry_wire : TelemetryMessage → Bytes
telemetry_wire m = header_wire m.header ++ payload_wire m

pub serialize_heartbeat-eq-wire :
    (m : HeartbeatMessage) → serialize_heartbeat m ≡ header_wire m.header
unfolding serialize_heartbeat
serialize_heartbeat-eq-wire m = simp write_lem

pub serialize_telemetry-eq-wire : (m : TelemetryMessage) → serialize_telemetry m ≡ telemetry_wire m
unfolding serialize_telemetry
serialize_telemetry-eq-wire m = simp write_lem

pub header_wire-AreBytes : (h : PacketHeader) → AreBytes (header_wire h)
header_wire-AreBytes h =
    All-append (λ b. b < 256) (big_endian 1 (message_type_byte h.type))
      (big_endian 4 h.sensor_id ++ big_endian 8 h.timestamp_ms)
      (big_endian-AreBytes 1 (message_type_byte h.type))
      (All-append (λ b. b < 256) (big_endian 4 h.sensor_id) (big_endian 8 h.timestamp_ms)
        (big_endian-AreBytes 4 h.sensor_id) (big_endian-AreBytes 8 h.timestamp_ms))

pub telemetry_wire-AreBytes : (m : TelemetryMessage) → AreBytes (telemetry_wire m)
telemetry_wire-AreBytes m =
    All-append (λ b. b < 256) (header_wire m.header) (payload_wire m)
      (header_wire-AreBytes m.header)
      (All-append (λ b. b < 256) (big_endian 1 (sensor_type_byte m.type))
        (big_endian 1 (sensor_state_byte m.state) ++ big_endian 8 m.value)
        (big_endian-AreBytes 1 (sensor_type_byte m.type))
        (All-append (λ b. b < 256) (big_endian 1 (sensor_state_byte m.state)) (big_endian 8 m.value)
          (big_endian-AreBytes 1 (sensor_state_byte m.state)) (big_endian-AreBytes 8 m.value)))

word-big_endian : (k v : ℕ) → v < 2 ^ (k * 8) → horner 0 (big_endian k v) ≡ v
word-big_endian k v h = horner-big_endian k 0 v ∙ omega (arith, mod-eq_of_lt h)

pub decoded_header-wire :
    (h : PacketHeader) (rest : Bytes) → IsHeader h → decoded_header (header_wire h ++ rest) ≡ h
decoded_header-wire h rest valid = λ i. record {
  type =
      (ap message_type (
            word-big_endian 1 (message_type_byte h.type)
              (message_type_byte-lt h.type valid.type_ok))
          ∙ message_type-message_type_byte h.type valid.type_ok)
        i;
  sensor_id = word-big_endian 4 h.sensor_id valid.sensor_id_lt i;
  timestamp_ms = word-big_endian 8 h.timestamp_ms valid.timestamp_lt i;
}

pub decoded_telemetry-wire :
    (m : TelemetryMessage) (rest : Bytes)
    → IsTelemetry m
    → decoded_telemetry (telemetry_wire m ++ rest) ≡ m
decoded_telemetry-wire m rest valid = λ i. record {
  header = decoded_header-wire m.header (payload_wire m ++ rest) valid.header_ok i;
  type =
      (ap sensor_type
            (word-big_endian 1 (sensor_type_byte m.type) (sensor_type_byte-lt m.type valid.type_ok))
          ∙ sensor_type-sensor_type_byte m.type valid.type_ok)
        i;
  state =
      (ap sensor_state (
            word-big_endian 1 (sensor_state_byte m.state)
              (sensor_state_byte-lt m.state valid.state_ok))
          ∙ sensor_state-sensor_state_byte m.state valid.state_ok)
        i;
  value = word-big_endian 8 m.value valid.value_lt i;
}

-- A telemetry message in range, serialized and followed by any bytes, is decoded as itself.
pub deserialize_telemetry-serialize_telemetry :
    (m : TelemetryMessage) (rest : Bytes)
    → IsTelemetry m
    → AreBytes rest
    → deserialize_telemetry (serialize_telemetry m ++ rest) ≡ ok m
deserialize_telemetry-serialize_telemetry m rest valid bytes = rw (serialize_telemetry-eq-wire m) (
    rw
      (
        deserialize_telemetry_lem (telemetry_wire m ++ rest)
            (All-append (λ b. b < 256) (telemetry_wire m) rest (telemetry_wire-AreBytes m) bytes),
        ge→ltb (length (telemetry_wire m ++ rest)) 23 (omega arith),
      )
      (ap ok (decoded_telemetry-wire m rest valid)))

-- A heartbeat message in range, serialized and followed by any bytes, is decoded as itself.
pub deserialize_heartbeat-serialize_heartbeat :
    (m : HeartbeatMessage) (rest : Bytes)
    → IsHeader m.header
    → AreBytes rest
    → deserialize_heartbeat (serialize_heartbeat m ++ rest) ≡ ok m
deserialize_heartbeat-serialize_heartbeat m rest valid bytes = rw (serialize_heartbeat-eq-wire m) (
    rw
      (
        deserialize_heartbeat_lem (header_wire m.header ++ rest) (
            All-append (λ b. b < 256) (header_wire m.header) rest (header_wire-AreBytes m.header)
              bytes),
        ge→ltb (length (header_wire m.header ++ rest)) 13 (omega arith),
      )
      (λ i. ok (record { header = decoded_header-wire m.header rest valid i })))

-- The packet of a message in range has 23 bytes, and the word of each field stands, most significant
-- byte first, at the offset that the protocol's table gives.
pub serialize_telemetry_layout :
    (m : TelemetryMessage)
    → IsTelemetry m
    → let packet = serialize_telemetry m in
      (length packet ≡ 23)
      × (word 1 0 packet ≡ message_type_byte m.header.type)
      × (word 4 1 packet ≡ m.header.sensor_id)
      × (word 8 5 packet ≡ m.header.timestamp_ms)
      × (word 1 13 packet ≡ sensor_type_byte m.type)
      × (word 1 14 packet ≡ sensor_state_byte m.state)
      × (word 8 15 packet ≡ m.value)
serialize_telemetry_layout m valid = rw (serialize_telemetry-eq-wire m) (
  refl,
  word-big_endian 1 _ (message_type_byte-lt m.header.type valid.header_ok.type_ok),
  word-big_endian 4 _ valid.header_ok.sensor_id_lt,
  word-big_endian 8 _ valid.header_ok.timestamp_lt,
  word-big_endian 1 _ (sensor_type_byte-lt m.type valid.type_ok),
  word-big_endian 1 _ (sensor_state_byte-lt m.state valid.state_ok),
  word-big_endian 8 _ valid.value_lt,
)

-- The type that `peek_message_type` reports for a serialized message is the type in its header.
pub peek_message_type-serialize_telemetry :
    (m : TelemetryMessage) (rest : Bytes)
    → IsTelemetry m
    → AreBytes rest
    → peek_message_type (serialize_telemetry m ++ rest) ≡ ok m.header.type
peek_message_type-serialize_telemetry m rest valid bytes = rw (serialize_telemetry-eq-wire m) (
    rw
      (
        peek_message_type_lem (telemetry_wire m ++ rest)
            (All-append (λ b. b < 256) (telemetry_wire m) rest (telemetry_wire-AreBytes m) bytes),
        ge→ltb (length (telemetry_wire m ++ rest)) 13 (omega arith),
      )
      (λ i. ok (decoded_header-wire m.header (payload_wire m ++ rest) valid.header_ok i).type))

pub peek_message_type-serialize_heartbeat :
    (m : HeartbeatMessage) (rest : Bytes)
    → IsHeader m.header
    → AreBytes rest
    → peek_message_type (serialize_heartbeat m ++ rest) ≡ ok m.header.type
peek_message_type-serialize_heartbeat m rest valid bytes = rw (serialize_heartbeat-eq-wire m) (
    rw
      (
        peek_message_type_lem (header_wire m.header ++ rest) (
            All-append (λ b. b < 256) (header_wire m.header) rest (header_wire-AreBytes m.header)
              bytes),
        ge→ltb (length (header_wire m.header ++ rest)) 13 (omega arith),
      )
      (λ i. ok (decoded_header-wire m.header rest valid i).type))
