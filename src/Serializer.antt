-- ===== src/Serializer.antt =====
-- src/network/PacketSerializer.cpp, class PacketSerializer over the words of module Wire.
-- A `double` is copied to and from its bit pattern by `memcpy`, so it is written as that pattern.
pub mod Decode
pub mod Reencode
pub mod Equivalence
pub mod RoundTrip
use smart_sensor_network.Prelude.{ℕ, [], Bytes, Result, ok, ◌>>=◌}
use smart_sensor_network.Protocol.{
  MessageType, PacketHeader, HeartbeatMessage, TelemetryMessage, message_type, message_type_byte,
  sensor_type, sensor_type_byte, sensor_state, sensor_state_byte,
}
use smart_sensor_network.Wire.{write, read}

pub write_double : Bytes → ℕ → Bytes
write_double buffer value = write 8 buffer value

pub read_double : Bytes → ℕ → Result (ℕ × ℕ)
read_double buffer offset = read 8 buffer offset

pub write_header : Bytes → PacketHeader → Bytes
write_header buffer header =
    write 8 (write 4 (write 1 buffer (message_type_byte header.type)) header.sensor_id)
      header.timestamp_ms

pub read_header : Bytes → ℕ → Result (PacketHeader × ℕ)
read_header buffer offset = do
  (type, after_type) ← read 1 buffer offset
  (sensor_id, after_id) ← read 4 buffer after_type
  (timestamp, after) ← read 8 buffer after_id
  ok (record { type = message_type type; sensor_id = sensor_id; timestamp_ms = timestamp }, after)

unfoldable pub serialize_telemetry : TelemetryMessage → Bytes
unfolding write_header write_double
serialize_telemetry message =
    let buffer = write_header [] message.header in
    let typed = write 1 buffer (sensor_type_byte message.type) in
    let stated = write 1 typed (sensor_state_byte message.state) in
    write_double stated message.value

unfoldable pub serialize_heartbeat : HeartbeatMessage → Bytes
unfolding write_header
serialize_heartbeat message = write_header [] message.header

unfoldable pub deserialize_telemetry : Bytes → Result TelemetryMessage
unfolding read_header read_double
deserialize_telemetry buffer = do
  (header, after_header) ← read_header buffer 0
  (type, after_type) ← read 1 buffer after_header
  (state, after_state) ← read 1 buffer after_type
  (value, after) ← read_double buffer after_state
  ok (record {
    header = header;
    type = sensor_type type;
    state = sensor_state state;
    value = value;
  })

unfoldable pub deserialize_heartbeat : Bytes → Result HeartbeatMessage
unfolding read_header
deserialize_heartbeat buffer = do
  (header, after) ← read_header buffer 0
  ok (record { header = header })

unfoldable pub peek_message_type : Bytes → Result MessageType
unfolding read_header
peek_message_type buffer = do (header, after) ← read_header buffer 0; ok header.type
