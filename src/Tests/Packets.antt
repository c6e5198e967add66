-- ===== src/Tests/Packets.antt =====
-- PacketSerializer and UdpReceiver on concrete packets.
use smart_sensor_network.Prelude.{
  ◌≡◌, refl, List, [], ◌∷◌, ◌++◌, Bytes, length, take, arith, ok, throw,
}
use smart_sensor_network.Protocol.{
  TelemetryMessage, HeartbeatMessage, telemetry, heartbeat, temperature, warning, IsTelemetry,
  IsHeader, message_type_byte, sensor_type_byte, sensor_state_byte, message_type, sensor_type,
  sensor_state,
}
use smart_sensor_network.Wire.{underflow, write, read}
use smart_sensor_network.Serializer.{
  serialize_telemetry, serialize_heartbeat, deserialize_telemetry,
}
use smart_sensor_network.Serializer.Decode.{word}
use smart_sensor_network.Serializer.RoundTrip.{
  deserialize_telemetry-serialize_telemetry, serialize_telemetry_layout,
}
use smart_sensor_network.Gateway.{empty_gateway}
use smart_sensor_network.Udp.{Arrival, datagram, would_block, receive_failed, receive_all}
use smart_sensor_network.Udp.Faults.{Outcome, any_fatal, receive_all-Outcome}

-- Sensor 7 reports 31.0 degrees at time 1000.
abbrev pub warm : TelemetryMessage
warm = record {
  header = record { type = telemetry; sensor_id = 7; timestamp_ms = 1000 };
  type = temperature;
  state = warning;
  value = 0x403f_0000_0000_0000;
}

abbrev pub alive : HeartbeatMessage
alive = record { header = record { type = heartbeat; sensor_id = 7; timestamp_ms = 1000 } }

abbrev pub warm_packet : Bytes
warm_packet =
    1 ∷ 0 ∷ 0 ∷ 0 ∷ 7 ∷ 0 ∷ 0 ∷ 0 ∷ 0 ∷ 0 ∷ 0 ∷ 3 ∷ 232 ∷ 2 ∷ 2 ∷ 64 ∷ 63 ∷ 0 ∷ 0 ∷ 0 ∷ 0 ∷ 0 ∷ 0
    ∷ []

abbrev pub alive_packet : Bytes
alive_packet = 2 ∷ 0 ∷ 0 ∷ 0 ∷ 7 ∷ 0 ∷ 0 ∷ 0 ∷ 0 ∷ 0 ∷ 0 ∷ 3 ∷ 232 ∷ []

pub warm-IsTelemetry : IsTelemetry warm
warm-IsTelemetry = omega arith

pub alive-IsHeader : IsHeader alive.header
alive-IsHeader = omega arith

serialize_telemetry-warm : serialize_telemetry warm ≡ warm_packet
unfolding serialize_telemetry write message_type_byte sensor_type_byte sensor_state_byte
serialize_telemetry-warm = refl

serialize_heartbeat-alive : serialize_heartbeat alive ≡ alive_packet
unfolding serialize_heartbeat write message_type_byte
serialize_heartbeat-alive = refl

deserialize_telemetry-warm : deserialize_telemetry (warm_packet ++ (9 ∷ [])) ≡ ok warm
unfolding deserialize_telemetry read message_type sensor_type sensor_state
deserialize_telemetry-warm = refl

deserialize_telemetry_short : deserialize_telemetry (take 22 warm_packet) ≡ throw underflow
unfolding deserialize_telemetry read
deserialize_telemetry_short = refl

deserialize_telemetry-serialize_telemetry_example :
    deserialize_telemetry (serialize_telemetry warm ++ (255 ∷ 0 ∷ [])) ≡ ok warm
deserialize_telemetry-serialize_telemetry_example =
    deserialize_telemetry-serialize_telemetry warm (255 ∷ 0 ∷ []) warm-IsTelemetry (omega arith)

serialize_telemetry_layout_example :
    let packet = serialize_telemetry warm in
    (length packet ≡ 23)
    × (word 1 0 packet ≡ 1)
    × (word 4 1 packet ≡ 7)
    × (word 8 5 packet ≡ 1000)
    × (word 1 13 packet ≡ 2)
    × (word 1 14 packet ≡ 2)
    × (word 8 15 packet ≡ 0x403f_0000_0000_0000)
unfolding message_type_byte sensor_type_byte sensor_state_byte
serialize_telemetry_layout_example = serialize_telemetry_layout warm warm-IsTelemetry

-- A telemetry packet, nothing, an error, and a heartbeat.
abbrev arrivals : List Arrival
arrivals =
    datagram 2000 warm_packet ∷ would_block ∷ receive_failed ∷ datagram 2001 alive_packet ∷ []

receive_all-Outcome_example : Outcome (any_fatal arrivals) (receive_all arrivals empty_gateway)
receive_all-Outcome_example = receive_all-Outcome arrivals empty_gateway (omega arith)
