-- ===== src/Gateway/Handlers.antt =====
-- What each handler does to every entry of the registry.
use smart_sensor_network.Prelude.{
  ℕ, ◌≤◌, ◌≡◌, inl, inr, refl, ◌++◌, [], ◌∷◌, some, Bytes, AreBytes, length, arith, ◌==◌, ltb,
  if◌then◌else◌, Result, ok, throw, Bool-cases, ltb→ge,
}
use smart_sensor_network.Protocol.{
  MessageType, telemetry, heartbeat, other_message, HeartbeatMessage, TelemetryMessage,
  message_type, IsHeader, IsTelemetry, online,
}
use smart_sensor_network.Registry.{find, or_initial, find-modify}
use smart_sensor_network.Wire.{underflow}
use smart_sensor_network.Serializer.{serialize_telemetry, serialize_heartbeat}
use smart_sensor_network.Serializer.Decode.{
  word, decoded_header, decoded_telemetry, deserialize_telemetry_lem, deserialize_heartbeat_lem,
  peek_message_type_lem,
}
use smart_sensor_network.Serializer.RoundTrip.{
  deserialize_telemetry-serialize_telemetry, deserialize_heartbeat-serialize_heartbeat,
  peek_message_type-serialize_telemetry, peek_message_type-serialize_heartbeat,
}
use smart_sensor_network.Gateway.{
  Logs, Gateway, initial_info, next64, update_sensor_info, take_telemetry, handle_heartbeat,
  take_heartbeat, dispatch, handle_packet, unknown_message_log,
}

-- After a telemetry message the sensor's entry holds the message and its time of receipt; its
-- heartbeat time and health, every other entry and the heartbeat counter are as they were.
pub find-update_sensor_info :
    (now : ℕ) (m : TelemetryMessage) (g : Gateway) (id : ℕ)
    → let after = update_sensor_info now m g in
      let old = or_initial initial_info (find m.header.sensor_id g.sensors) in
      (find id after.sensors ≡ (
        if m.header.sensor_id == id
        then some (record old { last_telemetry = m; last_telemetry_received_time = now })
        else find id g.sensors))
      × (after.telemetry_packets_received ≡ next64 g.telemetry_packets_received)
      × (after.heartbeat_packets_received ≡ g.heartbeat_packets_received)
unfolding update_sensor_info
find-update_sensor_info now m g id =
    (find-modify m.header.sensor_id id initial_info (take_telemetry now m) g.sensors, refl, refl)

-- After a heartbeat the sensor's entry is ONLINE with the heartbeat's time of receipt; its telemetry,
-- every other entry and the telemetry counter are as they were.
pub find-handle_heartbeat :
    (now : ℕ) (m : HeartbeatMessage) (g : Gateway) (id : ℕ)
    → let after = handle_heartbeat now m g in
      let old = or_initial initial_info (find m.header.sensor_id g.sensors) in
      (find id after.sensors ≡ (
        if m.header.sensor_id == id
        then some (record old { last_heartbeat_received_time = now; health = online })
        else find id g.sensors))
      × (after.heartbeat_packets_received ≡ next64 g.heartbeat_packets_received)
      × (after.telemetry_packets_received ≡ g.telemetry_packets_received)
unfolding handle_heartbeat
find-handle_heartbeat now m g id =
    (find-modify m.header.sensor_id id initial_info (take_heartbeat now) g.sensors, refl, refl)

-- A packet that a node makes of a telemetry message reaches the telemetry handler with that message,
-- and nothing is logged; bytes behind the packet are ignored.
pub handle_packet-serialize_telemetry :
    (now : ℕ) (m : TelemetryMessage) (rest : Bytes) (g : Gateway)
    → IsTelemetry m
    → m.header.type ≡ telemetry
    → AreBytes rest
    → handle_packet now (serialize_telemetry m ++ rest) g ≡ ok (update_sensor_info now m g, [])
unfolding handle_packet dispatch
handle_packet-serialize_telemetry now m rest g valid type bytes = ground (
  arith,
  peek_message_type-serialize_telemetry m rest valid bytes,
  deserialize_telemetry-serialize_telemetry m rest valid bytes,
)

pub handle_packet-serialize_heartbeat :
    (now : ℕ) (m : HeartbeatMessage) (rest : Bytes) (g : Gateway)
    → IsHeader m.header
    → m.header.type ≡ heartbeat
    → AreBytes rest
    → handle_packet now (serialize_heartbeat m ++ rest) g ≡ ok (handle_heartbeat now m g, [])
unfolding handle_packet dispatch
handle_packet-serialize_heartbeat now m rest g valid type bytes = ground (
  arith,
  peek_message_type-serialize_heartbeat m rest valid bytes,
  deserialize_heartbeat-serialize_heartbeat m rest valid bytes,
)

-- What the handler makes of a packet with a whole header, by the type in it.
abbrev pub handled : ℕ → Bytes → Gateway → MessageType → Result (Gateway × Logs)
handled now packet g telemetry =
    if ltb (length packet) 23
    then throw underflow
    else ok (update_sensor_info now (decoded_telemetry packet) g, [])
handled now packet g heartbeat =
    ok (handle_heartbeat now (record { header = decoded_header packet }) g, [])
handled now packet g (other_message _) = ok (g, unknown_message_log ∷ [])

dispatch-handled :
    (now : ℕ) (packet : Bytes) (g : Gateway) (t : MessageType)
    → AreBytes packet
    → 13 ≤ length packet
    → dispatch now packet g t ≡ handled now packet g t
unfolding dispatch
dispatch-handled now packet g telemetry bytes h =
    ground (arith, deserialize_telemetry_lem packet bytes)
dispatch-handled now packet g heartbeat bytes h =
    ground (arith, deserialize_heartbeat_lem packet bytes)
dispatch-handled now packet g (other_message n) bytes h = refl

-- On any bytes: fewer than 13 throw an underflow, as do fewer than 23 that announce telemetry; else the
-- fields of the protocol's table reach the handler of the announced type, and a packet of an
-- unknown type changes nothing and is logged.
pub handle_packet_lem :
    (now : ℕ) (packet : Bytes) (g : Gateway)
    → AreBytes packet
    → handle_packet now packet g ≡ (
        if ltb (length packet) 13
        then throw underflow
        else handled now packet g (message_type (word 1 0 packet)))
unfolding handle_packet
handle_packet_lem now packet g bytes = elim (Bool-cases (ltb (length packet) 13)) [
  | inl short ↦ rw (peek_message_type_lem packet bytes, short)
  | inr enough ↦
      rw (peek_message_type_lem packet bytes, enough)
        (dispatch-handled now packet g (message_type (word 1 0 packet)) bytes (ltb→ge _ _ enough))
]
