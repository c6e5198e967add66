-- ===== src/System/Packets.antt =====
-- The datagrams of the demo: whole packets of the seven sensors.
use mathlib.Core.Path.{subst}
use smart_sensor_network.Prelude.{
  ℕ, ◌≤◌, ◌≡◌, sym, ap, ◌∙◌, [], append-nil, Bytes, AreBytes, length, ◌==◌, if◌then◌else◌,
}
use smart_sensor_network.Protocol.{
  SensorType, motion, temperature, battery, pressure, other_type, MessageType, telemetry, heartbeat,
  other_message, HeartbeatMessage, TelemetryMessage, message_type, IsHeader, IsTelemetry,
}
use smart_sensor_network.Serializer.{serialize_telemetry, serialize_heartbeat}
use smart_sensor_network.Serializer.Decode.{word, decoded_header, decoded_telemetry}
use smart_sensor_network.Serializer.RoundTrip.{
  header_wire, telemetry_wire, serialize_heartbeat-eq-wire, serialize_telemetry-eq-wire,
  header_wire-AreBytes, telemetry_wire-AreBytes, decoded_header-wire, decoded_telemetry-wire,
}

-- The class of the sensor with an id.
abbrev pub kind : ℕ → SensorType
kind id =
    if id == 1
    then motion
    else if id == 2
    then motion
    else if id == 3
    then temperature
    else if id == 4
    then temperature
    else if id == 5
    then battery
    else if id == 6
    then pressure
    else if id == 7
    then pressure
    else other_type 0

abbrev pub IsMember : ℕ → Type 0
IsMember id = (1 ≤ id) × (id ≤ 7)

-- What a packet of a type carries.
abbrev pub Carries : Bytes → MessageType → Type 0
Carries b telemetry =
    (length b ≡ 23)
    × IsMember (decoded_telemetry b).header.sensor_id
    × ((decoded_telemetry b).type ≡ kind (decoded_telemetry b).header.sensor_id)
Carries b heartbeat = (length b ≡ 13) × IsMember (decoded_header b).sensor_id
Carries b (other_message n) = ⊥

pub record IsSent (b : Bytes) : Type 0 where
  pub bytes : AreBytes b
  pub carries : Carries b (message_type (word 1 0 b))

pub decoded_telemetry-serialize_telemetry :
    (m : TelemetryMessage) → IsTelemetry m → decoded_telemetry (serialize_telemetry m) ≡ m
decoded_telemetry-serialize_telemetry m valid =
    ap decoded_telemetry (serialize_telemetry-eq-wire m ∙ sym (append-nil (telemetry_wire m)))
    ∙ decoded_telemetry-wire m [] valid

pub decoded_header-serialize_heartbeat :
    (m : HeartbeatMessage) → IsHeader m.header → decoded_header (serialize_heartbeat m) ≡ m.header
decoded_header-serialize_heartbeat m valid =
    ap decoded_header (serialize_heartbeat-eq-wire m ∙ sym (append-nil (header_wire m.header)))
    ∙ decoded_header-wire m.header [] valid

pub serialize_telemetry-IsSent :
    (m : TelemetryMessage)
    → IsTelemetry m
    → m.header.type ≡ telemetry
    → IsMember m.header.sensor_id
    → m.type ≡ kind m.header.sensor_id
    → IsSent (serialize_telemetry m)
serialize_telemetry-IsSent m valid type member own =
    let b : Bytes = serialize_telemetry m in
    let decoded : decoded_telemetry b ≡ m = decoded_telemetry-serialize_telemetry m valid in
    let announced : message_type (word 1 0 b) ≡ telemetry =
      ap (λ t. t.header.type) decoded ∙ type in
    let size : length b ≡ 23 = ap length (serialize_telemetry-eq-wire m) in
    record {
      bytes = subst AreBytes (sym (serialize_telemetry-eq-wire m)) (telemetry_wire-AreBytes m);
      carries = subst (Carries b) (sym announced) (
        size,
        subst (λ t. IsMember t.header.sensor_id) (sym decoded) member,
        subst (λ t. t.type ≡ kind t.header.sensor_id) (sym decoded) own,
      );
    }

pub serialize_heartbeat-IsSent :
    (m : HeartbeatMessage)
    → IsHeader m.header
    → m.header.type ≡ heartbeat
    → IsMember m.header.sensor_id
    → IsSent (serialize_heartbeat m)
serialize_heartbeat-IsSent m valid type member =
    let b : Bytes = serialize_heartbeat m in
    let decoded : decoded_header b ≡ m.header = decoded_header-serialize_heartbeat m valid in
    let announced : message_type (word 1 0 b) ≡ heartbeat = ap (λ t. t.type) decoded ∙ type in
    let size : length b ≡ 13 = ap length (serialize_heartbeat-eq-wire m) in
    record {
      bytes = subst AreBytes (sym (serialize_heartbeat-eq-wire m)) (header_wire-AreBytes m.header);
      carries =
          subst (Carries b) (sym announced)
            (size, subst (λ t. IsMember t.sensor_id) (sym decoded) member);
    }
