-- ===== src/Node/Delivery.antt =====
-- A node's packets at the gateway: the wire between them in one piece.
use smart_sensor_network.Prelude.{
  ℕ, ◌^◌, ◌<◌, ◌≡◌, refl, [], Bytes, Result, ok, ◌>>=◌, arith, append-nil, subst,
}
use smart_sensor_network.Protocol.{
  HeartbeatMessage, TelemetryMessage, IsTelemetry, IsSensorState, IsSensorType,
}
use smart_sensor_network.Serializer.{serialize_telemetry, serialize_heartbeat}
use smart_sensor_network.Sensor.{
  Sensor, motion_sensor, temperature_sensor, battery_sensor, pressure_sensor, collect_data,
  create_telemetry, reading, base_of, get_id, get_type, motion_state, temperature_state,
  battery_state, pressure_state, drained,
}
use smart_sensor_network.Gateway.{Gateway, update_sensor_info, handle_heartbeat, handle_packet}
use smart_sensor_network.Gateway.Handlers.{
  handle_packet-serialize_telemetry, handle_packet-serialize_heartbeat,
}
use smart_sensor_network.Node.{tick, heartbeat_message, send_heartbeat}

motion_state-IsSensorState : (x : ℕ) → IsSensorState (motion_state x)
unfolding motion_state
motion_state-IsSensorState x = ground arith

temperature_state-IsSensorState : (x : ℕ) → IsSensorState (temperature_state x)
unfolding temperature_state
temperature_state-IsSensorState x = ground arith

battery_state-IsSensorState : (x : ℕ) → IsSensorState (battery_state x)
unfolding battery_state
battery_state-IsSensorState x = ground arith

pressure_state-IsSensorState : (x : ℕ) → IsSensorState (pressure_state x)
unfolding pressure_state
pressure_state-IsSensorState x = ground arith

-- A sensor with an id, a value and a state that fit their types.
pub record IsSensor (s : Sensor) : Type 0 where
  pub id_lt : (base_of s).sensor_id < 2 ^ 32
  pub value_lt : (base_of s).current_value < 2 ^ 64
  pub state_ok : IsSensorState (base_of s).current_state

-- The collected value is that of the returned level, in a state that the enumeration names; the id
-- stays.
pub collect_data-IsSensor :
    (sub : ℕ → ℕ → ℕ) (draw : ℕ) (s : Sensor)
    → IsSensor s
    → (collect_data sub draw s).1 < 2 ^ 64
    → IsSensor (collect_data sub draw s).0
unfolding collect_data
collect_data-IsSensor sub draw (motion_sensor base level) h lt = record {
  id_lt = h.id_lt;
  value_lt = lt;
  state_ok = motion_state-IsSensorState draw;
}
collect_data-IsSensor sub draw (temperature_sensor base level) h lt = record {
  id_lt = h.id_lt;
  value_lt = lt;
  state_ok = temperature_state-IsSensorState draw;
}
collect_data-IsSensor sub draw (battery_sensor base level) h lt = record {
  id_lt = h.id_lt;
  value_lt = lt;
  state_ok = battery_state-IsSensorState (drained sub level draw);
}
collect_data-IsSensor sub draw (pressure_sensor base level) h lt = record {
  id_lt = h.id_lt;
  value_lt = lt;
  state_ok = pressure_state-IsSensorState draw;
}

get_type-IsSensorType : (s : Sensor) → IsSensorType (get_type s)
unfolding get_type
get_type-IsSensorType (motion_sensor base level) = tt
get_type-IsSensorType (temperature_sensor base level) = tt
get_type-IsSensorType (battery_sensor base level) = tt
get_type-IsSensorType (pressure_sensor base level) = tt

pub reading-IsTelemetry :
    (now : ℕ) (s : Sensor) → IsSensor s → now < 2 ^ 64 → IsTelemetry (reading now s)
unfolding reading
reading-IsTelemetry now s h time = record {
  header_ok = record { type_ok = tt; sensor_id_lt = h.id_lt; timestamp_lt = time };
  type_ok = get_type-IsSensorType s;
  state_ok = h.state_ok;
  value_lt = h.value_lt;
}

pub collect_data-id :
    (sub : ℕ → ℕ → ℕ) (draw : ℕ) (s : Sensor) → get_id (collect_data sub draw s).0 ≡ get_id s
unfolding collect_data get_id
collect_data-id sub draw (motion_sensor base level) = refl
collect_data-id sub draw (temperature_sensor base level) = refl
collect_data-id sub draw (battery_sensor base level) = refl
collect_data-id sub draw (pressure_sensor base level) = refl

collect_data-value :
    (sub : ℕ → ℕ → ℕ) (draw : ℕ) (s : Sensor)
    → (base_of (collect_data sub draw s).0).current_value ≡ (collect_data sub draw s).1
unfolding collect_data
collect_data-value sub draw (motion_sensor base level) = refl
collect_data-value sub draw (temperature_sensor base level) = refl
collect_data-value sub draw (battery_sensor base level) = refl
collect_data-value sub draw (pressure_sensor base level) = refl

-- For a sensor whose id, state and value, and a collected value and a time, that fit their types: the
-- packet that a tick hands to the sender makes the gateway store a message, of the sensor's id, with
-- the value that was collected, and with the time of the tick, and neither throw nor log; and
-- `tick` returns that message if the sender does not throw, and throws what the sender throws.
pub handle_packet-tick :
    (sub : ℕ → ℕ → ℕ) (send : Bytes → Result (Unit {0})) (draw sent_at now : ℕ) (s : Sensor)
    (g : Gateway)
    → IsSensor s
    → (collect_data sub draw s).1 < 2 ^ 64
    → sent_at < 2 ^ 64
    → let message = reading sent_at (collect_data sub draw s).0 in
      (handle_packet now (tick sub send draw sent_at s).packet g
        ≡ ok (update_sensor_info now message g, []))
      × (message.header.sensor_id ≡ get_id s)
      × (message.header.timestamp_ms ≡ sent_at)
      × (message.value ≡ (collect_data sub draw s).1)
      × ((tick sub send draw sent_at s).outcome
          ≡ (send (tick sub send draw sent_at s).packet >>= λ _. ok message))
unfolding tick create_telemetry get_id
handle_packet-tick sub send draw sent_at now s g h lt time =
    let collected : Sensor = (collect_data sub draw s).0 in
    let message : TelemetryMessage = reading sent_at collected in
    (
      subst (λ p. handle_packet now p g ≡ ok (update_sensor_info now message g, []))
          (append-nil (serialize_telemetry message))
          (handle_packet-serialize_telemetry now message [] g
            (reading-IsTelemetry sent_at collected (collect_data-IsSensor sub draw s h lt) time)
            refl tt),
      collect_data-id sub draw s,
      refl,
      collect_data-value sub draw s,
      refl,
    )

-- For a sensor and a time that fit their types, the packet of a heartbeat makes the gateway handle the
-- heartbeat of that sensor, and log nothing.
handle_packet-send_heartbeat :
    (send : Bytes → Result (Unit {0})) (sent_at now : ℕ) (s : Sensor) (g : Gateway)
    → IsSensor s
    → sent_at < 2 ^ 64
    → handle_packet now (send_heartbeat send sent_at s).0 g
      ≡ ok (handle_heartbeat now (heartbeat_message sent_at s) g, [])
unfolding send_heartbeat heartbeat_message get_id
handle_packet-send_heartbeat send sent_at now s g h time =
    let message : HeartbeatMessage = heartbeat_message sent_at s in
    subst (λ p. handle_packet now p g ≡ ok (handle_heartbeat now message g, []))
      (append-nil (serialize_heartbeat message))
      (handle_packet-serialize_heartbeat now message [] g
        (record { type_ok = tt; sensor_id_lt = h.id_lt; timestamp_lt = time }) refl tt)
