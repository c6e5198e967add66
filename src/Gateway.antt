-- ===== src/Gateway.antt =====
-- src/gateway/Gateway.cpp and include/gateway/Gateway.hpp: the registry of sensors.
-- A handler takes the time that `now()` returns inside it, and the gateway as its mutex protects it.
-- The messages that it logs are part of its result, in their order.
pub mod Unordered
pub mod Counting
pub mod Handlers
pub mod History
pub mod Invariant
pub mod Single
pub mod Watchdog
use smart_sensor_network.Prelude.{
  ℕ, zero, suc, ◌+◌, ◌-◌, ◌/◌, ◌%◌, ◌^◌, Bool, true, false, ◌||◌, Option, none, some, List, [], ◌∷◌,
  ◌++◌, Bytes, codes, ltb, ◌==◌, if◌then◌else◌, Result, ok, ◌>>=◌,
}
use smart_sensor_network.Prelude.Decimal.{decimal}
use smart_sensor_network.Protocol.{
  MessageType, telemetry, heartbeat, other_message, PacketHeader, HeartbeatMessage,
  TelemetryMessage, other_type, other_state, SensorHealth, unknown, online, offline,
  sensor_heartbeat_timeout_ms,
}
use smart_sensor_network.Registry.{find, modify}
use smart_sensor_network.Serializer.{
  deserialize_telemetry, deserialize_heartbeat, peek_message_type,
}

pub record SensorInfo : Type 0 where
  pub last_telemetry : TelemetryMessage
  pub last_telemetry_received_time : ℕ
  pub last_heartbeat_received_time : ℕ
  pub health : SensorHealth

-- `SensorInfo{}`: value initialisation gives every field of the message its zero.
abbrev pub initial_info : SensorInfo
initial_info = record {
  last_telemetry = record {
    header = record { type = other_message 0; sensor_id = 0; timestamp_ms = 0 };
    type = other_type 0;
    state = other_state 0;
    value = 0;
  };
  last_telemetry_received_time = 0;
  last_heartbeat_received_time = 0;
  health = unknown;
}

abbrev pub Sensors : Type 0
Sensors = List (ℕ × SensorInfo)

pub record Gateway : Type 0 where
  pub sensors : Sensors
  pub telemetry_packets_received : ℕ
  pub heartbeat_packets_received : ℕ

abbrev pub Logs : Type 0
Logs = List Bytes

-- The constructor.
abbrev pub empty_gateway : Gateway
empty_gateway = record {
  sensors = [];
  telemetry_packets_received = 0;
  heartbeat_packets_received = 0;
}

abbrev pub u64_mod : ℕ
u64_mod = 2 ^ 64

-- `uint64_t` increment and subtraction.
abbrev pub next64 : ℕ → ℕ
next64 n = (n + 1) % u64_mod

abbrev pub sub64 : ℕ → ℕ → ℕ
sub64 a b = (a + u64_mod - b) % u64_mod

unfoldable pub take_telemetry : ℕ → TelemetryMessage → SensorInfo → SensorInfo
take_telemetry now message info = record info {
  last_telemetry = message;
  last_telemetry_received_time = now;
}

unfoldable pub update_sensor_info : ℕ → TelemetryMessage → Gateway → Gateway
unfolding take_telemetry
update_sensor_info now message g = record g {
  sensors = modify message.header.sensor_id initial_info (take_telemetry now message) g.sensors;
  telemetry_packets_received = next64 g.telemetry_packets_received;
}

unfoldable pub take_heartbeat : ℕ → SensorInfo → SensorInfo
take_heartbeat now info = record info { last_heartbeat_received_time = now; health = online }

unfoldable pub handle_heartbeat : ℕ → HeartbeatMessage → Gateway → Gateway
unfolding take_heartbeat
handle_heartbeat now message g = record g {
  sensors = modify message.header.sensor_id initial_info (take_heartbeat now) g.sensors;
  heartbeat_packets_received = next64 g.heartbeat_packets_received;
}

abbrev pub unknown_message_log : Bytes
unknown_message_log = codes "[GATEWAY] Unknown message type"

-- The cases of the `switch` on the message type.
unfoldable pub dispatch : ℕ → Bytes → Gateway → MessageType → Result (Gateway × Logs)
dispatch now packet g telemetry = do
  msg ← deserialize_telemetry packet
  ok (update_sensor_info now msg g, [])
dispatch now packet g heartbeat = do
  hb ← deserialize_heartbeat packet
  ok (handle_heartbeat now hb g, [])
dispatch now packet g (other_message _) = ok (g, unknown_message_log ∷ [])

unfoldable pub handle_packet : ℕ → Bytes → Gateway → Result (Gateway × Logs)
unfolding dispatch
handle_packet now packet g = do type ← peek_message_type packet; dispatch now packet g type

abbrev pub is_unknown : SensorHealth → Bool
is_unknown unknown = true
is_unknown _ = false

abbrev pub is_offline : SensorHealth → Bool
is_offline offline = true
is_offline _ = false

abbrev pub offline_log : ℕ → Bytes
offline_log id = codes "[GATEWAY] Sensor " ++ (decimal id ++ codes " is offline")

-- The registry and the counters, as copies.
abbrev pub get_sensors : Gateway → Sensors
get_sensors g = g.sensors

abbrev pub get_telemetry_packets_received : Gateway → ℕ
get_telemetry_packets_received g = g.telemetry_packets_received

abbrev pub get_heartbeat_packets_received : Gateway → ℕ
get_heartbeat_packets_received g = g.heartbeat_packets_received

-- The body of the watchdog's loop passes a sensor by, or marks it.
unfoldable pub times_out : ℕ → SensorInfo → Bool
times_out current info =
    if is_unknown info.health || info.last_heartbeat_received_time == 0
    then false
    else if ltb sensor_heartbeat_timeout_ms (sub64 current info.last_heartbeat_received_time)
    then (if is_offline info.health then false else true)
    else false

unfoldable pub check_sensor : ℕ → SensorInfo → SensorInfo
unfolding times_out
check_sensor current info =
    if times_out current info then record info { health = offline } else info

unfoldable pub check_log : ℕ → ℕ → SensorInfo → Logs
unfolding times_out
check_log current id info = if times_out current info then offline_log id ∷ [] else []

unfoldable pub sweep : ℕ → Sensors → Sensors
unfolding check_sensor
sweep current [] = []
sweep current ((id, info) ∷ rest) = (id, check_sensor current info) ∷ sweep current rest

unfoldable pub sweep_logs : ℕ → Sensors → Logs
unfolding check_log
sweep_logs current [] = []
sweep_logs current ((id, info) ∷ rest) = check_log current id info ++ sweep_logs current rest

-- `current` is what `now()` returned before the mutex was taken.
unfoldable pub detect_offline_sensors : ℕ → Gateway → Gateway × Logs
unfolding sweep sweep_logs
detect_offline_sensors current g =
    (record g { sensors = sweep current g.sensors }, sweep_logs current g.sensors)

unfoldable pub seconds_since : ℕ → Option SensorInfo → ℕ
seconds_since now none = 0
seconds_since now (some info) =
    if info.last_heartbeat_received_time == 0
    then 0
    else sub64 now info.last_heartbeat_received_time / 1000

unfoldable pub seconds_since_last_heartbeat : ℕ → ℕ → Gateway → ℕ
unfolding seconds_since
seconds_since_last_heartbeat now id g = seconds_since now (find id g.sensors)
