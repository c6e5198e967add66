-- ===== src/Protocol.antt =====
-- include/common/ProtocolTypes.hpp: the enumerations and messages of the wire protocol.
-- An `enum class E : uint8_t` holds any byte, so each enumeration has a constructor for a value that
-- the source does not name. A `double` is its IEEE 754 bit pattern, a number below 2 ^ 64.
pub mod Strings
use smart_sensor_network.Prelude.{ℕ, ◌^◌, ◌<◌, ◌≢◌, ◌≡◌, arith, ◌==◌, if◌then◌else◌}

pub data SensorType : Type 0 where
  motion temperature battery pressure : SensorType
  other_type : ℕ → SensorType

pub data SensorState : Type 0 where
  active warning error : SensorState
  other_state : ℕ → SensorState

pub data MessageType : Type 0 where
  telemetry heartbeat : MessageType
  other_message : ℕ → MessageType

pub data SensorHealth : Type 0 where
  unknown online offline : SensorHealth

-- `static_cast<E>(byte)` and `static_cast<uint8_t>(e)`.
unfoldable pub message_type : ℕ → MessageType
message_type n = if n == 1 then telemetry else if n == 2 then heartbeat else other_message n

unfoldable pub message_type_byte : MessageType → ℕ
message_type_byte telemetry = 1
message_type_byte heartbeat = 2
message_type_byte (other_message n) = n

unfoldable pub sensor_type : ℕ → SensorType
sensor_type n =
    if n == 1
    then motion
    else if n == 2
    then temperature
    else if n == 3
    then battery
    else if n == 4
    then pressure
    else other_type n

unfoldable pub sensor_type_byte : SensorType → ℕ
sensor_type_byte motion = 1
sensor_type_byte temperature = 2
sensor_type_byte battery = 3
sensor_type_byte pressure = 4
sensor_type_byte (other_type n) = n

unfoldable pub sensor_state : ℕ → SensorState
sensor_state n =
    if n == 1 then active else if n == 2 then warning else if n == 3 then error else other_state n

unfoldable pub sensor_state_byte : SensorState → ℕ
sensor_state_byte active = 1
sensor_state_byte warning = 2
sensor_state_byte error = 3
sensor_state_byte (other_state n) = n

pub record PacketHeader : Type 0 where
  pub type : MessageType
  pub sensor_id : ℕ
  pub timestamp_ms : ℕ

pub record HeartbeatMessage : Type 0 where
  pub header : PacketHeader

pub record TelemetryMessage : Type 0 where
  pub header : PacketHeader
  pub type : SensorType
  pub state : SensorState
  pub value : ℕ

-- The heartbeat timeout in milliseconds.
abbrev pub sensor_heartbeat_timeout_ms : ℕ
sensor_heartbeat_timeout_ms = 10000

-- The values that a variable of each C++ type can hold, each written in one way.
abbrev pub IsMessageType : MessageType → Type 0
IsMessageType telemetry = Unit
IsMessageType heartbeat = Unit
IsMessageType (other_message n) = (n < 256) × (n ≢ 1) × (n ≢ 2)

abbrev pub IsSensorType : SensorType → Type 0
IsSensorType (other_type n) = (n < 256) × (n ≢ 1) × (n ≢ 2) × (n ≢ 3) × (n ≢ 4)
IsSensorType _ = Unit

abbrev pub IsSensorState : SensorState → Type 0
IsSensorState (other_state n) = (n < 256) × (n ≢ 1) × (n ≢ 2) × (n ≢ 3)
IsSensorState _ = Unit

pub record IsHeader (h : PacketHeader) : Type 0 where
  pub type_ok : IsMessageType h.type
  pub sensor_id_lt : h.sensor_id < 2 ^ 32
  pub timestamp_lt : h.timestamp_ms < 2 ^ 64

pub record IsTelemetry (m : TelemetryMessage) : Type 0 where
  pub header_ok : IsHeader m.header
  pub type_ok : IsSensorType m.type
  pub state_ok : IsSensorState m.state
  pub value_lt : m.value < 2 ^ 64

-- Casting an enumeration to its byte and back is the identity, in both directions.
pub message_type-message_type_byte :
    (t : MessageType) → IsMessageType t → message_type (message_type_byte t) ≡ t
unfolding message_type message_type_byte
message_type-message_type_byte telemetry h = ground arith
message_type-message_type_byte _ h = ground arith

pub sensor_type-sensor_type_byte :
    (t : SensorType) → IsSensorType t → sensor_type (sensor_type_byte t) ≡ t
unfolding sensor_type sensor_type_byte
sensor_type-sensor_type_byte motion h = ground arith
sensor_type-sensor_type_byte _ h = ground arith

pub sensor_state-sensor_state_byte :
    (s : SensorState) → IsSensorState s → sensor_state (sensor_state_byte s) ≡ s
unfolding sensor_state sensor_state_byte
sensor_state-sensor_state_byte active h = ground arith
sensor_state-sensor_state_byte _ h = ground arith

pub message_type_byte-message_type : (n : ℕ) → message_type_byte (message_type n) ≡ n
unfolding message_type message_type_byte
message_type_byte-message_type n = ground arith

pub sensor_type_byte-sensor_type : (n : ℕ) → sensor_type_byte (sensor_type n) ≡ n
unfolding sensor_type sensor_type_byte
sensor_type_byte-sensor_type n = ground arith

pub sensor_state_byte-sensor_state : (n : ℕ) → sensor_state_byte (sensor_state n) ≡ n
unfolding sensor_state sensor_state_byte
sensor_state_byte-sensor_state n = ground arith

-- A byte casts to a value of the enumeration, and such a value to a byte.
pub message_type-IsMessageType : (n : ℕ) → n < 256 → IsMessageType (message_type n)
unfolding message_type
message_type-IsMessageType n h = ground arith

pub sensor_type-IsSensorType : (n : ℕ) → n < 256 → IsSensorType (sensor_type n)
unfolding sensor_type
sensor_type-IsSensorType n h = ground arith

pub sensor_state-IsSensorState : (n : ℕ) → n < 256 → IsSensorState (sensor_state n)
unfolding sensor_state
sensor_state-IsSensorState n h = ground arith

pub message_type_byte-lt : (t : MessageType) → IsMessageType t → message_type_byte t < 256
unfolding message_type_byte
message_type_byte-lt telemetry h = omega arith
message_type_byte-lt _ h = omega arith

pub sensor_type_byte-lt : (t : SensorType) → IsSensorType t → sensor_type_byte t < 256
unfolding sensor_type_byte
sensor_type_byte-lt motion h = omega arith
sensor_type_byte-lt _ h = omega arith

pub sensor_state_byte-lt : (s : SensorState) → IsSensorState s → sensor_state_byte s < 256
unfolding sensor_state_byte
sensor_state_byte-lt active h = omega arith
sensor_state_byte-lt _ h = omega arith
