-- ===== src/Protocol/Strings.antt =====
-- src/common/SensorTypesString.cpp: the names that the reports print.
use smart_sensor_network.Prelude.{Bytes, codes}
use smart_sensor_network.Protocol.{
  SensorType, motion, temperature, battery, pressure, other_type, SensorState, active, warning,
  error, other_state, MessageType, telemetry, heartbeat, other_message, SensorHealth, unknown,
  online, offline,
}

unfoldable pub type_name : SensorType → Bytes
type_name motion = codes "Motion"
type_name temperature = codes "Temperature"
type_name battery = codes "Battery"
type_name pressure = codes "Pressure"
type_name (other_type _) = codes "Unknown"

unfoldable pub state_name : SensorState → Bytes
state_name active = codes "ACTIVE"
state_name warning = codes "WARNING"
state_name error = codes "ERROR"
state_name (other_state _) = codes "UNKNOWN"

-- Every value but TELEMETRY prints as HEARTBEAT.
unfoldable pub message_name : MessageType → Bytes
message_name telemetry = codes "TELEMETRY"
message_name heartbeat = codes "HEARTBEAT"
message_name (other_message _) = codes "HEARTBEAT"

unfoldable pub health_name : SensorHealth → Bytes
health_name online = codes "ONLINE"
health_name offline = codes "OFFLINE"
health_name unknown = codes "UNKNOWN"
