-- ===== src/Sensor.antt =====
-- src/sensor: the class Sensor and the four classes derived from it. A random draw is an argument of
-- the call that makes it; the subtraction of `double`s is a parameter of the battery.
pub mod Readings
pub mod Battery
use smart_sensor_network.Prelude.{ℕ, Bool, not, ◌&&◌, ◌||◌, Option, none, some, if◌then◌else◌}
use smart_sensor_network.Protocol.{
  SensorType, motion, temperature, battery, pressure, SensorState, active, warning, error,
  PacketHeader, TelemetryMessage, telemetry,
}
use smart_sensor_network.Double.{less, less_eq}

-- The members of the base class. Before the first telemetry `currentReading` is indeterminate.
pub record Base : Type 0 where
  pub sensor_id : ℕ
  pub current_reading : Option TelemetryMessage
  pub current_state : SensorState
  pub current_value : ℕ

-- An object of a derived class: its base part and its level.
pub data Sensor : Type 0 where
  motion_sensor temperature_sensor battery_sensor pressure_sensor : Base → ℕ → Sensor

abbrev pub new_base : ℕ → Base
new_base id = record {
  sensor_id = id;
  current_reading = none;
  current_state = active;
  current_value = 0;
}

-- 0.5, 10.0, 30.0, 40.0, 95.0, 98.0, 100.0, 104.0 and 107.0.
abbrev pub motion_threshold : ℕ
motion_threshold = 0x3fe0_0000_0000_0000

abbrev pub battery_error_threshold : ℕ
battery_error_threshold = 0x4024_0000_0000_0000

abbrev pub battery_warning_threshold : ℕ
battery_warning_threshold = 0x403e_0000_0000_0000

abbrev pub temperature_warning_threshold : ℕ
temperature_warning_threshold = 0x403e_0000_0000_0000

abbrev pub temperature_error_threshold : ℕ
temperature_error_threshold = 0x4044_0000_0000_0000

abbrev pub lower_error_threshold : ℕ
lower_error_threshold = 0x4057_c000_0000_0000

abbrev pub lower_warning_threshold : ℕ
lower_warning_threshold = 0x4058_8000_0000_0000

abbrev pub full_battery : ℕ
full_battery = 0x4059_0000_0000_0000

abbrev pub upper_warning_threshold : ℕ
upper_warning_threshold = 0x405a_0000_0000_0000

abbrev pub upper_error_threshold : ℕ
upper_error_threshold = 0x405a_c000_0000_0000

abbrev pub new_motion_sensor : ℕ → Sensor
new_motion_sensor id = motion_sensor (new_base id) 0

abbrev pub new_temperature_sensor : ℕ → Sensor
new_temperature_sensor id = temperature_sensor (new_base id) 0

abbrev pub new_battery_sensor : ℕ → Sensor
new_battery_sensor id = battery_sensor (new_base id) full_battery

abbrev pub new_pressure_sensor : ℕ → Sensor
new_pressure_sensor id = pressure_sensor (new_base id) 0

unfoldable pub detect_motion : ℕ → Bool
unfolding less
detect_motion level = less motion_threshold level

-- The state that each class gives to a level.
unfoldable pub motion_state : ℕ → SensorState
unfolding detect_motion
motion_state level = if detect_motion level then active else warning

unfoldable pub temperature_state : ℕ → SensorState
unfolding less
temperature_state level =
    if less level temperature_warning_threshold
    then active
    else if less level temperature_error_threshold
    then warning
    else error

unfoldable pub battery_state : ℕ → SensorState
unfolding less
battery_state level =
    if less battery_warning_threshold level
    then active
    else if less battery_error_threshold level
    then warning
    else error

unfoldable pub pressure_state : ℕ → SensorState
unfolding less less_eq
pressure_state level =
    if less_eq lower_warning_threshold level || less_eq level upper_warning_threshold
    then active
    else if (less_eq lower_error_threshold level && less level lower_warning_threshold)
        || (less upper_warning_threshold level && less_eq level upper_error_threshold)
    then warning
    else error

-- The battery's level after a drain, not below 0.
unfoldable pub drained : (ℕ → ℕ → ℕ) → ℕ → ℕ → ℕ
unfolding less
drained sub level drain = let left = sub level drain in if less left 0 then 0 else left

abbrev pub measured : Base → ℕ → SensorState → Base
measured base level state = record base { current_value = level; current_state = state }

-- `collectData` of each class, with the value that the generator draws. It returns the new level.
abbrev pub collect_motion : ℕ → Base → Sensor × ℕ
collect_motion draw base = (motion_sensor (measured base draw (motion_state draw)) draw, draw)

abbrev pub collect_temperature : ℕ → Base → Sensor × ℕ
collect_temperature draw base =
    (temperature_sensor (measured base draw (temperature_state draw)) draw, draw)

abbrev pub collect_battery : (ℕ → ℕ → ℕ) → ℕ → Base → ℕ → Sensor × ℕ
collect_battery sub draw base level =
    let left = drained sub level draw in
    (battery_sensor (measured base left (battery_state left)) left, left)

abbrev pub collect_pressure : ℕ → Base → Sensor × ℕ
collect_pressure draw base = (pressure_sensor (measured base draw (pressure_state draw)) draw, draw)

-- The virtual call.
unfoldable pub collect_data : (ℕ → ℕ → ℕ) → ℕ → Sensor → Sensor × ℕ
unfolding motion_state temperature_state battery_state pressure_state drained
collect_data sub draw (motion_sensor base level) = collect_motion draw base
collect_data sub draw (temperature_sensor base level) = collect_temperature draw base
collect_data sub draw (battery_sensor base level) = collect_battery sub draw base level
collect_data sub draw (pressure_sensor base level) = collect_pressure draw base

unfoldable pub get_type : Sensor → SensorType
get_type (motion_sensor base level) = motion
get_type (temperature_sensor base level) = temperature
get_type (battery_sensor base level) = battery
get_type (pressure_sensor base level) = pressure

abbrev pub base_of : Sensor → Base
base_of (motion_sensor base level) = base
base_of (temperature_sensor base level) = base
base_of (battery_sensor base level) = base
base_of (pressure_sensor base level) = base

abbrev pub with_base : Base → Sensor → Sensor
with_base b (motion_sensor base level) = motion_sensor b level
with_base b (temperature_sensor base level) = temperature_sensor b level
with_base b (battery_sensor base level) = battery_sensor b level
with_base b (pressure_sensor base level) = pressure_sensor b level

unfoldable pub get_id : Sensor → ℕ
get_id s = (base_of s).sensor_id

unfoldable pub update_state : SensorState → Sensor → Sensor
update_state state s = with_base (record (base_of s) { current_state = state }) s

-- The message that `createTelemetry` returns and keeps as the current reading.
unfoldable pub reading : ℕ → Sensor → TelemetryMessage
unfolding get_type
reading now s = record {
  header = record { type = telemetry; sensor_id = (base_of s).sensor_id; timestamp_ms = now };
  type = get_type s;
  state = (base_of s).current_state;
  value = (base_of s).current_value;
}

unfoldable pub create_telemetry : ℕ → Sensor → Sensor × TelemetryMessage
unfolding reading
create_telemetry now s =
    let message = reading now s in
    (with_base (record (base_of s) { current_reading = some message }) s, message)
