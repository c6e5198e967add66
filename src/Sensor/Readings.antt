-- ===== src/Sensor/Readings.antt =====
-- What the states of the sensors say of their readings.
use smart_sensor_network.Prelude.{ℕ, ◌≤◌, ◌≡◌, true, arith, if◌then◌else◌}
use smart_sensor_network.Protocol.{SensorState, active, warning, error, other_state}
use smart_sensor_network.Double.{is_nan, rank, IsNumber}
use smart_sensor_network.Sensor.{temperature_state, battery_state, pressure_state}

-- How bad a state is.
abbrev pub severity : SensorState → ℕ
severity active = 0
severity warning = 1
severity error = 2
severity (other_state n) = 3

-- A hotter reading is never reported as less severe.
pub temperature_state_mono :
    (a b : ℕ)
    → IsNumber a
    → IsNumber b
    → rank a ≤ rank b
    → severity (temperature_state a) ≤ severity (temperature_state b)
unfolding temperature_state
temperature_state_mono a b ha hb h = ground arith

-- A fuller battery is never reported as more severe.
pub battery_state_mono :
    (a b : ℕ)
    → IsNumber a
    → IsNumber b
    → rank a ≤ rank b
    → severity (battery_state b) ≤ severity (battery_state a)
unfolding battery_state
battery_state_mono a b ha hb h = ground arith

-- The pressure sensor reports ACTIVE for every number, however far from its thresholds, and ERROR for
-- NaN; it never reports WARNING.
pub pressure_state_always :
    (level : ℕ) → pressure_state level ≡ (if is_nan level then error else active)
unfolding pressure_state
pressure_state_always level = ground arith

-- A reading that is not a number is an error to the temperature and the battery sensor.
pub nan_states :
    (level : ℕ)
    → is_nan level ≡ true
    → (temperature_state level ≡ error) × (battery_state level ≡ error)
unfolding temperature_state battery_state
nan_states level h = (ground arith, ground arith)
