-- ===== src/Gateway/Watchdog.antt =====
-- The watchdog, `detectOfflineSensors`, seen at one sensor and over time.
use smart_sensor_network.Prelude.{
  ℕ, ◌+◌, ◌-◌, ◌<◌, ◌≤◌, ◌≡◌, ◌≢◌, refl, map, ap, sym, ◌∙◌, List, [], ◌∷◌, arith, ◌==◌, ltb, ◌&&◌,
  not, Bool, false, if◌then◌else◌,
}
use mathlib.Core.Option
use smart_sensor_network.Protocol.{unknown, offline, sensor_heartbeat_timeout_ms}
use smart_sensor_network.Registry.{find, AllEntries}
use smart_sensor_network.Gateway.{
  SensorInfo, Sensors, Gateway, sub64, u64_mod, is_unknown, is_offline, offline_log, times_out,
  check_sensor, check_log, sweep, sweep_logs, detect_offline_sensors,
}

-- The sensor has been heard of, and its last heartbeat lies more than the timeout before `current`:
-- in whole numbers, with no wrap-around.
abbrev pub overdue : ℕ → SensorInfo → Bool
overdue current info =
    not (is_unknown info.health)
    && not (info.last_heartbeat_received_time == 0)
    && ltb (info.last_heartbeat_received_time + sensor_heartbeat_timeout_ms) current

-- The clock reads later than the heartbeats, and within 64 bits.
abbrev pub IsAfter : ℕ → SensorInfo → Type 0
IsAfter current info = (info.last_heartbeat_received_time ≤ current) × (current < u64_mod)

find-sweep :
    (current id : ℕ) (m : Sensors)
    → find id (sweep current m) ≡ Option.map (check_sensor current) (find id m)
unfolding find sweep
find-sweep current id [] = refl
find-sweep current id ((key, info) ∷ m) = ground (arith, find-sweep current id m)

-- The sweep looks at each entry by itself, and changes no counter.
pub find-detect_offline_sensors :
    (current id : ℕ) (g : Gateway)
    → let after = (detect_offline_sensors current g).0 in
      (find id after.sensors ≡ Option.map (check_sensor current) (find id g.sensors))
      × (after.telemetry_packets_received ≡ g.telemetry_packets_received)
      × (after.heartbeat_packets_received ≡ g.heartbeat_packets_received)
unfolding detect_offline_sensors
find-detect_offline_sensors current id g = (find-sweep current id g.sensors, refl, refl)

pub sub64-eq : (a b : ℕ) → b ≤ a → a < u64_mod → sub64 a b ≡ a - b
sub64-eq a b h k = omega arith

sub64_early : (a b : ℕ) → a < b → b < a + u64_mod → sub64 a b ≡ a + u64_mod - b
sub64_early a b h k = omega arith

-- With a clock that is not behind the heartbeat, and within 64 bits, an overdue sensor is offline after the sweep and any
-- other sensor is as it was.
pub check_sensor_lem :
    (current : ℕ) (info : SensorInfo)
    → IsAfter current info
    → check_sensor current info
      ≡ (if overdue current info then record info { health = offline } else info)
unfolding check_sensor
check_sensor_lem current info after =
    ground (arith, sub64-eq current info.last_heartbeat_received_time)

-- The race: a heartbeat handled between the clock's reading and the sweep has a later time than
-- `current`, the unsigned difference wraps round, and the sensor goes offline at once.
pub check_sensor-early :
    (current : ℕ) (info : SensorInfo)
    → info.health ≢ unknown
    → current < info.last_heartbeat_received_time
    → info.last_heartbeat_received_time + sensor_heartbeat_timeout_ms < current + u64_mod
    → check_sensor current info ≡ record info { health = offline }
unfolding check_sensor
check_sensor-early current info known early room =
    ground (arith, sub64_early current info.last_heartbeat_received_time)

-- A second sweep finds no more: it changes nothing and logs nothing.
check_sensor_idem :
    (current : ℕ) (info : SensorInfo)
    → (check_sensor current (check_sensor current info) ≡ check_sensor current info)
      × (times_out current (check_sensor current info) ≡ false)
unfolding check_sensor
check_sensor_idem current info = (ground arith, ground arith)

sweep_idem :
    (current : ℕ) (m : Sensors)
    → (sweep current (sweep current m) ≡ sweep current m)
      × (sweep_logs current (sweep current m) ≡ [])
unfolding sweep sweep_logs check_log
sweep_idem current [] = (refl, refl)
sweep_idem current ((id, info) ∷ m) =
    let (same, silent) = check_sensor_idem current info in
    let (rest_same, rest_silent) = sweep_idem current m in
    (λ i. (id, same i) ∷ rest_same i, rw (silent, rest_silent))

-- A second sweep at the same reading of the clock changes nothing and logs nothing.
detect_offline_sensors_idem :
    (current : ℕ) (g : Gateway)
    → let after = (detect_offline_sensors current g).0 in
      detect_offline_sensors current after ≡ (after, [])
unfolding detect_offline_sensors
detect_offline_sensors_idem current g =
    let (same, silent) = sweep_idem current g.sensors in
    λ i. (record g { sensors = same i }, silent i)

-- The sensors that are overdue and not yet offline, in the order of the registry.
abbrev pub fallen : ℕ → Sensors → List ℕ
fallen current [] = []
fallen current ((id, info) ∷ m) =
    if overdue current info && not (is_offline info.health)
    then id ∷ fallen current m
    else fallen current m

-- The sensors that are offline after and were not before, where both registries have the same keys.
abbrev pub turned : Sensors → Sensors → List ℕ
turned ((id, before) ∷ m) ((key, after) ∷ n) =
    if not (is_offline before.health) && is_offline after.health
    then id ∷ turned m n
    else turned m n
turned _ _ = []

sweep-turned :
    (current : ℕ) (m : Sensors)
    → AllEntries (λ id. IsAfter current) m
    → turned m (sweep current m) ≡ fallen current m
unfolding sweep check_sensor
sweep-turned current [] h = refl
sweep-turned current ((id, info) ∷ m) h =
    ground (arith, sub64-eq current info.last_heartbeat_received_time, sweep-turned current m h.1)

sweep_logs-fallen :
    (current : ℕ) (m : Sensors)
    → AllEntries (λ id. IsAfter current) m
    → sweep_logs current m ≡ map offline_log (fallen current m)
unfolding sweep_logs check_log
sweep_logs-fallen current [] h = refl
sweep_logs-fallen current ((id, info) ∷ m) h =
    ground
      (arith, sub64-eq current info.last_heartbeat_received_time, sweep_logs-fallen current m h.1)

-- With a clock that is not behind any heartbeat, and within 64 bits, a sweep logs one line for each sensor that has
-- another health before it and OFFLINE after it, with its id, in the order of the registry, and no other
-- line; and these are the sensors that are overdue and were not yet offline.
pub detect_offline_sensors-logs :
    (current : ℕ) (g : Gateway)
    → AllEntries (λ id. IsAfter current) g.sensors
    → let (after, logs) = detect_offline_sensors current g in
      (logs ≡ map offline_log (turned g.sensors after.sensors))
      × (turned g.sensors after.sensors ≡ fallen current g.sensors)
unfolding detect_offline_sensors
detect_offline_sensors-logs current g h =
    let same = sweep-turned current g.sensors h in
    (sweep_logs-fallen current g.sensors h ∙ ap (map offline_log) (sym same), same)
