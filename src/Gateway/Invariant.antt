-- ===== src/Gateway/Invariant.antt =====
-- The gateway's invariant and its handlers.
use mathlib.Core.Path.{subst}
use smart_sensor_network.Prelude.{
  ℕ, sym, ◌^◌, ◌<◌, ◌≡◌, ◌≢◌, ◌⊎◌, inl, inr, refl, [], ◌∷◌, arith, All,
}
use smart_sensor_network.Protocol.{
  HeartbeatMessage, TelemetryMessage, IsHeader, IsTelemetry, unknown, offline,
}
use smart_sensor_network.Registry.{IsUnique, AllEntries, modify-IsUnique, modify-AllEntries, keys}
use smart_sensor_network.Gateway.{
  SensorInfo, Sensors, Gateway, initial_info, empty_gateway, u64_mod, update_sensor_info,
  take_telemetry, handle_heartbeat, take_heartbeat, check_sensor, sweep, detect_offline_sensors,
}

-- An entry: its key is a `uint32_t`; its health is UNKNOWN exactly while no heartbeat has come; and its
-- telemetry, once received, was sent under the key.
pub record IsEntry (id : ℕ) (info : SensorInfo) : Type 0 where
  pub id_lt : id < 2 ^ 32
  pub message_ok : IsTelemetry info.last_telemetry
  pub own : (info.last_telemetry_received_time ≡ 0) ⊎ (info.last_telemetry.header.sensor_id ≡ id)
  pub unheard : info.health ≡ unknown → info.last_heartbeat_received_time ≡ 0
  pub heard : info.last_heartbeat_received_time ≡ 0 → info.health ≡ unknown
  pub telemetry_time_lt : info.last_telemetry_received_time < u64_mod
  pub heartbeat_time_lt : info.last_heartbeat_received_time < u64_mod

pub record IsGateway (g : Gateway) : Type 0 where
  pub unique : IsUnique g.sensors
  pub entries : AllEntries IsEntry g.sensors
  pub telemetry_lt : g.telemetry_packets_received < u64_mod
  pub heartbeat_lt : g.heartbeat_packets_received < u64_mod

-- A time that `now()` returns: later than the epoch, and a `uint64_t`.
abbrev pub IsTime : ℕ → Type 0
IsTime now = (0 < now) × (now < u64_mod)

pub empty_gateway-IsGateway : IsGateway empty_gateway
empty_gateway-IsGateway = record {
  unique = tt;
  entries = tt;
  telemetry_lt = omega arith;
  heartbeat_lt = omega arith;
}

initial_info-IsTelemetry : IsTelemetry initial_info.last_telemetry
initial_info-IsTelemetry = omega arith

take_telemetry-IsEntry :
    (now : ℕ) (m : TelemetryMessage) (info : SensorInfo)
    → IsTime now
    → IsTelemetry m
    → IsEntry m.header.sensor_id info
    → IsEntry m.header.sensor_id (take_telemetry now m info)
unfolding take_telemetry
take_telemetry-IsEntry now m info time valid h = record {
  id_lt = h.id_lt;
  message_ok = valid;
  own = inr refl;
  unheard = h.unheard;
  heard = h.heard;
  telemetry_time_lt = time.1;
  heartbeat_time_lt = h.heartbeat_time_lt;
}

take_heartbeat-IsEntry :
    (now id : ℕ) (info : SensorInfo)
    → IsTime now
    → IsEntry id info
    → IsEntry id (take_heartbeat now info)
unfolding take_heartbeat
take_heartbeat-IsEntry now id info time h = record {
  id_lt = h.id_lt;
  message_ok = h.message_ok;
  own = h.own;
  telemetry_time_lt = h.telemetry_time_lt;
  unheard = λ e. ground arith;
  heard = λ e. ground arith;
  heartbeat_time_lt = time.1;
}

-- The sweep leaves an entry, or marks one that a heartbeat has reached.
check_sensor_cases :
    (current : ℕ) (info : SensorInfo)
    → (check_sensor current info ≡ info)
      ⊎ ((check_sensor current info ≡ record info { health = offline })
          × (info.last_heartbeat_received_time ≢ 0))
unfolding check_sensor
check_sensor_cases current info = ground arith

check_sensor-IsEntry :
    (current id : ℕ) (info : SensorInfo) → IsEntry id info → IsEntry id (check_sensor current info)
check_sensor-IsEntry current id info h = elim (check_sensor_cases current info) [
  | inl same ↦ subst (IsEntry id) (sym same) h
  | inr (marked, heard) ↦ subst (IsEntry id) (sym marked) (record {
    id_lt = h.id_lt;
    message_ok = h.message_ok;
    own = h.own;
    telemetry_time_lt = h.telemetry_time_lt;
    heartbeat_time_lt = h.heartbeat_time_lt;
    unheard = λ e. cc;
    heard = λ e. absurd (heard e);
  })
]

initial_info-IsEntry : (id : ℕ) → id < 2 ^ 32 → IsEntry id initial_info
initial_info-IsEntry id h = record {
  id_lt = h;
  message_ok = initial_info-IsTelemetry;
  own = inl refl;
  unheard = λ e. refl;
  heard = λ e. refl;
  telemetry_time_lt = omega arith;
  heartbeat_time_lt = omega arith;
}

pub update_sensor_info-IsGateway :
    (now : ℕ) (m : TelemetryMessage) (g : Gateway)
    → IsTime now
    → IsTelemetry m
    → IsGateway g
    → IsGateway (update_sensor_info now m g)
unfolding update_sensor_info
update_sensor_info-IsGateway now m g time valid h =
    let id : ℕ = m.header.sensor_id in
    record {
      unique = modify-IsUnique id initial_info (take_telemetry now m) g.sensors h.unique;
      entries =
          modify-AllEntries IsEntry id initial_info (take_telemetry now m) g.sensors
            (take_telemetry-IsEntry now m initial_info time valid
              (initial_info-IsEntry id valid.header_ok.sensor_id_lt))
            (λ info. take_telemetry-IsEntry now m info time valid) h.entries;
      telemetry_lt = omega arith;
      heartbeat_lt = h.heartbeat_lt;
    }

pub handle_heartbeat-IsGateway :
    (now : ℕ) (m : HeartbeatMessage) (g : Gateway)
    → IsTime now
    → IsHeader m.header
    → IsGateway g
    → IsGateway (handle_heartbeat now m g)
unfolding handle_heartbeat
handle_heartbeat-IsGateway now m g time valid h =
    let id : ℕ = m.header.sensor_id in
    record {
      unique = modify-IsUnique id initial_info (take_heartbeat now) g.sensors h.unique;
      entries =
          modify-AllEntries IsEntry id initial_info (take_heartbeat now) g.sensors
            (take_heartbeat-IsEntry now id initial_info time
              (initial_info-IsEntry id valid.sensor_id_lt))
            (λ info. take_heartbeat-IsEntry now id info time) h.entries;
      telemetry_lt = h.telemetry_lt;
      heartbeat_lt = omega arith;
    }

sweep-All {κ} :
    (P : ℕ → Type κ) (current : ℕ) (m : Sensors) → All P (keys m) → All P (keys (sweep current m))
unfolding sweep
sweep-All P current [] h = tt
sweep-All P current ((id, info) ∷ m) h = (h.0, sweep-All P current m h.1)

sweep-IsUnique : (current : ℕ) (m : Sensors) → IsUnique m → IsUnique (sweep current m)
unfolding sweep
sweep-IsUnique current [] u = tt
sweep-IsUnique current ((id, info) ∷ m) u =
    (sweep-All (λ k. k ≢ id) current m u.0, sweep-IsUnique current m u.1)

sweep-entries :
    (current : ℕ) (m : Sensors) → AllEntries IsEntry m → AllEntries IsEntry (sweep current m)
unfolding sweep
sweep-entries current [] h = tt
sweep-entries current ((id, info) ∷ m) h =
    (check_sensor-IsEntry current id info h.0, sweep-entries current m h.1)

pub detect_offline_sensors-IsGateway :
    (current : ℕ) (g : Gateway) → IsGateway g → IsGateway (detect_offline_sensors current g).0
unfolding detect_offline_sensors
detect_offline_sensors-IsGateway current g h = record {
  telemetry_lt = h.telemetry_lt;
  heartbeat_lt = h.heartbeat_lt;
  unique = sweep-IsUnique current g.sensors h.unique;
  entries = sweep-entries current g.sensors h.entries;
}
