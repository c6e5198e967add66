-- ===== src/System/Fleet.antt =====
-- The seven sensors while their nodes tick.
use smart_sensor_network.Prelude.{
  ℕ, zero, suc, ◌+◌, ◌<◌, ◌^◌, ◌≡◌, refl, sym, ap, ◌∙◌, some, List, [], ◌∷◌, Bytes, arith, subst,
  Result,
}
use smart_sensor_network.Sensor.{
  Sensor, motion_sensor, temperature_sensor, battery_sensor, pressure_sensor, collect_data,
  create_telemetry, reading, get_id, get_type, drained,
}
use smart_sensor_network.Node.{tick, send_heartbeat, heartbeat_message}
use smart_sensor_network.Node.Delivery.{
  IsSensor, collect_data-IsSensor, collect_data-id, reading-IsTelemetry,
}
use smart_sensor_network.System.World.{get_elem?, set, fleet}
use smart_sensor_network.System.Packets.{
  kind, IsMember, IsSent, serialize_telemetry-IsSent, serialize_heartbeat-IsSent,
}

-- The sensor of the id, of its class, with fields in range.
pub record IsNode (id : ℕ) (s : Sensor) : Type 0 where
  pub member : IsMember id
  pub own_id : get_id s ≡ id
  pub own_type : get_type s ≡ kind id
  pub in_range : IsSensor s

-- The sensors with the ids from one on.
abbrev pub IsFleet : ℕ → List Sensor → Type 0
IsFleet id [] = Unit
IsFleet id (s ∷ ss) = IsNode id s × IsFleet (suc id) ss

pub fleet-IsFleet : IsFleet 1 fleet
unfolding get_id get_type
fleet-IsFleet = ground arith

pub get_elem?-IsNode :
    (id : ℕ) (ss : List Sensor) (k : ℕ) (s : Sensor)
    → IsFleet id ss
    → get_elem? ss k ≡ some s
    → IsNode (id + k) s
get_elem?-IsNode id [] k s h e = cc
get_elem?-IsNode id (t ∷ ss) zero s h e =
    let same : t ≡ s = cc in
    subst (IsNode (id + 0)) same (subst (λ j. IsNode j t) (omega arith) h.0)
get_elem?-IsNode id (t ∷ ss) (suc k) s h e =
    subst (λ j. IsNode j s) (omega arith) (get_elem?-IsNode (suc id) ss k s h.1 e)

pub set-IsFleet :
    (id : ℕ) (ss : List Sensor) (k : ℕ) (s s' : Sensor)
    → ((j : ℕ) → IsNode j s → IsNode j s')
    → get_elem? ss k ≡ some s
    → IsFleet id ss
    → IsFleet id (set ss k s')
set-IsFleet id [] k s s' keep e h = tt
set-IsFleet id (t ∷ ss) zero s s' keep e h =
    let same : t ≡ s = cc in (keep id (subst (IsNode id) same h.0), h.1)
set-IsFleet id (t ∷ ss) (suc k) s s' keep e h = (h.0, set-IsFleet (suc id) ss k s s' keep e h.1)

create_telemetry-IsNode :
    (now j : ℕ) (s : Sensor) → IsNode j s → IsNode j (create_telemetry now s).0
unfolding create_telemetry get_id get_type
create_telemetry-IsNode now j (motion_sensor base level) h = ground arith
create_telemetry-IsNode now j (temperature_sensor base level) h = ground arith
create_telemetry-IsNode now j (battery_sensor base level) h = ground arith
create_telemetry-IsNode now j (pressure_sensor base level) h = ground arith

collect_data-type :
    (sub : ℕ → ℕ → ℕ) (draw : ℕ) (s : Sensor) → get_type (collect_data sub draw s).0 ≡ get_type s
unfolding collect_data get_type
collect_data-type sub draw (motion_sensor base level) = refl
collect_data-type sub draw (temperature_sensor base level) = refl
collect_data-type sub draw (battery_sensor base level) = refl
collect_data-type sub draw (pressure_sensor base level) = refl

module _ (sub : ℕ → ℕ → ℕ) (sub_lt : (a b : ℕ) → sub a b < 2 ^ 64) where
  collect_data-lt : (draw : ℕ) (s : Sensor) → draw < 2 ^ 64 → (collect_data sub draw s).1 < 2 ^ 64
  unfolding collect_data drained
  collect_data-lt draw (motion_sensor base level) h = h
  collect_data-lt draw (temperature_sensor base level) h = h
  collect_data-lt draw (battery_sensor base level) h = ground (arith, sub_lt level draw)
  collect_data-lt draw (pressure_sensor base level) h = h

  pub collect_data-IsNode :
      (draw j : ℕ) (s : Sensor) → draw < 2 ^ 64 → IsNode j s → IsNode j (collect_data sub draw s).0
  collect_data-IsNode draw j s h node = record {
    member = node.member;
    own_id = collect_data-id sub draw s ∙ node.own_id;
    own_type = collect_data-type sub draw s ∙ node.own_type;
    in_range = collect_data-IsSensor sub draw s node.in_range (collect_data-lt draw s h);
  }

  pub tick-IsNode :
      (send : Bytes → Result (Unit {0})) (draw now j : ℕ) (s : Sensor)
      → draw < 2 ^ 64
      → IsNode j s
      → IsNode j (tick sub send draw now s).sensor
  unfolding tick
  tick-IsNode send draw now j s h node =
      create_telemetry-IsNode now j (collect_data sub draw s).0
        (collect_data-IsNode draw j s h node)

  pub tick-IsSent :
      (send : Bytes → Result (Unit {0})) (draw now j : ℕ) (s : Sensor)
      → draw < 2 ^ 64
      → now < 2 ^ 64
      → IsNode j s
      → IsSent (tick sub send draw now s).packet
  unfolding tick create_telemetry get_id reading
  tick-IsSent send draw now j s h time node =
      let c : Sensor = (collect_data sub draw s).0 in
      let n : IsNode j c = collect_data-IsNode draw j s h node in
      serialize_telemetry-IsSent (reading now c) (reading-IsTelemetry now c n.in_range time) refl
        (subst IsMember (sym n.own_id) n.member) (n.own_type ∙ ap kind (sym n.own_id))

pub send_heartbeat-IsSent :
    (send : Bytes → Result (Unit {0})) (now j : ℕ) (s : Sensor)
    → now < 2 ^ 64
    → IsNode j s
    → IsSent (send_heartbeat send now s).0
unfolding send_heartbeat heartbeat_message get_id
send_heartbeat-IsSent send now j s time node =
    serialize_heartbeat-IsSent (heartbeat_message now s)
      (record { type_ok = tt; sensor_id_lt = node.in_range.id_lt; timestamp_lt = time }) refl
      (subst IsMember (sym node.own_id) node.member)
