-- ===== src/System/Timely.antt =====
-- The times in the demo: of the datagrams under way, and in the registry.
use smart_sensor_network.Prelude.{
  ℕ, ◌+◌, ◌≤◌, ◌<◌, ◌^◌, ◌≡◌, inl, inr, refl, sym, ap, ◌∙◌, subst, Bool, List, [], ◌∷◌, Bytes, All,
  All-append, length, arith, ltb, if◌then◌else◌, Result, ok, throw, Bool-cases, Option-cases,
}
use smart_sensor_network.Protocol.{
  TelemetryMessage, HeartbeatMessage, MessageType, telemetry, heartbeat, other_message,
  message_type, IsTelemetry, IsHeader,
}
use smart_sensor_network.Registry.{AllEntries, modify-AllEntries}
use smart_sensor_network.Sensor.{Sensor, collect_data, create_telemetry, reading, get_id}
use smart_sensor_network.Serializer.{serialize_telemetry, serialize_heartbeat}
use smart_sensor_network.Serializer.Decode.{word, decoded_header, decoded_telemetry}
use smart_sensor_network.Gateway.{
  Gateway, Logs, SensorInfo, Sensors, initial_info, update_sensor_info, take_telemetry,
  handle_heartbeat, take_heartbeat, check_sensor, sweep, detect_offline_sensors,
}
use smart_sensor_network.Gateway.Handlers.{handled}
use smart_sensor_network.Gateway.History.{Ensures}
use smart_sensor_network.Node.{Tick, tick, send_heartbeat, heartbeat_message}
use smart_sensor_network.Node.Delivery.{reading-IsTelemetry}
use smart_sensor_network.Udp.{receive_packet}
use smart_sensor_network.System.World.{
  World, get_elem?, set, remove, post, sender, tick_sensor, tick_node, beat_sensor, beat_node,
  keep_result, receive_at, receive_next, lose, sweep_at, advance,
}
use smart_sensor_network.System.Packets.{
  IsSent, decoded_telemetry-serialize_telemetry, decoded_header-serialize_heartbeat,
}
use smart_sensor_network.System.Fleet.{IsNode, get_elem?-IsNode, collect_data-IsNode}
use smart_sensor_network.System.Deliveries.{receive_packet-handled, receive_packet-Accepts}
use smart_sensor_network.System.Invariant.{IsWorld, get_elem?-All, remove-All}

-- A datagram that was made by now.
abbrev pub IsFresh : ℕ → Bytes → Type 0
IsFresh clock b = (decoded_header b).timestamp_ms ≤ clock

-- An entry whose telemetry was made before it came, and that is from no later than now.
pub record InTime (clock : ℕ) (info : SensorInfo) : Type 0 where
  pub made_le : info.last_telemetry.header.timestamp_ms ≤ info.last_telemetry_received_time
  pub telemetry_le : info.last_telemetry_received_time ≤ clock
  pub heartbeat_le : info.last_heartbeat_received_time ≤ clock

pub record IsTimely (w : World) : Type 0 where
  pub fresh : All (IsFresh w.clock) w.network
  pub in_time : AllEntries (λ id. InTime w.clock) w.gateway.sensors

All-later : (c d : ℕ) (bs : List Bytes) → c ≤ d → All (IsFresh c) bs → All (IsFresh d) bs
All-later c d [] h f = tt
All-later c d (b ∷ bs) h f = (omega (arith, f.0), All-later c d bs h f.1)

entries_later :
    (c d : ℕ) (m : Sensors) → c ≤ d → AllEntries (λ id. InTime c) m → AllEntries (λ id. InTime d) m
entries_later c d [] h t = tt
entries_later c d ((id, info) ∷ m) h t = (
  record {
    made_le = t.0.made_le;
    telemetry_le = omega (arith, t.0.telemetry_le);
    heartbeat_le = omega (arith, t.0.heartbeat_le);
  },
  entries_later c d m h t.1,
)

pub advance-IsTimely : (n : ℕ) (w : World) → IsTimely w → IsTimely (advance n w)
advance-IsTimely n w h =
    let later : w.clock ≤ (if ltb (w.clock + n) (2 ^ 64) then w.clock + n else w.clock) =
      ground arith in
    record {
      fresh = All-later w.clock _ w.network later h.fresh;
      in_time = entries_later w.clock _ w.gateway.sensors later h.in_time;
    }

pub lose-IsTimely : (i : ℕ) (w : World) → IsTimely w → IsTimely (lose i w)
lose-IsTimely i w h = record {
  fresh = remove-All (IsFresh w.clock) w.network i h.fresh;
  in_time = h.in_time;
}

check_sensor-InTime :
    (current clock : ℕ) (info : SensorInfo)
    → InTime clock info
    → InTime clock (check_sensor current info)
unfolding check_sensor
check_sensor-InTime current clock info h = ground (arith, h.made_le, h.telemetry_le, h.heartbeat_le)

sweep-InTime :
    (current clock : ℕ) (m : Sensors)
    → AllEntries (λ id. InTime clock) m
    → AllEntries (λ id. InTime clock) (sweep current m)
unfolding sweep
sweep-InTime current clock [] h = tt
sweep-InTime current clock ((id, info) ∷ m) h =
    (check_sensor-InTime current clock info h.0, sweep-InTime current clock m h.1)

pub sweep_at-IsTimely : (current : ℕ) (w : World) → IsTimely w → IsTimely (sweep_at current w)
unfolding sweep_at detect_offline_sensors
sweep_at-IsTimely current w h = record {
  fresh = h.fresh;
  in_time = sweep-InTime current w.clock w.gateway.sensors h.in_time;
}

post-IsTimely {ℓ} :
    {A : Type ℓ} (packet : Bytes) (r : Result A) (w : World)
    → IsFresh w.clock packet
    → IsTimely w
    → IsTimely (post packet r w)
post-IsTimely packet (ok a) w new h = record {
  fresh = All-append (IsFresh w.clock) w.network (packet ∷ []) h.fresh (new, tt);
  in_time = h.in_time;
}
post-IsTimely packet (throw e) w new h = record { fresh = h.fresh; in_time = h.in_time }

handled-InTime :
    (now : ℕ) (b : Bytes) (g : Gateway) (t : MessageType)
    → IsFresh now b
    → AllEntries (λ id. InTime now) g.sensors
    → Ensures (λ g'. AllEntries (λ id. InTime now) g'.sensors) (handled now b g t)
unfolding update_sensor_info take_telemetry handle_heartbeat take_heartbeat
handled-InTime now b g telemetry new h = elim (Bool-cases (ltb (length b) 23)) [
  | inl short ↦ rw short tt
  | inr whole ↦ rw whole (
      modify-AllEntries (λ id. InTime now) (decoded_header b).sensor_id initial_info
        (take_telemetry now (decoded_telemetry b)) g.sensors
        (record { made_le = new; telemetry_le = omega arith; heartbeat_le = omega arith })
        (λ info old. record {
          made_le = new;
          telemetry_le = omega arith;
          heartbeat_le = old.heartbeat_le;
        })
        h)
]
handled-InTime now b g heartbeat new h =
    modify-AllEntries (λ id. InTime now) (decoded_header b).sensor_id initial_info
      (take_heartbeat now) g.sensors
      (record { made_le = omega arith; telemetry_le = omega arith; heartbeat_le = omega arith })
      (λ info old. record {
        made_le = old.made_le;
        telemetry_le = old.telemetry_le;
        heartbeat_le = omega arith;
      })
      h
handled-InTime now b g (other_message n) new h = h

pub receive_next-IsTimely :
    (i : ℕ) (w : World) → IsWorld w → IsTimely w → IsTimely (receive_next i w)
unfolding receive_next receive_packet
receive_next-IsTimely i w valid h = elim (Option-cases (get_elem? w.network i)) [
  | inl none_there ↦ rw none_there (record { fresh = h.fresh; in_time = h.in_time })
  | inr (b, here_is) ↦
      let sent : IsSent b = get_elem?-All IsSent w.network i b valid.sent here_is in
      let (g, logs, accepted, _) =
        receive_packet-Accepts w.clock b w.gateway valid.time sent valid.registry_ok in
      let Kept : Result (Gateway × Logs) → Type 0 =
        Ensures λ g'. AllEntries (λ id. InTime w.clock) g'.sensors in
      let kept : Kept (ok (g, logs)) =
        subst Kept (sym (receive_packet-handled w.clock b w.gateway sent) ∙ accepted) (
          handled-InTime w.clock b w.gateway (message_type (word 1 0 b))
            (get_elem?-All (IsFresh w.clock) w.network i b h.fresh here_is) h.in_time) in
      subst (λ o. IsTimely (receive_at i o w)) (sym here_is)
        (subst (λ r. IsTimely (keep_result r (record w { network = remove w.network i })))
          (sym accepted)
          (record { fresh = remove-All (IsFresh w.clock) w.network i h.fresh; in_time = kept }))
]

telemetry-IsFresh :
    (now : ℕ) (m : TelemetryMessage)
    → IsTelemetry m
    → m.header.timestamp_ms ≡ now
    → IsFresh now (serialize_telemetry m)
telemetry-IsFresh now m valid stamped =
    let made = ap (λ t. t.header.timestamp_ms) (decoded_telemetry-serialize_telemetry m valid) in
    rw made (omega arith)

heartbeat-IsFresh :
    (now : ℕ) (m : HeartbeatMessage)
    → IsHeader m.header
    → m.header.timestamp_ms ≡ now
    → IsFresh now (serialize_heartbeat m)
heartbeat-IsFresh now m valid stamped =
    let made = ap (λ t. t.timestamp_ms) (decoded_header-serialize_heartbeat m valid) in
    rw made (omega arith)

pub beat_node-IsTimely :
    (k : ℕ) (failed : Bool) (w : World) → IsWorld w → IsTimely w → IsTimely (beat_node k failed w)
unfolding beat_node beat_sensor send_heartbeat heartbeat_message get_id
beat_node-IsTimely k failed w valid h = elim (Option-cases (get_elem? w.sensors k)) [
  | inl none_there ↦ rw none_there h
  | inr (s, here_is) ↦
      let node = get_elem?-IsNode 1 w.sensors k s valid.fleet_ok here_is in
      let (packet, outcome) = send_heartbeat (sender failed) w.clock s in
      let header : IsHeader (heartbeat_message w.clock s).header = record {
        type_ok = tt;
        sensor_id_lt = node.in_range.id_lt;
        timestamp_lt = valid.time.1;
      } in
      subst (λ o. IsTimely (beat_sensor failed o w)) (sym here_is)
        (post-IsTimely packet outcome w
          (heartbeat-IsFresh w.clock (heartbeat_message w.clock s) header refl) h)
]

module _ (sub : ℕ → ℕ → ℕ) (sub_lt : (a b : ℕ) → sub a b < 2 ^ 64) where
  pub tick_node-IsTimely :
      (k draw : ℕ) (failed : Bool) (w : World)
      → draw < 2 ^ 64
      → IsWorld w
      → IsTimely w
      → IsTimely (tick_node sub k draw failed w)
  unfolding tick_node tick_sensor tick create_telemetry reading
  tick_node-IsTimely k draw failed w fits valid h = elim (Option-cases (get_elem? w.sensors k)) [
    | inl none_there ↦ rw none_there h
    | inr (s, here_is) ↦
        let node = get_elem?-IsNode 1 w.sensors k s valid.fleet_ok here_is in
        let c : Sensor = (collect_data sub draw s).0 in
        let n : IsNode (1 + k) c = collect_data-IsNode sub sub_lt draw (1 + k) s fits node in
        let t : Tick = tick sub (sender failed) draw w.clock s in
        subst (λ o. IsTimely (tick_sensor sub k draw failed o w)) (sym here_is)
          (post-IsTimely t.packet t.outcome (record w { sensors = set w.sensors k t.sensor })
            (telemetry-IsFresh w.clock (reading w.clock c)
              (reading-IsTelemetry w.clock c n.in_range valid.time.1) refl)
            (record { fresh = h.fresh; in_time = h.in_time }))
  ]
