-- ===== src/System/Beats.antt =====
-- The datagrams that the demo's nodes send, seen from sensor 3.
use smart_sensor_network.Prelude.{
  ℕ, ◌+◌, ◌≤◌, ◌<◌, ◌^◌, ◌≡◌, ◌≢◌, inl, inr, refl, sym, ap, ◌∙◌, subst, Bool, true, false, some,
  Bytes, arith, ◌==◌, Bool-cases, Option-cases,
}
use smart_sensor_network.Protocol.{
  TelemetryMessage, HeartbeatMessage, telemetry, message_type, IsTelemetry, IsHeader,
}
use smart_sensor_network.Sensor.{Sensor, collect_data, create_telemetry, reading, get_id}
use smart_sensor_network.Serializer.{serialize_telemetry, serialize_heartbeat}
use smart_sensor_network.Serializer.Decode.{word, decoded_header}
use smart_sensor_network.Node.{Tick, tick, send_heartbeat, heartbeat_message}
use smart_sensor_network.Node.Delivery.{reading-IsTelemetry}
use smart_sensor_network.System.World.{
  World, get_elem?, set, sender, tick_sensor, tick_node, beat_sensor, beat_node,
}
use smart_sensor_network.System.Packets.{
  decoded_telemetry-serialize_telemetry, decoded_header-serialize_heartbeat,
}
use smart_sensor_network.System.Fleet.{IsNode, get_elem?-IsNode, collect_data-IsNode}
use smart_sensor_network.System.Invariant.{IsWorld}
use smart_sensor_network.System.Heard.{is_beat, one_if, Calm, same-Calm, post-Calm}

-- A reading is no heartbeat.
telemetry_beat :
    (m : TelemetryMessage)
    → IsTelemetry m
    → m.header.type ≡ telemetry
    → is_beat (serialize_telemetry m) ≡ false
unfolding is_beat
telemetry_beat m valid type =
    let b : Bytes = serialize_telemetry m in
    let announced : message_type (word 1 0 b) ≡ telemetry =
      ap (λ t. t.header.type) (decoded_telemetry-serialize_telemetry m valid) ∙ type in
    rw announced refl

-- A heartbeat is sensor 3's only if it has its id.
heartbeat_beat :
    (m : HeartbeatMessage)
    → IsHeader m.header
    → m.header.sensor_id ≢ 3
    → is_beat (serialize_heartbeat m) ≡ false
unfolding is_beat
heartbeat_beat m valid other =
    let b : Bytes = serialize_heartbeat m in
    let id : (decoded_header b).sensor_id ≡ m.header.sensor_id =
      ap (λ t. t.sensor_id) (decoded_header-serialize_heartbeat m valid) in
    rw id (ground arith)

one_if_le : (b : Bool) → one_if b ≤ 1
one_if_le true = omega arith
one_if_le false = omega arith

Calm-mono : {m n : ℕ} {w v : World} → m ≤ n → Calm m w v → Calm n w v
Calm-mono h calm = record { load_le = let fewer = calm.load_le in omega arith; stays = calm.stays }

module _ (sub : ℕ → ℕ → ℕ) (sub_lt : (a b : ℕ) → sub a b < 2 ^ 64) where
  pub tick_node-Calm :
      (k draw : ℕ) (failed : Bool) (w : World)
      → draw < 2 ^ 64
      → IsWorld w
      → Calm 0 w (tick_node sub k draw failed w)
  unfolding tick_node tick_sensor tick create_telemetry
  tick_node-Calm k draw failed w fits h = elim (Option-cases (get_elem? w.sensors k)) [
    | inl none_there ↦ rw none_there (same-Calm w w refl refl)
    | inr (s, here_is) ↦
        let node = get_elem?-IsNode 1 w.sensors k s h.fleet_ok here_is in
        let c : Sensor = (collect_data sub draw s).0 in
        let n : IsNode (1 + k) c = collect_data-IsNode sub sub_lt draw (1 + k) s fits node in
        let t : Tick = tick sub (sender failed) draw w.clock s in
        let silent : is_beat t.packet ≡ false =
          telemetry_beat (reading w.clock c) (reading-IsTelemetry w.clock c n.in_range h.time.1)
            refl in
        let calm : Calm (one_if (is_beat t.packet)) w (tick_sensor sub k draw failed (some s) w) =
          let p = post-Calm t.packet t.outcome (record w { sensors = set w.sensors k t.sensor }) in
          record { load_le = p.load_le; stays = p.stays } in
        subst (λ o. Calm 0 w (tick_sensor sub k draw failed o w)) (sym here_is)
          (subst (λ x. Calm (one_if x) w (tick_sensor sub k draw failed (some s) w)) silent calm)
  ]

pub beat_node-Calm :
    (k : ℕ) (failed : Bool) (w : World)
    → IsWorld w
    → Calm (one_if (k == 2)) w (beat_node k failed w)
unfolding beat_node beat_sensor send_heartbeat heartbeat_message get_id
beat_node-Calm k failed w h = elim (Option-cases (get_elem? w.sensors k)) [
  | inl none_there ↦ rw none_there (Calm-mono (omega arith) (same-Calm w w refl refl))
  | inr (s, here_is) ↦
      let node = get_elem?-IsNode 1 w.sensors k s h.fleet_ok here_is in
      let m : HeartbeatMessage = heartbeat_message w.clock s in
      let (packet, outcome) = send_heartbeat (sender failed) w.clock s in
      let few : one_if (is_beat packet) ≤ one_if (k == 2) = elim (Bool-cases (k == 2)) [
        | inl third ↦ rw third (one_if_le (is_beat packet))
        | inr other ↦
            let valid : IsHeader m.header = record {
              type_ok = tt;
              sensor_id_lt = node.in_range.id_lt;
              timestamp_lt = h.time.1;
            } in
            let own : get_id s ≡ 1 + k = node.own_id in
            let silent : is_beat packet ≡ false = heartbeat_beat m valid (λ e. ground arith) in
            rw silent (omega arith)
      ] in
      subst (λ o. Calm (one_if (k == 2)) w (beat_sensor failed o w)) (sym here_is)
        (Calm-mono few (post-Calm packet outcome w))
]
