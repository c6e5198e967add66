-- ===== src/System/Traffic.antt =====
-- The datagrams of the demo and the counters of the gateway.
use smart_sensor_network.Prelude.{
  ℕ, zero, suc, ◌+◌, ◌≤◌, ◌≡◌, inl, inr, refl, sym, ◌∙◌, subst, Bool, some, List, [], ◌∷◌, length,
  length-append, Bytes, arith, Option-cases, Result, ok, throw,
}
use smart_sensor_network.Protocol.{MessageType, telemetry, heartbeat, other_message, message_type}
use smart_sensor_network.Serializer.Decode.{word}
use smart_sensor_network.Gateway.{
  Gateway, Logs, update_sensor_info, handle_heartbeat, detect_offline_sensors,
}
use smart_sensor_network.Gateway.Handlers.{handled}
use smart_sensor_network.Gateway.History.{Ensures}
use smart_sensor_network.Udp.{receive_packet}
use smart_sensor_network.Node.{tick, send_heartbeat}
use smart_sensor_network.System.World.{
  World, get_elem?, set, remove, post, sender, tick_sensor, tick_node, beat_sensor, beat_node,
  keep_result, receive_at, receive_next, lose, sweep_at,
}
use smart_sensor_network.System.Packets.{IsSent}
use smart_sensor_network.System.Deliveries.{receive_packet-handled, receive_packet-Accepts}
use smart_sensor_network.System.Invariant.{IsWorld, get_elem?-All}

abbrev pub counted : Gateway → ℕ
counted g = g.telemetry_packets_received + g.heartbeat_packets_received

-- The packets that the gateway has counted, and those under way.
abbrev pub traffic : World → ℕ
traffic w = counted w.gateway + length w.network

length-remove :
    {A : Type 0} (xs : List A) (i : ℕ) {x : A}
    → get_elem? xs i ≡ some x
    → length (remove xs i) + 1 ≡ length xs
length-remove [] i e = cc
length-remove (x ∷ xs) zero e = omega arith
length-remove (x ∷ xs) (suc i) e = let rest = length-remove xs i e in omega arith

length-remove_le : {A : Type 0} (xs : List A) (i : ℕ) → length (remove xs i) ≤ length xs
length-remove_le [] i = omega arith
length-remove_le (x ∷ xs) zero = omega arith
length-remove_le (x ∷ xs) (suc i) = let rest = length-remove_le xs i in omega arith

pub lose-traffic : (i : ℕ) (w : World) → traffic (lose i w) ≤ traffic w
lose-traffic i w = let fewer = length-remove_le w.network i in omega arith

pub sweep_at-traffic : (current : ℕ) (w : World) → traffic (sweep_at current w) ≡ traffic w
unfolding sweep_at detect_offline_sensors
sweep_at-traffic current w = refl

post-traffic {ℓ} :
    {A : Type ℓ} (packet : Bytes) (r : Result A) (w : World)
    → traffic (post packet r w) ≤ traffic w + 1
post-traffic packet (ok a) w = let more = length-append w.network (packet ∷ []) in omega arith
post-traffic packet (throw e) w = omega arith

pub beat_node-traffic :
    (k : ℕ) (failed : Bool) (w : World) → traffic (beat_node k failed w) ≤ traffic w + 1
unfolding beat_node beat_sensor
beat_node-traffic k failed w = elim (Option-cases (get_elem? w.sensors k)) [
  | inl none_there ↦ rw none_there (omega arith)
  | inr (s, here_is) ↦
      let (packet, outcome) = send_heartbeat (sender failed) w.clock s in
      subst (λ o. traffic (beat_sensor failed o w) ≤ traffic w + 1) (sym here_is)
        (post-traffic packet outcome w)
]

pub tick_node-traffic :
    (sub : ℕ → ℕ → ℕ) (k draw : ℕ) (failed : Bool) (w : World)
    → traffic (tick_node sub k draw failed w) ≤ traffic w + 1
unfolding tick_node tick_sensor
tick_node-traffic sub k draw failed w = elim (Option-cases (get_elem? w.sensors k)) [
  | inl none_there ↦ rw none_there (omega arith)
  | inr (s, here_is) ↦
      let t = tick sub (sender failed) draw w.clock s in
      subst (λ o. traffic (tick_sensor sub k draw failed o w) ≤ traffic w + 1) (sym here_is)
        (post-traffic t.packet t.outcome (record w { sensors = set w.sensors k t.sensor }))
]

-- A packet is counted once at most.
handled-counted :
    (now : ℕ) (b : Bytes) (g : Gateway) (t : MessageType)
    → Ensures (λ g'. counted g' ≤ counted g + 1) (handled now b g t)
unfolding update_sensor_info handle_heartbeat
handled-counted now b g telemetry = ground arith
handled-counted now b g heartbeat = omega arith
handled-counted now b g (other_message k) = omega arith

pub receive_next-traffic : (i : ℕ) (w : World) → IsWorld w → traffic (receive_next i w) ≤ traffic w
unfolding receive_next receive_packet
receive_next-traffic i w h = elim (Option-cases (get_elem? w.network i)) [
  | inl none_there ↦ rw none_there (omega arith)
  | inr (b, here_is) ↦
      let sent : IsSent b = get_elem?-All IsSent w.network i b h.sent here_is in
      let (g, logs, accepted, _) =
        receive_packet-Accepts w.clock b w.gateway h.time sent h.registry_ok in
      let t : MessageType = message_type (word 1 0 b) in
      let Few : Result (Gateway × Logs) → Type 0 =
        Ensures λ g'. counted g' ≤ counted w.gateway + 1 in
      let few : Few (ok (g, logs)) =
        subst Few (sym (receive_packet-handled w.clock b w.gateway sent) ∙ accepted)
          (handled-counted w.clock b w.gateway t) in
      let fewer = length-remove w.network i here_is in
      subst (λ o. traffic (receive_at i o w) ≤ traffic w) (sym here_is)
        (subst
          (λ r. traffic (keep_result r (record w { network = remove w.network i })) ≤ traffic w)
          (sym accepted) (omega arith))
]
