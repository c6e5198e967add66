-- ===== src/System/Invariant.antt =====
-- What the threads share in every state that the demo can come to.
use smart_sensor_network.Prelude.{
  ℕ, zero, suc, ◌+◌, ◌<◌, ◌^◌, ◌≡◌, ◌⊎◌, inl, inr, refl, sym, ap, subst, Bool, true, false, none,
  some, List, [], ◌∷◌, Bytes, codes, All, All-append, arith, Result, ok, throw, Exception,
  runtime_error, Option-cases,
}
use smart_sensor_network.Sensor.{Sensor}
use smart_sensor_network.Gateway.Invariant.{IsTime, empty_gateway-IsGateway}
use smart_sensor_network.Udp.{receive_packet}
use smart_sensor_network.Node.{Tick, tick, udp_send, send_heartbeat}
use smart_sensor_network.System.World.{
  World, new_world, get_elem?, set, remove, post, sender, tick_sensor, tick_node, beat_sensor,
  beat_node, keep_result, receive_at, receive_next, lose, sweep_at, advance,
}
use smart_sensor_network.System.Packets.{IsSent}
use smart_sensor_network.System.Fleet.{
  IsFleet, fleet-IsFleet, get_elem?-IsNode, set-IsFleet, tick-IsNode, tick-IsSent,
  send_heartbeat-IsSent,
}
use smart_sensor_network.System.Deliveries.{
  IsRegistry, receive_packet-Accepts, detect_offline_sensors-IsRegistry,
}

abbrev send_failed : Exception
send_failed = runtime_error (codes "UDP send failed")

pub record IsWorld (w : World) : Type 0 where
  pub time : IsTime w.clock
  pub fleet_ok : IsFleet 1 w.sensors
  pub sent : All IsSent w.network
  pub registry_ok : IsRegistry w.gateway
  pub thrown_ok : (w.thrown ≡ none) ⊎ (w.thrown ≡ some send_failed)

pub get_elem?-All {ℓ κ} :
    {A : Type ℓ} (P : A → Type κ) (xs : List A) (i : ℕ) (x : A)
    → All P xs
    → get_elem? xs i ≡ some x
    → P x
get_elem?-All P [] i x h e = cc
get_elem?-All P (y ∷ xs) zero x h e = let same : y ≡ x = cc in subst P same h.0
get_elem?-All P (y ∷ xs) (suc i) x h e = get_elem?-All P xs i x h.1 e

pub remove-All {ℓ κ} :
    {A : Type ℓ} (P : A → Type κ) (xs : List A) (i : ℕ) → All P xs → All P (remove xs i)
remove-All P [] i h = tt
remove-All P (y ∷ xs) zero h = h.1
remove-All P (y ∷ xs) (suc i) h = (h.0, remove-All P xs i h.1)

pub new_world-IsWorld : (clock : ℕ) → IsTime clock → IsWorld (new_world clock)
new_world-IsWorld clock h = record {
  time = h;
  fleet_ok = fleet-IsFleet;
  sent = tt;
  registry_ok = record { gateway_ok = empty_gateway-IsGateway; owned = tt };
  thrown_ok = inl refl;
}

-- A result that is one, or the failure of a send.
abbrev Sends {ℓ} : {A : Type ℓ} → Result A → Type 0
Sends (ok a) = Unit
Sends (throw e) = e ≡ send_failed

post-IsWorld {ℓ} :
    {A : Type ℓ} (packet : Bytes) (r : Result A) (w : World)
    → Sends r
    → IsSent packet
    → IsWorld w
    → IsWorld (post packet r w)
post-IsWorld packet (ok a) w sends sent h = record {
  time = h.time;
  fleet_ok = h.fleet_ok;
  sent = All-append IsSent w.network (packet ∷ []) h.sent (sent, tt);
  registry_ok = h.registry_ok;
  thrown_ok = h.thrown_ok;
}
post-IsWorld packet (throw e) w sends sent h = record {
  time = h.time;
  fleet_ok = h.fleet_ok;
  sent = h.sent;
  registry_ok = h.registry_ok;
  thrown_ok = inr (ap some sends);
}

sender-Sends : (failed : Bool) (packet : Bytes) → Sends (sender failed packet)
unfolding udp_send
sender-Sends true packet = refl
sender-Sends false packet = tt

module _ (sub : ℕ → ℕ → ℕ) (sub_lt : (a b : ℕ) → sub a b < 2 ^ 64) where
  tick-Sends :
      (failed : Bool) (draw now : ℕ) (s : Sensor)
      → Sends (tick sub (sender failed) draw now s).outcome
  unfolding tick udp_send
  tick-Sends true draw now s = refl
  tick-Sends false draw now s = tt

  pub tick_node-IsWorld :
      (k draw : ℕ) (failed : Bool) (w : World)
      → draw < 2 ^ 64
      → IsWorld w
      → IsWorld (tick_node sub k draw failed w)
  unfolding tick_node tick_sensor
  tick_node-IsWorld k draw failed w fits h = elim (Option-cases (get_elem? w.sensors k)) [
    | inl none_there ↦ rw none_there h
    | inr (s, here_is) ↦
        let t : Tick = tick sub (sender failed) draw w.clock s in
        let node = get_elem?-IsNode 1 w.sensors k s h.fleet_ok here_is in
        subst (λ o. IsWorld (tick_sensor sub k draw failed o w)) (sym here_is)
          (post-IsWorld t.packet t.outcome (record w { sensors = set w.sensors k t.sensor })
            (tick-Sends failed draw w.clock s)
            (tick-IsSent sub sub_lt (sender failed) draw w.clock (1 + k) s fits h.time.1 node)
            (record {
              time = h.time;
              fleet_ok =
                  set-IsFleet 1 w.sensors k s t.sensor
                    (λ i. tick-IsNode sub sub_lt (sender failed) draw w.clock i s fits) here_is
                    h.fleet_ok;
              sent = h.sent;
              registry_ok = h.registry_ok;
              thrown_ok = h.thrown_ok;
            }))
  ]

pub beat_node-IsWorld :
    (k : ℕ) (failed : Bool) (w : World) → IsWorld w → IsWorld (beat_node k failed w)
unfolding beat_node send_heartbeat
beat_node-IsWorld k failed w h = elim (Option-cases (get_elem? w.sensors k)) [
  | inl none_there ↦ rw none_there h
  | inr (s, here_is) ↦
      let node = get_elem?-IsNode 1 w.sensors k s h.fleet_ok here_is in
      let (packet, outcome) = send_heartbeat (sender failed) w.clock s in
      subst (λ o. IsWorld (beat_sensor failed o w)) (sym here_is)
        (post-IsWorld packet outcome w (sender-Sends failed packet)
          (send_heartbeat-IsSent (sender failed) w.clock (1 + k) s h.time.1 node) h)
]

pub receive_next-IsWorld : (i : ℕ) (w : World) → IsWorld w → IsWorld (receive_next i w)
unfolding receive_next receive_packet
receive_next-IsWorld i w h = elim (Option-cases (get_elem? w.network i)) [
  | inl none_there ↦ rw none_there (record {
    time = h.time;
    fleet_ok = h.fleet_ok;
    sent = h.sent;
    registry_ok = h.registry_ok;
    thrown_ok = h.thrown_ok;
  })
  | inr (b, here_is) ↦
      let (g, logs, accepted, kept) =
        receive_packet-Accepts w.clock b w.gateway h.time
          (get_elem?-All IsSent w.network i b h.sent here_is) h.registry_ok in
      subst (λ o. IsWorld (receive_at i o w)) (sym here_is)
        (subst (λ r. IsWorld (keep_result r (record w { network = remove w.network i })))
          (sym accepted)
          (record {
            time = h.time;
            fleet_ok = h.fleet_ok;
            sent = remove-All IsSent w.network i h.sent;
            registry_ok = kept;
            thrown_ok = h.thrown_ok;
          }))
]

pub sweep_at-IsWorld : (current : ℕ) (w : World) → IsWorld w → IsWorld (sweep_at current w)
unfolding sweep_at
sweep_at-IsWorld current w h = record {
  time = h.time;
  fleet_ok = h.fleet_ok;
  sent = h.sent;
  registry_ok = detect_offline_sensors-IsRegistry current w.gateway h.registry_ok;
  thrown_ok = h.thrown_ok;
}

pub lose-IsWorld : (i : ℕ) (w : World) → IsWorld w → IsWorld (lose i w)
lose-IsWorld i w h = record {
  time = h.time;
  fleet_ok = h.fleet_ok;
  sent = remove-All IsSent w.network i h.sent;
  registry_ok = h.registry_ok;
  thrown_ok = h.thrown_ok;
}

pub advance-IsWorld : (n : ℕ) (w : World) → IsWorld w → IsWorld (advance n w)
advance-IsWorld n w h = record {
  time = ground (arith, h.time);
  fleet_ok = h.fleet_ok;
  sent = h.sent;
  registry_ok = h.registry_ok;
  thrown_ok = h.thrown_ok;
}
