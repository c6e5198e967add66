-- ===== src/System/Heard.antt =====
-- What the demo's sensor 3 can still be heard by: the heartbeats under way, and what the registry has.
use smart_sensor_network.Prelude.{
  ℕ, zero, suc, ◌+◌, ◌≤◌, ◌≡◌, inl, inr, refl, sym, ◌∙◌, subst, Bool, true, false, ◌&&◌, not,
  Option, none, some, List, [], ◌∷◌, ◌++◌, Bytes, arith, ◌==◌, Result, ok, throw, Option-cases,
}
use smart_sensor_network.Protocol.{MessageType, telemetry, heartbeat, other_message, message_type}
use smart_sensor_network.Registry.{find}
use smart_sensor_network.Serializer.Decode.{word, decoded_header}
use smart_sensor_network.Gateway.{
  Gateway, Logs, SensorInfo, is_unknown, is_offline, check_sensor, times_out,
}
use smart_sensor_network.Gateway.Single.{receive as receive_one, handled-receive}
use smart_sensor_network.Gateway.History.{Ensures}
use smart_sensor_network.Gateway.Watchdog.{find-detect_offline_sensors}
use smart_sensor_network.System.World.{
  World, get_elem?, remove, post, keep_result, receive_at, receive_next, lose, sweep_at,
}
use smart_sensor_network.Udp.{receive_packet}
use smart_sensor_network.System.Packets.{IsSent}
use smart_sensor_network.System.Deliveries.{receive_packet-handled, receive_packet-Accepts}
use mathlib.Core.Option
use smart_sensor_network.System.Invariant.{IsWorld, get_elem?-All}

abbrev pub is_heartbeat : MessageType → Bool
is_heartbeat heartbeat = true
is_heartbeat _ = false

-- A heartbeat of sensor 3.
unfoldable pub is_beat : Bytes → Bool
is_beat b = is_heartbeat (message_type (word 1 0 b)) && (decoded_header b).sensor_id == 3

abbrev pub one_if : Bool → ℕ
one_if true = 1
one_if false = 0

unfoldable pub beats : List Bytes → ℕ
beats [] = 0
beats (b ∷ bs) = one_if (is_beat b) + beats bs

-- Whether a heartbeat has been handled.
abbrev pub heard : Option SensorInfo → ℕ
heard none = 0
heard (some info) = one_if (not (is_unknown info.health))

abbrev pub is_down : Option SensorInfo → Bool
is_down none = false
is_down (some info) = is_offline info.health

abbrev pub entry : World → Option SensorInfo
entry w = find 3 w.gateway.sensors

abbrev pub load : World → ℕ
load w = beats w.network + heard (entry w)

-- From `w` to `v`, at most `n` heartbeats of sensor 3 are sent, and a sensor 3 that is down stays so if no
-- heartbeat of it is under way.
pub record Calm (n : ℕ) (w v : World) : Type 0 where
  pub load_le : load v ≤ load w + n
  pub stays : is_down (entry w) ≡ true → load w ≤ 1 → is_down (entry v) ≡ true

down_heard : (o : Option SensorInfo) → is_down o ≡ true → heard o ≡ 1
down_heard none e = cc
down_heard (some info) e = ground arith

beats-append : (xs ys : List Bytes) → beats (xs ++ ys) ≡ beats xs + beats ys
unfolding beats
beats-append [] ys = omega arith
beats-append (x ∷ xs) ys = let rest = beats-append xs ys in omega arith

beats-remove :
    (xs : List Bytes) (i : ℕ) {b : Bytes}
    → get_elem? xs i ≡ some b
    → one_if (is_beat b) + beats (remove xs i) ≡ beats xs
unfolding beats
beats-remove [] i e = cc
beats-remove (x ∷ xs) zero {b} e = let same : x ≡ b = cc in rw same refl
beats-remove (x ∷ xs) (suc i) e = let rest = beats-remove xs i e in omega arith

beats-remove_le : (xs : List Bytes) (i : ℕ) → beats (remove xs i) ≤ beats xs
unfolding beats
beats-remove_le [] i = omega arith
beats-remove_le (x ∷ xs) zero = omega arith
beats-remove_le (x ∷ xs) (suc i) = let rest = beats-remove_le xs i in omega arith

-- A change of what is not counted.
pub same-Calm : (w v : World) → w.network ≡ v.network → w.gateway ≡ v.gateway → Calm 0 w v
same-Calm w v sent kept = record {
  load_le = rw (sent, kept) (omega arith);
  stays = λ e h. rw (sym kept) e;
}

pub lose-Calm : (i : ℕ) (w : World) → Calm 0 w (lose i w)
lose-Calm i w = record {
  load_le = let fewer = beats-remove_le w.network i in omega arith;
  stays = λ e h. e;
}

check_sensor_heard :
    (current : ℕ) (o : Option SensorInfo)
    → (heard (Option.map (check_sensor current) o) ≤ heard o)
      × (is_down o ≡ true → is_down (Option.map (check_sensor current) o) ≡ true)
unfolding check_sensor times_out
check_sensor_heard current none = (omega arith, λ e. e)
check_sensor_heard current (some info) = (ground arith, ground arith)

pub sweep_at-Calm : (current : ℕ) (w : World) → Calm 0 w (sweep_at current w)
unfolding sweep_at
sweep_at-Calm current w =
    let (found, _, _) = find-detect_offline_sensors current 3 w.gateway in
    let (fewer, kept) = check_sensor_heard current (entry w) in
    record { load_le = rw found (omega arith); stays = λ e h. rw found (kept e) }

post-network {ℓ} :
    {A : Type ℓ} (packet : Bytes) (r : Result A) (w : World)
    → (beats (post packet r w).network ≤ beats w.network + one_if (is_beat packet))
      × ((post packet r w).gateway ≡ w.gateway)
unfolding beats
post-network packet (ok a) w =
    let more = beats-append w.network (packet ∷ []) in (omega arith, refl)
post-network packet (throw e) w = (omega arith, refl)

pub post-Calm {ℓ} :
    {A : Type ℓ} (packet : Bytes) (r : Result A) (w : World)
    → Calm (one_if (is_beat packet)) w (post packet r w)
post-Calm packet r w =
    let (more, kept) = post-network packet r w in
    record { load_le = rw kept (omega arith); stays = λ e h. rw kept e }

-- The entry behind a packet: heard only by a heartbeat of sensor 3.
receive_heard :
    (now : ℕ) (b : Bytes) (t : MessageType) (o : Option SensorInfo)
    → let n : ℕ = one_if (is_heartbeat t && (decoded_header b).sensor_id == 3) in
      (heard (receive_one 3 now b t o) ≤ heard o + n)
      × (is_down o ≡ true → n ≡ 0 → is_down (receive_one 3 now b t o) ≡ true)
receive_heard now b telemetry none = (ground arith, ground arith)
receive_heard now b telemetry (some info) = (ground arith, ground arith)
receive_heard now b heartbeat none = (ground arith, ground arith)
receive_heard now b heartbeat (some info) = (ground arith, ground arith)
receive_heard now b (other_message k) o = (omega arith, λ e f. e)

delivered-Calm :
    (b : Bytes) (i : ℕ) (g : Gateway) (logs : Logs) (w : World)
    → get_elem? w.network i ≡ some b
    → find 3 g.sensors ≡ receive_one 3 w.clock b (message_type (word 1 0 b)) (entry w)
    → Calm 0 w (keep_result (ok (g, logs)) (record w { network = remove w.network i }))
unfolding is_beat
delivered-Calm b i g logs w here_is found =
    let t : MessageType = message_type (word 1 0 b) in
    let (more, kept) = receive_heard w.clock b t (entry w) in
    let fewer = beats-remove w.network i here_is in
    record {
      load_le = rw found (omega arith);
      stays = λ e h. let one = down_heard (entry w) e in rw found (kept e (omega arith));
    }

-- A whole packet of the demo is taken off the network, and only the heartbeat of sensor 3 is counted by
-- the gateway for it.
pub receive_next-Calm : (i : ℕ) (w : World) → IsWorld w → Calm 0 w (receive_next i w)
unfolding receive_next receive_packet
receive_next-Calm i w h = elim (Option-cases (get_elem? w.network i)) [
  | inl none_there ↦ rw none_there (same-Calm w _ refl refl)
  | inr (b, here_is) ↦
      let sent : IsSent b = get_elem?-All IsSent w.network i b h.sent here_is in
      let (g, logs, accepted, _) =
        receive_packet-Accepts w.clock b w.gateway h.time sent h.registry_ok in
      let t : MessageType = message_type (word 1 0 b) in
      let Found : Result (Gateway × Logs) → Type 0 =
        Ensures λ g'. find 3 g'.sensors ≡ receive_one 3 w.clock b t (entry w) in
      let found : Found (ok (g, logs)) =
        subst Found (sym (receive_packet-handled w.clock b w.gateway sent) ∙ accepted)
          (handled-receive 3 w.clock b w.gateway t) in
      subst (λ o. Calm 0 w (receive_at i o w)) (sym here_is)
        (subst (λ r. Calm 0 w (keep_result r (record w { network = remove w.network i })))
          (sym accepted) (delivered-Calm b i g logs w here_is found))
]
