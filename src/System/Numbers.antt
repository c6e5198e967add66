-- ===== src/System/Numbers.antt =====
-- The seven sensors of the demo: none is added, none goes.
use smart_sensor_network.Prelude.{
  ℕ, zero, suc, ◌<◌, ◌≡◌, refl, ap, ◌∙◌, Bool, Option, none, some, List, [], ◌∷◌, Bytes, arith,
  length, Result, ok, throw,
}
use smart_sensor_network.Sensor.{Sensor}
use smart_sensor_network.Gateway.{Gateway, Logs}
use smart_sensor_network.Udp.{Receiver}
use smart_sensor_network.Tcp.Server.{Server}
use smart_sensor_network.Node.{tick, send_heartbeat}
use smart_sensor_network.System.World.{
  World, get_elem?, set, post, sender, tick_sensor, tick_node, beat_sensor, beat_node, keep_result,
  receive_at, receive_next, sweep_at,
}
use smart_sensor_network.System.State.{initial}
use smart_sensor_network.System.Steps.{Reach}
use smart_sensor_network.System.Keeping.{IsKept, Reach-keeps}

abbrev IsWhole : World → Type 0
IsWhole w = length w.sensors ≡ 7

length-set {ℓ} : {A : Type ℓ} (xs : List A) (k : ℕ) (v : A) → length (set xs k v) ≡ length xs
length-set [] k v = refl
length-set (x ∷ xs) zero v = refl
length-set (x ∷ xs) (suc k) v = ap suc (length-set xs k v)

pub get_elem?-lt {ℓ} :
    {A : Type ℓ} (xs : List A) (k : ℕ) → k < length xs → (x : A) × (get_elem? xs k ≡ some x)
get_elem?-lt [] k h = absurd (omega arith)
get_elem?-lt (x ∷ xs) zero h = (x, refl)
get_elem?-lt (x ∷ xs) (suc k) h = get_elem?-lt xs k (omega arith)

post-IsWhole {ℓ} :
    {A : Type ℓ} (b : Bytes) (r : Result A) (w : World) → IsWhole w → IsWhole (post b r w)
post-IsWhole b (ok a) w h = h
post-IsWhole b (throw e) w h = h

keep_result-IsWhole :
    (r : Result (Gateway × Logs)) (w : World) → IsWhole w → IsWhole (keep_result r w)
keep_result-IsWhole (ok (g, more)) w h = h
keep_result-IsWhole (throw e) w h = h

receive_at-IsWhole : (i : ℕ) (o : Option Bytes) (w : World) → IsWhole w → IsWhole (receive_at i o w)
unfolding receive_at
receive_at-IsWhole i none w h = keep_result-IsWhole _ w h
receive_at-IsWhole i (some b) w h = keep_result-IsWhole _ _ h

beat_sensor-IsWhole :
    (failed : Bool) (o : Option Sensor) (w : World) → IsWhole w → IsWhole (beat_sensor failed o w)
unfolding beat_sensor
beat_sensor-IsWhole failed none w h = h
beat_sensor-IsWhole failed (some s) w h =
    let (packet, outcome) = send_heartbeat (sender failed) w.clock s in
    post-IsWhole packet outcome w h

module _ (sub : ℕ → ℕ → ℕ) where
  tick_sensor-IsWhole :
      (k draw : ℕ) (failed : Bool) (o : Option Sensor) (w : World)
      → IsWhole w
      → IsWhole (tick_sensor sub k draw failed o w)
  unfolding tick_sensor
  tick_sensor-IsWhole k draw failed none w h = h
  tick_sensor-IsWhole k draw failed (some s) w h =
      let t = tick sub (sender failed) draw w.clock s in
      post-IsWhole t.packet t.outcome (record w { sensors = set w.sensors k t.sensor })
        (length-set w.sensors k t.sensor ∙ h)

  IsWhole-IsKept : IsKept sub IsWhole
  unfolding tick_node beat_node receive_next sweep_at
  IsWhole-IsKept = record {
    logged = λ more w h. h;
    ticked =
        λ k draw failed w fits h. tick_sensor-IsWhole k draw failed (get_elem? w.sensors k) w h;
    beaten = λ k failed w h. beat_sensor-IsWhole failed (get_elem? w.sensors k) w h;
    received = λ i w h. receive_at-IsWhole i (get_elem? w.network i) w h;
    swept = λ current w h. h;
    lost = λ i w h. h;
    advanced = λ n w h. h;
  }

  pub Reach-sensors :
      (show : ℕ → Bytes) (receiver : Receiver) (server : Server) (clock : ℕ) {s : _}
      → Reach sub show (initial receiver server clock) s
      → length s.world.sensors ≡ 7
  Reach-sensors show receiver server clock r = Reach-keeps sub show IsWhole IsWhole-IsKept refl r
