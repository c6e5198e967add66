-- ===== src/System/World.antt =====
-- What the threads of main.cpp share, and the operations on it: the sensors, the datagrams under way, the
-- gateway, the clock and the logs. An exception that no thread catches ends the process.
use smart_sensor_network.Prelude.{
  ℕ, zero, suc, ◌+◌, ◌^◌, Bool, true, Option, none, some, List, [], ◌∷◌, ◌++◌, Bytes, ltb,
  if◌then◌else◌, Result, ok, throw, Exception,
}
use smart_sensor_network.Sensor.{
  Sensor, new_motion_sensor, new_temperature_sensor, new_battery_sensor, new_pressure_sensor,
}
use smart_sensor_network.Gateway.{Gateway, Logs, empty_gateway, detect_offline_sensors}
use smart_sensor_network.Udp.{datagram, would_block, receive_packet}
use smart_sensor_network.Node.{tick, udp_send, send_heartbeat}

pub record World : Type 0 where
  pub clock : ℕ
  pub sensors : List Sensor
  pub network : List Bytes
  pub gateway : Gateway
  pub logs : Logs
  pub thrown : Option Exception

-- `sensor1` to `sensor7`, in their order.
abbrev pub fleet : List Sensor
fleet =
    new_motion_sensor 1
    ∷ new_motion_sensor 2
    ∷ new_temperature_sensor 3
    ∷ new_temperature_sensor 4
    ∷ new_battery_sensor 5
    ∷ new_pressure_sensor 6
    ∷ new_pressure_sensor 7
    ∷ []

abbrev pub new_world : ℕ → World
new_world clock = record {
  clock = clock;
  sensors = fleet;
  network = [];
  gateway = empty_gateway;
  logs = [];
  thrown = none;
}

module _ {ℓ} {A : Type ℓ} where
  abbrev pub get_elem? : List A → ℕ → Option A
  get_elem? [] i = none
  get_elem? (x ∷ xs) zero = some x
  get_elem? (x ∷ xs) (suc i) = get_elem? xs i

  abbrev pub set : List A → ℕ → A → List A
  set [] i v = []
  set (x ∷ xs) zero v = v ∷ xs
  set (x ∷ xs) (suc i) v = x ∷ set xs i v

  abbrev pub remove : List A → ℕ → List A
  remove [] i = []
  remove (x ∷ xs) zero = xs
  remove (x ∷ xs) (suc i) = x ∷ remove xs i

abbrev pub note : Bytes → World → World
note msg w = record w { logs = w.logs ++ (msg ∷ []) }

-- The packet is under way, or the sender has thrown.
abbrev pub post {ℓ} : {A : Type ℓ} → Bytes → Result A → World → World
post packet (ok a) w = record w { network = w.network ++ (packet ∷ []) }
post packet (throw e) w = record w { thrown = some e }

-- The address of every sender is valid; `sendto` may fail.
abbrev pub sender : Bool → Bytes → Result (Unit {0})
sender failed packet = udp_send true failed packet

module _ (sub : ℕ → ℕ → ℕ) where
  unfoldable pub tick_sensor : ℕ → ℕ → Bool → Option Sensor → World → World
  tick_sensor k draw failed none w = w
  tick_sensor k draw failed (some s) w =
      let t = tick sub (sender failed) draw w.clock s in
      post t.packet t.outcome (record w { sensors = set w.sensors k t.sensor })

  -- `tick` of the node with the sensor at index `k`.
  unfoldable pub tick_node : ℕ → ℕ → Bool → World → World
  unfolding tick_sensor
  tick_node k draw failed w = tick_sensor k draw failed (get_elem? w.sensors k) w

unfoldable pub beat_sensor : Bool → Option Sensor → World → World
beat_sensor failed none w = w
beat_sensor failed (some s) w =
    let (packet, outcome) = send_heartbeat (sender failed) w.clock s in post packet outcome w

-- `sendHeartbeat` of the node with the sensor at index `k`.
unfoldable pub beat_node : ℕ → Bool → World → World
unfolding beat_sensor
beat_node k failed w = beat_sensor failed (get_elem? w.sensors k) w

abbrev pub keep_result : Result (Gateway × Logs) → World → World
keep_result (ok (g, more)) w = record w { gateway = g; logs = w.logs ++ more }
keep_result (throw e) w = record w { thrown = some e }

-- `recvfrom` finds a datagram of those under way, at any place among them, or none.
unfoldable pub receive_at : ℕ → Option Bytes → World → World
receive_at i none w = keep_result (receive_packet would_block w.gateway) w
receive_at i (some packet) w =
    keep_result (receive_packet (datagram w.clock packet) w.gateway)
      (record w { network = remove w.network i })

unfoldable pub receive_next : ℕ → World → World
unfolding receive_at
receive_next i w = receive_at i (get_elem? w.network i) w

-- A datagram is lost.
abbrev pub lose : ℕ → World → World
lose i w = record w { network = remove w.network i }

unfoldable pub sweep_at : ℕ → World → World
sweep_at current w =
    let (g, more) = detect_offline_sensors current w.gateway in
    record w { gateway = g; logs = w.logs ++ more }

-- The clock goes on, within 64 bits.
abbrev pub advance : ℕ → World → World
advance n w = record w { clock = if ltb (w.clock + n) (2 ^ 64) then w.clock + n else w.clock }
