-- ===== src/System/Reachable.antt =====
-- The shared state along every schedule.
use smart_sensor_network.Prelude.{ℕ, ◌<◌, ◌^◌, ◌≡◌, true, Bytes}
use smart_sensor_network.Gateway.Invariant.{IsTime}
use smart_sensor_network.Tcp.Server.{Server}
use smart_sensor_network.Udp.{Receiver}
use smart_sensor_network.Gateway.{Logs}
use smart_sensor_network.System.World.{World}
use smart_sensor_network.Prelude.{◌++◌}
use smart_sensor_network.System.State.{System, Action, initial}
use smart_sensor_network.System.Steps.{allowed, apply, Reach}
use smart_sensor_network.System.Invariant.{
  IsWorld, new_world-IsWorld, tick_node-IsWorld, beat_node-IsWorld, receive_next-IsWorld,
  sweep_at-IsWorld, lose-IsWorld, advance-IsWorld,
}
use smart_sensor_network.System.Keeping.{IsKept, Reach-keeps, apply-keeps}

logged-IsWorld :
    (more : Logs) (w : World) → IsWorld w → IsWorld (record w { logs = w.logs ++ more })
logged-IsWorld more w h = record {
  time = h.time;
  fleet_ok = h.fleet_ok;
  sent = h.sent;
  registry_ok = h.registry_ok;
  thrown_ok = h.thrown_ok;
}

module _ (sub : ℕ → ℕ → ℕ) (show : ℕ → Bytes) (sub_lt : (a b : ℕ) → sub a b < 2 ^ 64) where
  pub IsWorld-IsKept : IsKept sub IsWorld
  IsWorld-IsKept = record {
    logged = logged-IsWorld;
    ticked = tick_node-IsWorld sub sub_lt;
    beaten = beat_node-IsWorld;
    received = receive_next-IsWorld;
    swept = sweep_at-IsWorld;
    lost = lose-IsWorld;
    advanced = advance-IsWorld;
  }

  pub apply-IsWorld :
      (a : Action) (s : System)
      → allowed sub show a s ≡ true
      → IsWorld s.world
      → IsWorld (apply sub show a s).world
  apply-IsWorld = apply-keeps sub show IsWorld IsWorld-IsKept

  -- In every state that the demo can come to, from a start at a time behind the epoch and within 64
  -- bits and with differences of doubles that are patterns of 64 bits, the datagrams under way are
  -- whole packets of the seven sensors, every entry of the registry is of one of them and its
  -- telemetry, once received, of its class, the gateway keeps its invariant, and no exception was
  -- thrown but by a failed send: no datagram of the demo ends the receiver.
  pub Reach-IsWorld :
      (receiver : Receiver) (server : Server) (clock : ℕ) {s : System}
      → IsTime clock
      → Reach sub show (initial receiver server clock) s
      → IsWorld s.world
  Reach-IsWorld receiver server clock time r =
      Reach-keeps sub show IsWorld IsWorld-IsKept (new_world-IsWorld clock time) r
