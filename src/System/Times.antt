-- ===== src/System/Times.antt =====
-- The times of the registry along every schedule.
use smart_sensor_network.Prelude.{ℕ, ◌<◌, ◌^◌, ◌-◌, ◌≡◌, some, Bytes}
use smart_sensor_network.Registry.{find, find-AllEntries}
use smart_sensor_network.Gateway.{SensorInfo, sub64}
use smart_sensor_network.Gateway.Invariant.{IsTime}
use smart_sensor_network.Gateway.Watchdog.{sub64-eq}
use smart_sensor_network.Udp.{Receiver}
use smart_sensor_network.Tcp.Server.{Server}
use smart_sensor_network.System.World.{World}
use smart_sensor_network.System.State.{System, initial}
use smart_sensor_network.System.Steps.{Reach}
use smart_sensor_network.System.Keeping.{IsKept, Reach-keeps}
use smart_sensor_network.System.Invariant.{IsWorld, new_world-IsWorld}
use smart_sensor_network.System.Reachable.{IsWorld-IsKept}
use smart_sensor_network.System.Timely.{
  InTime, IsTimely, tick_node-IsTimely, beat_node-IsTimely, receive_next-IsTimely,
  sweep_at-IsTimely, lose-IsTimely, advance-IsTimely,
}

abbrev IsOnTime : World → Type 0
IsOnTime w = IsWorld w × IsTimely w

module _ (sub : ℕ → ℕ → ℕ) (show : ℕ → Bytes) (sub_lt : (a b : ℕ) → sub a b < 2 ^ 64) where
  IsOnTime-IsKept : IsKept sub IsOnTime
  IsOnTime-IsKept =
      let kept : IsKept sub IsWorld = IsWorld-IsKept sub show sub_lt in
      record {
        logged = λ more w h.
            (kept.logged more w h.0, record { fresh = h.1.fresh; in_time = h.1.in_time });
        ticked = λ k draw failed w fits h. (
          kept.ticked k draw failed w fits h.0,
          tick_node-IsTimely sub sub_lt k draw failed w fits h.0 h.1,
        );
        beaten =
            λ k failed w h. (kept.beaten k failed w h.0, beat_node-IsTimely k failed w h.0 h.1);
        received = λ i w h. (kept.received i w h.0, receive_next-IsTimely i w h.0 h.1);
        swept = λ current w h. (kept.swept current w h.0, sweep_at-IsTimely current w h.1);
        lost = λ i w h. (kept.lost i w h.0, lose-IsTimely i w h.1);
        advanced = λ n w h. (kept.advanced n w h.0, advance-IsTimely n w h.1);
      }

  -- In every state that the demo can come to, from a start at a time behind the epoch and within 64
  -- bits and with differences of doubles that are patterns of 64 bits, the telemetry of every entry of
  -- the registry was made no later than it came, and what came, came no later than the clock's present
  -- time: measured now, the age of a heartbeat is a plain difference, which does not wrap round.
  pub Reach-InTime :
      (receiver : Receiver) (server : Server) (clock : ℕ) {s : System} (id : ℕ) {info : SensorInfo}
      → IsTime clock
      → Reach sub show (initial receiver server clock) s
      → find id s.world.gateway.sensors ≡ some info
      → InTime s.world.clock info
        × (sub64 s.world.clock info.last_heartbeat_received_time
            ≡ s.world.clock - info.last_heartbeat_received_time)
  Reach-InTime receiver server clock {s} id {info} time r e =
      let (valid, timely) =
        Reach-keeps sub show IsOnTime IsOnTime-IsKept
          (new_world-IsWorld clock time, record { fresh = tt; in_time = tt }) r in
      let within : InTime s.world.clock info =
        find-AllEntries (λ i. InTime s.world.clock) id s.world.gateway.sensors timely.in_time e in
      (
        within,
        sub64-eq s.world.clock info.last_heartbeat_received_time within.heartbeat_le valid.time.1,
      )
