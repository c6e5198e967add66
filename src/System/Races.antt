-- ===== src/System/Races.antt =====
-- The watchdog's thread between the reading of the clock and the sweep.
use mathlib.Core.Option
use smart_sensor_network.Prelude.{
  ℕ, suc, ◌+◌, ◌<◌, ◌^◌, ◌≡◌, ap, ◌∙◌, true, false, none, some, List, [], ◌∷◌, ◌++◌, Bytes, length,
  arith,
}
use smart_sensor_network.Protocol.{offline, sensor_heartbeat_timeout_ms}
use smart_sensor_network.Registry.{find, or_initial}
use smart_sensor_network.Gateway.{SensorInfo, initial_info, check_sensor}
use smart_sensor_network.Gateway.Invariant.{IsTime}
use smart_sensor_network.Gateway.Watchdog.{find-detect_offline_sensors, check_sensor-early}
use smart_sensor_network.Udp.{Receiver}
use smart_sensor_network.Tcp.Server.{Server}
use smart_sensor_network.System.World.{sweep_at}
use smart_sensor_network.System.Reachable.{Reach-IsWorld}
use smart_sensor_network.System.State.{
  System, Action, beat_next, pass_time, receive, read_clock, sweep, working, is_working, works_at,
  initial,
}
use smart_sensor_network.System.Steps.{is_skipped, allowed, apply, Reach}
use smart_sensor_network.System.Runs.{go, go-apply, go-append, go_nil}
use smart_sensor_network.System.Numbers.{Reach-sensors}
use smart_sensor_network.System.Recovers.{recovered, recovers}

module _ (sub : ℕ → ℕ → ℕ) (show : ℕ → Bytes) where
  -- A sweep, with a reading of the clock from before the heartbeat.
  sweeps_late :
      (u : System) (id t d : ℕ) (old : SensorInfo)
      → u.world.thrown ≡ none
      → u.phases.watchdog ≡ working 1
      → u.current_time ≡ t
      → find id u.world.gateway.sensors ≡ some (recovered (t + d) old)
      → 0 < d
      → d + sensor_heartbeat_timeout_ms < 2 ^ 64
      → find id (go sub show (sweep ∷ []) u).world.gateway.sensors
        ≡ some (record old { last_heartbeat_received_time = t + d; health = offline })
  unfolding allowed apply sweep_at
  sweeps_late u id t d old quiet at read entry later room =
      let info : SensorInfo = recovered (t + d) old in
      ap (λ v. find id v.world.gateway.sensors)
        (go-apply sub show sweep [] u quiet (ap (works_at 1) at)
          ∙ go_nil sub show (apply sub show sweep u))
      ∙ (find-detect_offline_sensors u.current_time id u.world.gateway).0
      ∙ ap (λ c. Option.map (check_sensor c) (find id u.world.gateway.sensors)) read
      ∙ ap (Option.map (check_sensor t)) entry
      ∙ ap some (check_sensor-early t info (λ e. cc) (omega arith) (omega arith))

  -- In a state that the demo can come to, from a start at a time behind the epoch and within 64 bits
  -- and with differences of doubles that are patterns of 64 bits, in which no exception was thrown,
  -- the watchdog is at the reading of the clock, the heartbeat thread stands at one of the seven
  -- nodes, which is not disabled, and the receiver is in a round: if the clock is read, the node's
  -- heartbeat is sent without a failure and received a positive number of milliseconds later, which
  -- with the timeout fits 64 bits as the clock does, and only then the registry is swept, then the
  -- sensor that was heard just now is OFFLINE, with the time of this heartbeat.
  pub Reach-detects_early :
      (sub_lt : (a b : ℕ) → sub a b < 2 ^ 64) (receiver : Receiver) (server : Server) (clock : ℕ)
      {s : System} (k d : ℕ)
      → IsTime clock
      → Reach sub show (initial receiver server clock) s
      → s.world.thrown ≡ none
      → s.phases.watchdog ≡ working 0
      → s.phases.heartbeat ≡ working k
      → k < 7
      → is_skipped k s ≡ false
      → is_working s.phases.udp ≡ true
      → 0 < d
      → s.world.clock + d < 2 ^ 64
      → d + sensor_heartbeat_timeout_ms < 2 ^ 64
      → let v =
          go sub show
            (read_clock
              ∷ beat_next false
              ∷ pass_time d
              ∷ receive (length s.world.network)
              ∷ sweep
              ∷ [])
            s in
        let old = or_initial initial_info (find (suc k) s.world.gateway.sensors) in
        find (suc k) v.world.gateway.sensors
        ≡ some (record old { last_heartbeat_received_time = s.world.clock + d; health = offline })
  unfolding allowed apply
  Reach-detects_early sub_lt receiver server clock {s} k d time r quiet watches at few goes works
        later room fits =
      let old : SensorInfo = or_initial initial_info (find (suc k) s.world.gateway.sensors) in
      let way : List Action =
        beat_next false ∷ pass_time d ∷ receive (length s.world.network) ∷ [] in
      let s₁ : System = apply sub show read_clock s in
      let u : System = go sub show way s₁ in
      let (entry, _, _, _, calm, stays, read) =
        recovers sub show s₁ k d (Reach-IsWorld sub show sub_lt receiver server clock time r)
          (Reach-sensors sub show receiver server clock r) quiet at few goes works room in
      ap (λ v. find (suc k) v.world.gateway.sensors)
        (go-apply sub show read_clock (way ++ (sweep ∷ [])) s quiet (ap (works_at 0) watches)
          ∙ go-append sub show way (sweep ∷ []) s₁)
      ∙ sweeps_late u (suc k) s.world.clock d old calm stays read entry later fits
