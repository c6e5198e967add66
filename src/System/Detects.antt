-- ===== src/System/Detects.antt =====
-- The watchdog's thread at a sensor that fell silent.
use mathlib.Core.Option
use smart_sensor_network.Prelude.{
  ℕ, ◌+◌, ◌≤◌, ◌<◌, ◌^◌, ◌≡◌, refl, sym, ap, ◌∙◌, subst, none, some, [], ◌∷◌, Bytes, arith,
  if◌then◌else◌, lt→ltb,
}
use smart_sensor_network.Protocol.{offline}
use smart_sensor_network.Registry.{find}
use smart_sensor_network.Gateway.{SensorInfo, check_sensor}
use smart_sensor_network.Gateway.Invariant.{IsTime}
use smart_sensor_network.Gateway.Watchdog.{overdue, check_sensor_lem, find-detect_offline_sensors}
use smart_sensor_network.Udp.{Receiver}
use smart_sensor_network.Tcp.Server.{Server}
use smart_sensor_network.System.World.{sweep_at, advance}
use smart_sensor_network.System.State.{
  put, testing, working, System, read_clock, sweep, pass_time, initial,
}
use smart_sensor_network.System.Script.{watchdog_thread}
use smart_sensor_network.System.Steps.{allowed, apply, Reach}
use smart_sensor_network.System.Runs.{go, go-apply, go_nil}
use smart_sensor_network.System.Times.{Reach-InTime}

module _ (sub : ℕ → ℕ → ℕ) (show : ℕ → Bytes) where
  -- The state behind a round of the watchdog.
  abbrev swept : ℕ → ℕ → System → System
  swept n k s =
      let later = advance n s.world in
      record s {
        current_time = later.clock;
        world = sweep_at later.clock (advance k later);
        phases = put watchdog_thread testing s.phases;
      }

  round-swept :
      (n k : ℕ) (s : System)
      → s.world.thrown ≡ none
      → s.phases.watchdog ≡ working 0
      → go sub show (pass_time n ∷ read_clock ∷ pass_time k ∷ sweep ∷ []) s ≡ swept n k s
  unfolding allowed apply
  round-swept n k s quiet at =
      let s₁ : System = apply sub show (pass_time n) s in
      let s₂ : System = apply sub show read_clock s₁ in
      let s₃ : System = apply sub show (pass_time k) s₂ in
      go-apply sub show (pass_time n) (read_clock ∷ pass_time k ∷ sweep ∷ []) s quiet refl
      ∙ go-apply sub show read_clock (pass_time k ∷ sweep ∷ []) s₁ quiet (rw at refl)
      ∙ go-apply sub show (pass_time k) (sweep ∷ []) s₂ quiet refl
      ∙ go-apply sub show sweep [] s₃ quiet refl
      ∙ go_nil sub show (swept n k s)

  -- In a state that the demo can come to, from a start at a time behind the epoch and within 64 bits
  -- and with differences of doubles that are patterns of 64 bits, in which no exception was thrown and
  -- the watchdog is at the reading of the clock: if `n` milliseconds pass, within 64 bits, then the
  -- clock is read, any time passes and the registry is swept, an entry of the registry that is overdue
  -- at the reading is OFFLINE and for the rest as it was, an entry that is not overdue is as it was,
  -- and the watchdog is back at the test of its flag.
  pub Reach-detects :
      (sub_lt : (a b : ℕ) → sub a b < 2 ^ 64) (receiver : Receiver) (server : Server) (clock : ℕ)
      {s : System} (n k id : ℕ) {info : SensorInfo}
      → IsTime clock
      → Reach sub show (initial receiver server clock) s
      → s.world.thrown ≡ none
      → s.phases.watchdog ≡ working 0
      → s.world.clock + n < 2 ^ 64
      → find id s.world.gateway.sensors ≡ some info
      → let v = go sub show (pass_time n ∷ read_clock ∷ pass_time k ∷ sweep ∷ []) s in
        (find id v.world.gateway.sensors
          ≡ some
              (if overdue (s.world.clock + n) info then record info { health = offline } else info))
        × (v.phases.watchdog ≡ testing)
  unfolding sweep_at
  Reach-detects sub_lt receiver server clock {s} n k id {info} time r quiet at room e =
      let c : ℕ = s.world.clock + n in
      let (within, _) = Reach-InTime sub show sub_lt receiver server clock id time r e in
      let reads : (advance n s.world).clock ≡ c = rw (lt→ltb c (2 ^ 64) room) refl in
      let older : info.last_heartbeat_received_time ≤ c = omega (arith, within.heartbeat_le) in
      let found : find id (swept n k s).world.gateway.sensors ≡ some (check_sensor c info) =
        (find-detect_offline_sensors (advance n s.world).clock id s.world.gateway).0
        ∙ ap (λ t. Option.map (check_sensor t) (find id s.world.gateway.sensors)) reads
        ∙ ap (Option.map (check_sensor c)) e in
      subst
        (λ (v : System).
          (find id v.world.gateway.sensors
            ≡ some (if overdue c info then record info { health = offline } else info))
          × (v.phases.watchdog ≡ testing))
        (sym (round-swept n k s quiet at))
        (found ∙ ap some (check_sensor_lem c info (older, room)), refl)
