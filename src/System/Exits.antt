-- ===== src/System/Exits.antt =====
-- A thread whose flag is cleared, led to its end.
use smart_sensor_network.Prelude.{
  ℕ, zero, suc, ◌-◌, ◌<◌, ◌≡◌, refl, sym, ap, ◌∙◌, true, false, none, inl, inr, Bytes, arith,
  Bool-cases, ltb, ltb→lt,
}
use smart_sensor_network.System.World.{sweep_at}
use smart_sensor_network.System.Serving.{converse_once}
use smart_sensor_network.System.Threads.{same_thread, put-other, of-put-same}
use smart_sensor_network.System.Script.{
  Thread, udp_thread, tcp_thread, dashboard_thread, watchdog_thread, telemetry_thread,
  heartbeat_thread,
}
use smart_sensor_network.System.State.{
  Phase, opening, entering, testing, working, exited, of, is_unborn, System, open_thread, enter,
  test, receive, accept_next, converse, draw_dashboard, read_clock, sweep, is_working,
}
use smart_sensor_network.System.Steps.{run_opening, run_entering, allowed, apply}
use smart_sensor_network.System.Invariant.{IsWorld}
use smart_sensor_network.System.Drives.{receive_next-thrown}
use smart_sensor_network.System.Stopping.{is_inside, Stopping}
use smart_sensor_network.System.Stops.{Reach-Stopping}
use smart_sensor_network.System.Ordered.{places, is_placed}
use smart_sensor_network.System.Drives.{
  hang_up, Leads, Gone-trans, Gone-here, acts, ticks, beats, seven,
}

module _ (sub : ℕ → ℕ → ℕ) (show : ℕ → Bytes) where
  serves :
      (k : ℕ) (s : System)
      → k < 2
      → s.world.thrown ≡ none
      → s.phases.tcp ≡ working k
      → Leads sub show s (λ v. v.phases.tcp ≡ testing)
  unfolding apply allowed converse_once
  serves zero s few quiet at = (
    apply sub show (accept_next false) s,
    acts sub show (accept_next false) s quiet (rw at refl) quiet refl,
    refl,
  )
  serves (suc zero) s few quiet at = (
    apply sub show (converse hang_up) s,
    acts sub show (converse hang_up) s quiet (rw at refl) quiet refl,
    refl,
  )
  serves (suc (suc k)) s few quiet at = absurd (omega arith)

  watches :
      (k : ℕ) (s : System)
      → k < 2
      → s.world.thrown ≡ none
      → s.phases.watchdog ≡ working k
      → Leads sub show s (λ v. v.phases.watchdog ≡ testing)
  unfolding apply allowed sweep_at
  watches zero s few quiet at =
      let u : System = apply sub show read_clock s in
      (
        apply sub show sweep u,
        Gone-trans sub show (acts sub show read_clock s quiet (rw at refl) quiet refl)
            (acts sub show sweep u quiet refl quiet refl),
        refl,
      )
  watches (suc zero) s few quiet at =
      (apply sub show sweep s, acts sub show sweep s quiet (rw at refl) quiet refl, refl)
  watches (suc (suc k)) s few quiet at = absurd (omega arith)

  -- The round in progress comes to its end.
  rounds_off :
      (t : Thread) (k : ℕ) (s : System)
      → IsWorld s.world
      → s.world.thrown ≡ none
      → ltb k (places t) ≡ true
      → of t s.phases ≡ working k
      → Leads sub show s (λ v. of t v.phases ≡ testing)
  unfolding apply allowed
  rounds_off udp_thread k s h quiet few at = (
    apply sub show (receive 0) s,
    acts sub show (receive 0) s quiet (ap is_working at) (receive_next-thrown 0 s.world h ∙ quiet)
        refl,
    refl,
  )
  rounds_off tcp_thread k s h quiet few at = serves k s (ltb→lt k 2 few) quiet at
  rounds_off dashboard_thread k s h quiet few at = (
    apply sub show draw_dashboard s,
    acts sub show draw_dashboard s quiet (ap is_working at) quiet refl,
    refl,
  )
  rounds_off watchdog_thread k s h quiet few at = watches k s (ltb→lt k 2 few) quiet at
  rounds_off telemetry_thread k s h quiet few at =
      let less : k < 7 = ltb→lt k 7 few in
      seven sub show telemetry_thread (ticks sub show) (6 - k) k s (omega arith) quiet at
  rounds_off heartbeat_thread k s h quiet few at =
      let less : k < 7 = ltb→lt k 7 few in
      seven sub show heartbeat_thread (beats sub show) (6 - k) k s (omega arith) quiet at

  tests_out :
      (t : Thread) (s : System)
      → s.world.thrown ≡ none
      → of t s.running ≡ false
      → of t s.phases ≡ testing
      → Leads sub show s (λ v. of t v.phases ≡ exited)
  unfolding apply allowed
  tests_out t s quiet cleared at = (
    apply sub show (test t) s,
    acts sub show (test t) s quiet (rw at refl) quiet refl,
    rw cleared (of-put-same t exited s.phases),
  )

  -- A thread at its loop or behind it, with its flag cleared, comes to its end.
  pub ends :
      (t : Thread) (p : Phase) (s : System)
      → IsWorld s.world
      → s.world.thrown ≡ none
      → Stopping t s
      → is_placed t p ≡ true
      → of t s.phases ≡ p
      → Leads sub show s (λ v. of t v.phases ≡ exited)
  ends t testing s h quiet stopping placed at = tests_out t s quiet stopping.cleared at
  ends t exited s h quiet stopping placed at = (s, Gone-here sub show s quiet, at)
  ends t (working k) s h quiet stopping placed at =
      let (u, gone, tests) = rounds_off t k s h quiet placed at in
      let still : Stopping t u = Reach-Stopping sub show t stopping gone.reach in
      let (v, more, out) = tests_out t u gone.quiet still.cleared tests in
      (v, Gone-trans sub show gone more, out)
  ends t _ s h quiet stopping placed at =
      let never : false ≡ true = sym (ap is_inside at) ∙ stopping.inside in cc

  opening-quiet : (t : Thread) (s : System) → (run_opening t s).world.thrown ≡ s.world.thrown
  unfolding run_opening
  opening-quiet udp_thread s = refl
  opening-quiet _ s = refl

  opening-todo : (t : Thread) (s : System) → (run_opening t s).todo ≡ s.todo
  unfolding run_opening
  opening-todo udp_thread s = refl
  opening-todo _ s = refl

  opening-phases : (t : Thread) (s : System) → (run_opening t s).phases ≡ s.phases
  unfolding run_opening
  opening-phases udp_thread s = refl
  opening-phases _ s = refl

  pub opens :
      (t : Thread) (s : System)
      → s.world.thrown ≡ none
      → of t s.phases ≡ opening
      → Leads sub show s (λ v.
        (of t v.phases ≡ entering)
        × ((u : Thread) → same_thread u t ≡ false → of u v.phases ≡ of u s.phases))
  unfolding apply allowed
  opens t s quiet at = (
    apply sub show (open_thread t) s,
    acts sub show (open_thread t) s quiet (rw at refl) (opening-quiet t s ∙ quiet)
        (opening-todo t s),
    (
      of-put-same t entering (run_opening t s).phases,
      λ u other.
          put-other u t entering (run_opening t s).phases other ∙ ap (of u) (opening-phases t s),
    ),
  )

  enters_at :
      (t : Thread) (s : System)
      → ((run_entering t s).world.thrown ≡ s.world.thrown)
        × ((run_entering t s).todo ≡ s.todo)
        × (is_inside (of t (run_entering t s).phases) ≡ true)
  unfolding run_entering
  enters_at udp_thread s = elim (Bool-cases s.udp_socket) [
    | inl on ↦ rw on (refl, refl, refl)
    | inr off ↦ rw off (refl, refl, refl)
  ]
  enters_at tcp_thread s = elim (Bool-cases s.tcp_socket) [
    | inl on ↦ rw on (refl, refl, refl)
    | inr off ↦ rw off (refl, refl, refl)
  ]
  enters_at _ s = (refl, refl, refl)

  enters :
      (t : Thread) (s : System)
      → s.world.thrown ≡ none
      → of t s.phases ≡ entering
      → Leads sub show s (λ v. is_inside (of t v.phases) ≡ true)
  unfolding apply allowed
  enters t s quiet at =
      let (calm, stays, inside) = enters_at t s in
      (
        apply sub show (enter t) s,
        acts sub show (enter t) s quiet (rw at refl) (calm ∙ quiet) stays,
        inside,
      )

  -- A thread that was made comes to its loop, or behind it.
  pub comes_inside :
      (t : Thread) (p : Phase) (s : System)
      → s.world.thrown ≡ none
      → is_unborn p ≡ false
      → of t s.phases ≡ p
      → Leads sub show s (λ v. is_inside (of t v.phases) ≡ true)
  comes_inside t opening s quiet born at =
      let (u, gone, (opened, _)) = opens t s quiet at in
      let (v, more, inside) = enters t u gone.quiet opened in
      (v, Gone-trans sub show gone more, inside)
  comes_inside t entering s quiet born at = enters t s quiet at
  comes_inside t testing s quiet born at = (s, Gone-here sub show s quiet, ap is_inside at)
  comes_inside t (working k) s quiet born at = (s, Gone-here sub show s quiet, ap is_inside at)
  comes_inside t exited s quiet born at = (s, Gone-here sub show s quiet, ap is_inside at)
  comes_inside t _ s quiet born at = cc
