-- ===== src/System/Keeping.antt =====
-- What every operation on the shared state keeps, every schedule keeps.
use smart_sensor_network.Prelude.{
  ℕ, ◌<◌, ◌^◌, ◌≡◌, inl, inr, subst, Bool, true, false, List, [], ◌∷◌, Bytes, arith, if◌then◌else◌,
  Bool-cases,
}
use smart_sensor_network.Gateway.{Logs}
use smart_sensor_network.System.World.{
  World, tick_node, beat_node, receive_next, sweep_at, lose, advance,
}
use smart_sensor_network.Prelude.{◌++◌}
use smart_sensor_network.System.Serving.{keep_session, converse_once_cases}
use smart_sensor_network.System.Script.{
  Thread, udp_thread, tcp_thread, dashboard_thread, watchdog_thread, telemetry_thread,
  heartbeat_thread, Statement, write_log, start, join, clear, await_ready, pause, beat, enable_7,
  get_char, stop_logger,
}
use smart_sensor_network.System.State.{
  System, Action, proceed, open_thread, enter, test, receive, accept_next, converse, draw_dashboard,
  read_clock, sweep as sweep_step, tick_next, beat_next, pass_time, lose_packet, place,
}
use smart_sensor_network.System.Steps.{
  execute, perform, run_opening, run_entering, is_skipped, allowed, apply, Reach, here, next,
}
use smart_sensor_network.System.Steps.{fire-eq-some}

pub record IsKept (sub : ℕ → ℕ → ℕ) (P : World → Type 0) : Type 0 where
  pub logged : (more : Logs) (w : World) → P w → P (record w { logs = w.logs ++ more })
  pub ticked :
      (k draw : ℕ) (failed : Bool) (w : World)
      → draw < 2 ^ 64
      → P w
      → P (tick_node sub k draw failed w)
  pub beaten : (k : ℕ) (failed : Bool) (w : World) → P w → P (beat_node k failed w)
  pub received : (i : ℕ) (w : World) → P w → P (receive_next i w)
  pub swept : (current : ℕ) (w : World) → P w → P (sweep_at current w)
  pub lost : (i : ℕ) (w : World) → P w → P (lose i w)
  pub advanced : (n : ℕ) (w : World) → P w → P (advance n w)

module _ (sub : ℕ → ℕ → ℕ) (P : World → Type 0) (keep : IsKept sub P) where
  execute-keeps :
      (failed : Bool) (st : Statement) (s : System) → P s.world → P (execute failed st s).world
  unfolding execute
  execute-keeps failed (write_log msg) s h = keep.logged (msg ∷ []) s.world h
  execute-keeps failed (beat k) s h = keep.beaten k failed s.world h
  execute-keeps failed (start t) s h = h
  execute-keeps failed (join t) s h = h
  execute-keeps failed (clear t) s h = h
  execute-keeps failed await_ready s h = h
  execute-keeps failed (pause n) s h = h
  execute-keeps failed enable_7 s h = h
  execute-keeps failed get_char s h = h
  execute-keeps failed stop_logger s h = h

  perform-keeps :
      (failed : Bool) (todo : List Statement) (s : System)
      → P s.world
      → P (perform failed todo s).world
  perform-keeps failed [] s h = h
  perform-keeps failed (st ∷ rest) s h = execute-keeps failed st (record s { todo = rest }) h

  run_opening-keeps : (t : Thread) (s : System) → P s.world → P (run_opening t s).world
  unfolding run_opening
  run_opening-keeps udp_thread s h = keep.logged _ s.world h
  run_opening-keeps tcp_thread s h = keep.logged _ s.world h
  run_opening-keeps dashboard_thread s h = h
  run_opening-keeps watchdog_thread s h = keep.logged _ s.world h
  run_opening-keeps telemetry_thread s h = h
  run_opening-keeps heartbeat_thread s h = keep.logged _ s.world h

  if-keeps : (b : Bool) (s t : System) → P s.world → P t.world → P (if b then s else t).world
  if-keeps true s t h k = h
  if-keeps false s t h k = k

  run_entering-keeps : (t : Thread) (s : System) → P s.world → P (run_entering t s).world
  unfolding run_entering
  run_entering-keeps udp_thread s h =
      if-keeps s.udp_socket _ _ (keep.logged _ s.world h) (keep.logged _ s.world h)
  run_entering-keeps tcp_thread s h =
      if-keeps s.tcp_socket _ _ (keep.logged _ s.world h) (keep.logged _ s.world h)
  run_entering-keeps dashboard_thread s h = h
  run_entering-keeps watchdog_thread s h = h
  run_entering-keeps telemetry_thread s h = h
  run_entering-keeps heartbeat_thread s h = h

module _ (sub : ℕ → ℕ → ℕ) (show : ℕ → Bytes) (P : World → Type 0) (keep : IsKept sub P) where
  pub apply-keeps :
      (a : Action) (s : System)
      → allowed sub show a s ≡ true
      → P s.world
      → P (apply sub show a s).world
  unfolding apply allowed
  apply-keeps (proceed failed) s e h = perform-keeps sub P keep failed s.todo s h
  apply-keeps (open_thread t) s e h = run_opening-keeps sub P keep t s h
  apply-keeps (enter t) s e h = run_entering-keeps sub P keep t s h
  apply-keeps (test t) s e h = h
  apply-keeps (receive i) s e h = keep.received i s.world h
  apply-keeps (accept_next true) s e h = keep.logged _ s.world h
  apply-keeps (accept_next false) s e h = h
  apply-keeps (converse x) s e h =
      converse_once_cases (λ v. P v.world) show x s (keep.logged _ s.world h)
        (λ t. keep.logged t.logs s.world h)
        λ t. keep.logged _ (keep_session t s).world (keep.logged t.logs s.world h)
  apply-keeps draw_dashboard s e h = h
  apply-keeps read_clock s e h = h
  apply-keeps sweep_step s e h = keep.swept s.current_time s.world h
  apply-keeps (tick_next draw failed) s e h =
      keep.ticked (place s.phases.telemetry) draw failed s.world (ground arith) h
  apply-keeps (beat_next failed) s e h =
      let k : ℕ = place s.phases.heartbeat in
      elim (Bool-cases (is_skipped k s)) [
        | inl skipped ↦ rw skipped h
        | inr sends ↦ rw sends (keep.beaten k failed s.world h)
      ]
  apply-keeps (pass_time n) s e h = keep.advanced n s.world h
  apply-keeps (lose_packet i) s e h = keep.lost i s.world h

  pub Reach-keeps : {s t : System} → P s.world → Reach sub show s t → P t.world
  Reach-keeps h here = h
  Reach-keeps h (next {t} {u} r a e) =
      let (_, possible, same) = fire-eq-some sub show a t e in
      subst (λ v. P v.world) same (apply-keeps a t possible (Reach-keeps h r))
