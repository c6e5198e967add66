-- ===== src/System/Lost.antt =====
-- `stop()` before `run()`: `run` sets the flag again.
use smart_sensor_network.Prelude.{ℕ, ◌≡◌, ◌≢◌, refl, subst, Bool, true, false, [], arith, Bytes}
use smart_sensor_network.Udp.{Receiver}
use smart_sensor_network.Tcp.Server.{Server}
use smart_sensor_network.System.Serving.{converse_once_cases}
use smart_sensor_network.System.Threads.{same_thread}
use smart_sensor_network.System.Script.{
  Thread, udp_thread, tcp_thread, dashboard_thread, watchdog_thread, telemetry_thread,
  heartbeat_thread,
}
use smart_sensor_network.System.State.{
  Phase, entering, testing, working, exited, of, System, Action, proceed, open_thread, enter, test,
  receive, accept_next, converse, draw_dashboard, read_clock, sweep, tick_next, beat_next,
  pass_time, lose_packet, initial, place,
}
use smart_sensor_network.System.Steps.{allowed, apply, fire-eq-some, Reach, here, next}
use smart_sensor_network.System.Runs.{Reach-trans}
use smart_sensor_network.System.Joins.{Reach-exited}
use smart_sensor_network.System.Live.{
  will_clear, has_socket, is_live, Lost, moved-Lost, kept-Lost, working_live, works_at_working,
  next_live, perform-Lost, opened-Lost, entered-Lost, tested-live,
}

module _ (sub : ℕ → ℕ → ℕ) (show : ℕ → Bytes) where
  apply-Lost :
      (t : Thread) (a : Action) (s : System)
      → allowed sub show a s ≡ true
      → Lost t s
      → Lost t (apply sub show a s)
  unfolding apply allowed
  apply-Lost t (proceed failed) s e h = perform-Lost t failed s.todo s e refl h
  apply-Lost t (open_thread u) s e h = opened-Lost t u s h
  apply-Lost t (enter u) s e h = entered-Lost t u s h
  apply-Lost t (test u) s e h = moved-Lost t u _ s _ refl refl refl refl (tested-live t u s e) h
  apply-Lost t (receive i) s e h =
      moved-Lost t udp_thread testing s _ refl refl refl refl
        (λ own f. (working_live (of t s.running) 0 s.phases.udp e f).0) h
  apply-Lost t (accept_next true) s e h =
      moved-Lost t tcp_thread (working 1) s _ refl refl refl refl
        (λ own f.
          (working_live (of t s.running) 1 s.phases.tcp (works_at_working 0 s.phases.tcp e) f).1)
        h
  apply-Lost t (accept_next false) s e h =
      moved-Lost t tcp_thread testing s _ refl refl refl refl
        (λ own f.
          (working_live (of t s.running) 0 s.phases.tcp (works_at_working 0 s.phases.tcp e) f).0)
        h
  apply-Lost t (converse x) s e h =
      let back =
        λ (own : same_thread t tcp_thread ≡ true)
            (f : is_live (of t s.running) s.phases.tcp ≡ true).
          (working_live (of t s.running) 0 s.phases.tcp (works_at_working 1 s.phases.tcp e) f).0 in
      converse_once_cases (Lost t) show x s
        (moved-Lost t tcp_thread testing s _ refl refl refl refl back h)
        (λ v. kept-Lost t s _ refl refl refl refl h)
        λ v. moved-Lost t tcp_thread testing s _ refl refl refl refl back h
  apply-Lost t draw_dashboard s e h =
      moved-Lost t dashboard_thread testing s _ refl refl refl refl
        (λ own f. (working_live (of t s.running) 0 s.phases.dashboard e f).0) h
  apply-Lost t read_clock s e h =
      moved-Lost t watchdog_thread (working 1) s _ refl refl refl refl
        (λ own f.
          (working_live (of t s.running) 1 s.phases.watchdog
            (works_at_working 0 s.phases.watchdog e) f).1)
        h
  apply-Lost t sweep s e h =
      moved-Lost t watchdog_thread testing s _ refl refl refl refl
        (λ own f.
          (working_live (of t s.running) 0 s.phases.watchdog
            (works_at_working 1 s.phases.watchdog e) f).0)
        h
  apply-Lost t (tick_next draw failed) s e h =
      moved-Lost t telemetry_thread _ s _ refl refl refl refl
        (λ own f.
          next_live (of t s.running) (place s.phases.telemetry)
            (working_live (of t s.running) 0 s.phases.telemetry (ground arith) f).1)
        h
  apply-Lost t (beat_next failed) s e h =
      moved-Lost t heartbeat_thread _ s _ refl refl refl refl
        (λ own f.
          next_live (of t s.running) (place s.phases.heartbeat)
            (working_live (of t s.running) 0 s.phases.heartbeat e f).1)
        h
  apply-Lost t (pass_time n) s e h = kept-Lost t s _ refl refl refl refl h
  apply-Lost t (lose_packet i) s e h = kept-Lost t s _ refl refl refl refl h

  pub Reach-Lost : (t : Thread) {s v : System} → Lost t s → Reach sub show s v → Lost t v
  Reach-Lost t h here = h
  Reach-Lost t h (next {t = u} r a e) =
      let (_, possible, same) = fire-eq-some sub show a u e in
      subst (Lost t) same (apply-Lost t a u possible (Reach-Lost t h r))

  pub exited_dead : (b : Bool) (p : Phase) → is_live b p ≡ true → p ≢ exited
  exited_dead b p h e = let never : false ≡ true = rw e at h in absurd (false-ne-true never)
    where
      false-ne-true : false ≡ true → ⊥
      false-ne-true e = cc

  -- The lost `stop()`: in a state that the demo can come to in which `stop()` of the receiver or of the
  -- server, which has a socket, is done, and its thread has not yet begun `run()`, the flag is set
  -- again behind it: whatever the schedule, the service never ends, and `main` never comes to its end.
  pub Reach-will_clear :
      (t : Thread) (receiver : Receiver) (server : Server) (clock : ℕ) {s v : System}
      → Reach sub show (initial receiver server clock) s
      → has_socket t s ≡ true
      → will_clear t s.todo ≡ false
      → of t s.phases ≡ entering
      → Reach sub show s v
      → (of t v.phases ≢ exited) × (v.todo ≢ [])
  Reach-will_clear t receiver server clock {s} {v} r socket done begins later =
      let lost : Lost t v =
        Reach-Lost t (record { socket = socket; no_stop = done; live = rw begins refl }) later in
      let alive : of t v.phases ≢ exited = exited_dead (of t v.running) (of t v.phases) lost.live in
      (
        alive,
        λ e. alive (Reach-exited sub show t receiver server clock (Reach-trans sub show r later) e),
      )
