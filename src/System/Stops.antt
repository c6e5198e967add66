-- ===== src/System/Stops.antt =====
-- The flags of the loops and the ends of the threads: `UdpReceiver::stop`, `TcpServer::stop` and the flags of main.cpp.
use smart_sensor_network.Prelude.{ℕ, ◌≡◌, refl, subst, true, false, Bytes}
use smart_sensor_network.System.Serving.{converse_once_cases}
use smart_sensor_network.System.Script.{
  Thread, udp_thread, tcp_thread, dashboard_thread, watchdog_thread, telemetry_thread,
  heartbeat_thread,
}
use smart_sensor_network.System.State.{
  testing, working, of, System, Action, proceed, open_thread, enter, test, receive, accept_next,
  converse, draw_dashboard, read_clock, sweep, tick_next, beat_next, pass_time, lose_packet, place,
}
use smart_sensor_network.System.Steps.{allowed, apply, fire-eq-some, Reach, here, next}
use smart_sensor_network.System.Stopping.{
  next_place-inside, Stopping, moved-Stopping, kept-Stopping, perform-Stopping, opened-Stopping,
  entered-Stopping, tested_inside,
}

module _ (sub : ℕ → ℕ → ℕ) (show : ℕ → Bytes) where
  apply-Stopping :
      (t : Thread) (a : Action) (s : System)
      → allowed sub show a s ≡ true
      → Stopping t s
      → Stopping t (apply sub show a s)
  unfolding apply allowed
  apply-Stopping t (proceed failed) s e h = perform-Stopping t failed s.todo s e h
  apply-Stopping t (open_thread u) s e h = opened-Stopping t u s e h
  apply-Stopping t (enter u) s e h = entered-Stopping t u s e h
  apply-Stopping t (test u) s e h =
      moved-Stopping t u _ s _ refl refl (λ f. tested_inside (of u s.running)) h
  apply-Stopping t (receive i) s e h =
      moved-Stopping t udp_thread testing s _ refl refl (λ f. refl) h
  apply-Stopping t (accept_next true) s e h =
      moved-Stopping t tcp_thread (working 1) s _ refl refl (λ f. refl) h
  apply-Stopping t (accept_next false) s e h =
      moved-Stopping t tcp_thread testing s _ refl refl (λ f. refl) h
  apply-Stopping t (converse x) s e h =
      converse_once_cases (Stopping t) show x s
        (moved-Stopping t tcp_thread testing s _ refl refl (λ f. refl) h)
        (λ v. kept-Stopping t s _ refl refl h)
        λ v. moved-Stopping t tcp_thread testing s _ refl refl (λ f. refl) h
  apply-Stopping t draw_dashboard s e h =
      moved-Stopping t dashboard_thread testing s _ refl refl (λ f. refl) h
  apply-Stopping t read_clock s e h =
      moved-Stopping t watchdog_thread (working 1) s _ refl refl (λ f. refl) h
  apply-Stopping t sweep s e h =
      moved-Stopping t watchdog_thread testing s _ refl refl (λ f. refl) h
  apply-Stopping t (tick_next draw failed) s e h =
      moved-Stopping t telemetry_thread _ s _ refl refl
        (λ f. next_place-inside (place s.phases.telemetry)) h
  apply-Stopping t (beat_next failed) s e h =
      moved-Stopping t heartbeat_thread _ s _ refl refl
        (λ f. next_place-inside (place s.phases.heartbeat)) h
  apply-Stopping t (pass_time n) s e h = kept-Stopping t s _ refl refl h
  apply-Stopping t (lose_packet i) s e h = kept-Stopping t s _ refl refl h

  pub Reach-Stopping :
      (t : Thread) {s v : System} → Stopping t s → Reach sub show s v → Stopping t v
  Reach-Stopping t h here = h
  Reach-Stopping t h (next {t = u} r a e) =
      let (_, possible, same) = fire-eq-some sub show a u e in
      subst (Stopping t) same (apply-Stopping t a u possible (Reach-Stopping t h r))
