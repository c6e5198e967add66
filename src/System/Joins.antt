-- ===== src/System/Joins.antt =====
-- `main` and the ends of its threads.
use smart_sensor_network.Prelude.{
  ℕ, ◌≡◌, inl, inr, refl, subst, true, false, List, [], ◌∷◌, arith, Bytes,
}
use smart_sensor_network.Tcp.Server.{Server}
use smart_sensor_network.Udp.{Receiver}
use smart_sensor_network.System.Serving.{converse_once_cases}
use smart_sensor_network.System.Script.{
  Thread, udp_thread, tcp_thread, dashboard_thread, watchdog_thread, telemetry_thread,
  heartbeat_thread, Statement,
}
use smart_sensor_network.System.State.{
  testing, working, exited, of, System, Action, proceed, open_thread, enter, test, receive,
  accept_next, converse, draw_dashboard, read_clock, sweep, tick_next, beat_next, pass_time,
  lose_packet, initial,
}
use smart_sensor_network.System.Steps.{allowed, apply, fire-eq-some, Reach, here, next}
use smart_sensor_network.System.Awaits.{
  IsAwaited, put-IsAwaited, testing_live, working_live, works_at_live, perform-IsAwaited, Awaits,
  opening-Awaits, entering-Awaits,
}

module _ (sub : ℕ → ℕ → ℕ) (show : ℕ → Bytes) where
  apply-Awaits :
      (t : Thread) (a : Action) (s : System)
      → allowed sub show a s ≡ true
      → Awaits t s
      → Awaits t (apply sub show a s)
  unfolding apply allowed Awaits
  apply-Awaits t (proceed failed) s e h = perform-IsAwaited t failed s.todo s e h
  apply-Awaits t (open_thread u) s e h = opening-Awaits t u s e h
  apply-Awaits t (enter u) s e h = entering-Awaits t u s e h
  apply-Awaits t (test u) s e h = put-IsAwaited t u _ s.todo s.phases (testing_live _ e) h
  apply-Awaits t (receive i) s e h =
      put-IsAwaited t udp_thread testing s.todo s.phases (working_live _ e) h
  apply-Awaits t (accept_next true) s e h =
      put-IsAwaited t tcp_thread (working 1) s.todo s.phases (works_at_live 0 _ e) h
  apply-Awaits t (accept_next false) s e h =
      put-IsAwaited t tcp_thread testing s.todo s.phases (works_at_live 0 _ e) h
  apply-Awaits t (converse x) s e h =
      let ended = put-IsAwaited t tcp_thread testing s.todo s.phases (works_at_live 1 _ e) h in
      converse_once_cases (Awaits t) show x s ended (λ v. h) λ v. ended
  apply-Awaits t draw_dashboard s e h =
      put-IsAwaited t dashboard_thread testing s.todo s.phases (working_live _ e) h
  apply-Awaits t read_clock s e h =
      put-IsAwaited t watchdog_thread (working 1) s.todo s.phases (works_at_live 0 _ e) h
  apply-Awaits t sweep s e h =
      put-IsAwaited t watchdog_thread testing s.todo s.phases (works_at_live 1 _ e) h
  apply-Awaits t (tick_next draw failed) s e h =
      put-IsAwaited t telemetry_thread _ s.todo s.phases (working_live _ (ground arith)) h
  apply-Awaits t (beat_next failed) s e h =
      put-IsAwaited t heartbeat_thread _ s.todo s.phases (working_live _ e) h
  apply-Awaits t (pass_time n) s e h = h
  apply-Awaits t (lose_packet i) s e h = h

  initial-Awaits :
      (t : Thread) (receiver : Receiver) (server : Server) (clock : ℕ)
      → Awaits t (initial receiver server clock)
  unfolding Awaits
  initial-Awaits udp_thread receiver server clock = inl refl
  initial-Awaits tcp_thread receiver server clock = inl refl
  initial-Awaits dashboard_thread receiver server clock = inl refl
  initial-Awaits watchdog_thread receiver server clock = inl refl
  initial-Awaits telemetry_thread receiver server clock = inl refl
  initial-Awaits heartbeat_thread receiver server clock = inl refl

  Reach-Awaits :
      (t : Thread) (receiver : Receiver) (server : Server) (clock : ℕ) {s : System}
      → Reach sub show (initial receiver server clock) s
      → Awaits t s
  Reach-Awaits t receiver server clock here = initial-Awaits t receiver server clock
  Reach-Awaits t receiver server clock (next {t = u} r a e) =
      let (_, possible, same) = fire-eq-some sub show a u e in
      subst (Awaits t) same (apply-Awaits t a u possible (Reach-Awaits t receiver server clock r))

  -- In every schedule, `main` comes to its end only behind the ends of all six threads.
  pub Reach-exited :
      (t : Thread) (receiver : Receiver) (server : Server) (clock : ℕ) {s : System}
      → Reach sub show (initial receiver server clock) s
      → s.todo ≡ []
      → of t s.phases ≡ exited
  unfolding Awaits
  Reach-exited t receiver server clock {s} r e =
      ended s.todo e (Reach-Awaits t receiver server clock r)
    where
      ended :
          (todo : List Statement) → todo ≡ [] → IsAwaited t todo s.phases → of t s.phases ≡ exited
      ended [] f (inl w) = cc
      ended [] f (inr x) = x
      ended (st ∷ rest) f w = cc
