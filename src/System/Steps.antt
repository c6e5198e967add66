-- ===== src/System/Steps.antt =====
-- The threads' steps. A sleep may end at any time, so every schedule of the program is one of these.
use smart_sensor_network.Prelude.{
  ℕ, ◌≡◌, refl, Bool, true, false, ◌&&◌, Option, none, some, List, [], ◌∷◌, Bytes, codes, ◌==◌, ltb,
  ◌^◌, Exception, if◌then◌else◌,
}
use smart_sensor_network.Udp.{started_log, no_socket_log}
use smart_sensor_network.Tcp.Server.{not_initialized_log, server_started_log}
use smart_sensor_network.System.World.{
  note, tick_node, beat_node, receive_next, lose, sweep_at, advance,
}
use smart_sensor_network.System.Serving.{accept_client, converse_once}
use smart_sensor_network.System.Script.{
  Thread, udp_thread, tcp_thread, dashboard_thread, watchdog_thread, telemetry_thread,
  heartbeat_thread, Statement, write_log, start, join, clear, await_ready, pause, beat, enable_7,
  get_char, stop_logger,
}
use smart_sensor_network.System.State.{
  opening, entering, testing, working, exited, of, put, System, Action, proceed, open_thread, enter,
  test, receive, accept_next, converse, draw_dashboard, read_clock, sweep, tick_next, beat_next,
  pass_time, lose_packet, is_unborn, is_opening, is_entering, is_testing, is_exited, is_working,
  works_at, place, next_place,
}

-- Whether `main` can execute a statement.
unfoldable pub may_execute : Statement → System → Bool
may_execute (start t) s = is_unborn (of t s.phases)
may_execute (join t) s = is_exited (of t s.phases)
may_execute await_ready s = s.udp_ready && s.tcp_ready
may_execute _ s = true

-- A statement's effect; `failed` is that of `sendto`.
unfoldable pub execute : Bool → Statement → System → System
execute failed (write_log msg) s = record s { world = note msg s.world }
execute failed (start t) s = record s { phases = put t opening s.phases }
execute failed (join t) s = s
execute failed (clear t) s = record s { running = put t false s.running }
execute failed await_ready s = s
execute failed (pause n) s = s
execute failed (beat k) s = record s { world = beat_node k failed s.world }
execute failed enable_7 s = record s { sensor7_enabled = true }
execute failed get_char s = s
execute failed stop_logger s = s

abbrev pub may_proceed : List Statement → System → Bool
may_proceed [] s = false
may_proceed (st ∷ rest) s = may_execute st s

abbrev pub perform : Bool → List Statement → System → System
perform failed [] s = s
perform failed (st ∷ rest) s = execute failed st (record s { todo = rest })

-- The first lines of a thread.
unfoldable pub run_opening : Thread → System → System
run_opening udp_thread s = record s {
  world = note (codes "[SYSTEM] Starting UDP service") s.world;
  udp_ready = true;
}
run_opening tcp_thread s = record s {
  world = note (codes "[SYSTEM] Starting TCP service") s.world;
  tcp_ready = true;
}
run_opening dashboard_thread s = s
run_opening watchdog_thread s = record s {
  world = note (codes "[SYSTEM] Watchdog started") s.world;
}
run_opening telemetry_thread s = s
run_opening heartbeat_thread s = record s {
  world = note (codes "[SYSTEM] Simulating communication loss for sensors 3 and 7") s.world;
}

-- `receiver.run()` and `tcpServer.run()` up to their loops: the flag is set, or there is no socket.
unfoldable pub run_entering : Thread → System → System
run_entering udp_thread s =
    if s.udp_socket
    then record s {
      world = note started_log s.world;
      running = put udp_thread true s.running;
      phases = put udp_thread testing s.phases;
    }
    else record s { world = note no_socket_log s.world; phases = put udp_thread exited s.phases }
run_entering tcp_thread s =
    if s.tcp_socket
    then record s {
      world = note server_started_log s.world;
      running = put tcp_thread true s.running;
      phases = put tcp_thread testing s.phases;
    }
    else record s {
      world = note not_initialized_log s.world;
      phases = put tcp_thread exited s.phases;
    }
run_entering t s = record s { phases = put t testing s.phases }

abbrev pub run_test : Thread → System → System
run_test t s = record s { phases = put t (if of t s.running then working 0 else exited) s.phases }

-- Sensors 3 and 7 are sent for only if they are enabled.
abbrev pub is_skipped : ℕ → System → Bool
is_skipped k s =
    if k == 2
    then (if s.sensor3_enabled then false else true)
    else if k == 6
    then (if s.sensor7_enabled then false else true)
    else false

abbrev pub is_none : Option Exception → Bool
is_none none = true
is_none (some e) = false

guarded :
    (o : Option Exception) (b : Bool) (s : System) {t : System}
    → (if is_none o && b then some s else none) ≡ some t
    → (o ≡ none) × (b ≡ true) × (s ≡ t)
guarded none true s e = (refl, refl, (cc))
guarded none false s e = cc
guarded (some x) b s e = cc

module _ (sub : ℕ → ℕ → ℕ) (show : ℕ → Bytes) where
  -- Whether an action is possible: the thread stands there. A draw is the pattern of a `double`.
  unfoldable pub allowed : Action → System → Bool
  allowed (proceed failed) s = may_proceed s.todo s
  allowed (open_thread t) s = is_opening (of t s.phases)
  allowed (enter t) s = is_entering (of t s.phases)
  allowed (test t) s = is_testing (of t s.phases)
  allowed (receive i) s = is_working s.phases.udp
  allowed (accept_next found) s = works_at 0 s.phases.tcp
  allowed (converse x) s = works_at 1 s.phases.tcp
  allowed draw_dashboard s = is_working s.phases.dashboard
  allowed read_clock s = works_at 0 s.phases.watchdog
  allowed sweep s = works_at 1 s.phases.watchdog
  allowed (tick_next draw failed) s = is_working s.phases.telemetry && ltb draw (2 ^ 64)
  allowed (beat_next failed) s = is_working s.phases.heartbeat
  allowed (pass_time n) s = true
  allowed (lose_packet i) s = true

  unfoldable pub apply : Action → System → System
  unfolding execute run_opening run_entering
  apply (proceed failed) s = perform failed s.todo s
  apply (open_thread t) s =
      let opened = run_opening t s in record opened { phases = put t entering opened.phases }
  apply (enter t) s = run_entering t s
  apply (test t) s = run_test t s
  apply (receive i) s = record s {
    world = receive_next i s.world;
    phases = put udp_thread testing s.phases;
  }
  apply (accept_next found) s = accept_client found s
  apply (converse x) s = converse_once show x s
  apply draw_dashboard s = record s { phases = put dashboard_thread testing s.phases }
  apply read_clock s = record s {
    current_time = s.world.clock;
    phases = put watchdog_thread (working 1) s.phases;
  }
  apply sweep s = record s {
    world = sweep_at s.current_time s.world;
    phases = put watchdog_thread testing s.phases;
  }
  apply (tick_next draw failed) s =
      let k = place s.phases.telemetry in
      record s {
        world = tick_node sub k draw failed s.world;
        phases = put telemetry_thread (next_place k) s.phases;
      }
  apply (beat_next failed) s =
      let k = place s.phases.heartbeat in
      record s {
        world = if is_skipped k s then s.world else beat_node k failed s.world;
        phases = put heartbeat_thread (next_place k) s.phases;
      }
  apply (pass_time n) s = record s { world = advance n s.world }
  apply (lose_packet i) s = record s { world = lose i s.world }

  -- Nothing happens behind an exception.
  unfoldable pub fire : Action → System → Option System
  unfolding allowed apply
  fire a s = if is_none s.world.thrown && allowed a s then some (apply a s) else none

  pub fire-eq-some :
      (a : Action) (s : System) {t : System}
      → fire a s ≡ some t
      → (s.world.thrown ≡ none) × (allowed a s ≡ true) × (apply a s ≡ t)
  unfolding fire
  fire-eq-some a s e = guarded s.world.thrown (allowed a s) (apply a s) e

  -- The states that the demo can come to, from a start at a time within 64 bits.
  pub data Reach (s : System) : System → Type 0 where
    here : Reach s s
    next : {t u : System} → Reach s t → (a : Action) → fire a t ≡ some u → Reach s u
