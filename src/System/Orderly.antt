-- ===== src/System/Orderly.antt =====
-- The statements, the flags and the phases along every schedule.
use smart_sensor_network.Prelude.{
  ℕ, ◌≡◌, refl, sym, subst, Bool, true, false, inl, inr, Bytes, Bool-cases,
}
use smart_sensor_network.Tcp.Server.{Server}
use smart_sensor_network.Udp.{Receiver}
use smart_sensor_network.System.Serving.{converse_once_cases}
use smart_sensor_network.System.Script.{
  Thread, udp_thread, tcp_thread, dashboard_thread, watchdog_thread, telemetry_thread,
  heartbeat_thread,
}
use smart_sensor_network.System.State.{
  entering, testing, working, of, put, is_opening, is_working, place, System, Action, proceed,
  open_thread, enter, test, receive, accept_next, converse, draw_dashboard, read_clock, sweep,
  tick_next, beat_next, pass_time, lose_packet, initial,
}
use smart_sensor_network.System.Steps.{run_opening, allowed, apply, fire-eq-some, Reach, here, next}
use smart_sensor_network.System.Stopping.{next_place-inside, tested_inside}
use smart_sensor_network.System.Ordered.{
  is_service, ready_of, Entry, IsOrderly, Orderly, put-both, Entry-opens, Entry-untold,
}
use smart_sensor_network.System.Performs.{perform-Orderly, and_cases}
use smart_sensor_network.System.Threads.{same_thread}
use smart_sensor_network.System.Enters.{
  testing_opened, working_opened, works_at_opened, next_placed, tested_over, next_inside,
  tested_placed, put-IsOrderly, run_entering-Orderly,
}

-- A thread runs its first lines, with the signs of the services behind them.
begun :
    (u : Thread) (s : System) (a b : Bool)
    → is_opening (of u s.phases) ≡ true
    → (is_service u ≡ true → ready_of u a b ≡ true)
    → ((t : Thread) → same_thread t u ≡ false → ready_of t a b ≡ ready_of t s.udp_ready s.tcp_ready)
    → Orderly s
    → IsOrderly s.todo s.running a b (put u entering s.phases)
begun u s a b e own rest h t =
    let opened : Entry u s.todo (of u s.running) true entering =
      Entry-opens (of u s.phases) e (h.entries u) in
    let new : Entry u s.todo (of u s.running) (ready_of u a b) entering =
      elim (Bool-cases (is_service u)) [
        | inl service ↦
            subst (λ r. Entry u s.todo (of u s.running) r entering) (sym (own service)) opened
        | inr other ↦ Entry-untold other opened
      ] in
    put-both (λ v p. Entry v s.todo (of v s.running) (ready_of v a b) p) t u entering s.phases new
      λ other.
        subst (λ r. Entry t s.todo (of t s.running) r (of t s.phases)) (sym (rest t other))
          (h.entries t)

udp_told :
    (a b : Bool) (t : Thread)
    → same_thread t udp_thread ≡ false
    → ready_of t true b ≡ ready_of t a b
udp_told a b udp_thread other = cc
udp_told a b _ other = refl

tcp_told :
    (a b : Bool) (t : Thread)
    → same_thread t tcp_thread ≡ false
    → ready_of t a true ≡ ready_of t a b
tcp_told a b tcp_thread other = cc
tcp_told a b _ other = refl

opened-Orderly :
    (u : Thread) (s : System)
    → is_opening (of u s.phases) ≡ true
    → Orderly s
    → Orderly
        (let opened = run_opening u s in record opened { phases = put u entering opened.phases })
unfolding run_opening
opened-Orderly udp_thread s e h = record {
  ordered = h.ordered;
  entries = begun udp_thread s true s.tcp_ready e (λ f. refl) (udp_told s.udp_ready s.tcp_ready) h;
}
opened-Orderly tcp_thread s e h = record {
  ordered = h.ordered;
  entries = begun tcp_thread s s.udp_ready true e (λ f. refl) (tcp_told s.udp_ready s.tcp_ready) h;
}
opened-Orderly dashboard_thread s e h = record {
  ordered = h.ordered;
  entries = begun dashboard_thread s s.udp_ready s.tcp_ready e (λ f. cc) (λ t f. refl) h;
}
opened-Orderly watchdog_thread s e h = record {
  ordered = h.ordered;
  entries = begun watchdog_thread s s.udp_ready s.tcp_ready e (λ f. cc) (λ t f. refl) h;
}
opened-Orderly telemetry_thread s e h = record {
  ordered = h.ordered;
  entries = begun telemetry_thread s s.udp_ready s.tcp_ready e (λ f. cc) (λ t f. refl) h;
}
opened-Orderly heartbeat_thread s e h = record {
  ordered = h.ordered;
  entries = begun heartbeat_thread s s.udp_ready s.tcp_ready e (λ f. cc) (λ t f. refl) h;
}

module _ (sub : ℕ → ℕ → ℕ) (show : ℕ → Bytes) where
  apply-Orderly :
      (a : Action) (s : System)
      → allowed sub show a s ≡ true
      → Orderly s
      → Orderly (apply sub show a s)
  unfolding apply allowed
  apply-Orderly (proceed failed) s e h = perform-Orderly failed s.todo s e h.ordered h.entries
  apply-Orderly (open_thread u) s e h = opened-Orderly u s e h
  apply-Orderly (enter u) s e h = run_entering-Orderly u s e h
  apply-Orderly (test u) s e h = record {
    ordered = h.ordered;
    entries =
        put-IsOrderly u _ s (testing_opened _ e) (tested_inside (of u s.running))
          (tested_placed u (of u s.running)) (tested_over (of u s.running)) h;
  }
  apply-Orderly (receive i) s e h = record {
    ordered = h.ordered;
    entries = put-IsOrderly udp_thread testing s (working_opened _ e) refl refl (λ f. cc) h;
  }
  apply-Orderly (accept_next true) s e h = record {
    ordered = h.ordered;
    entries = put-IsOrderly tcp_thread (working 1) s (works_at_opened 0 _ e) refl refl (λ f. cc) h;
  }
  apply-Orderly (accept_next false) s e h = record {
    ordered = h.ordered;
    entries = put-IsOrderly tcp_thread testing s (works_at_opened 0 _ e) refl refl (λ f. cc) h;
  }
  apply-Orderly (converse x) s e h =
      let ended =
        put-IsOrderly tcp_thread testing s (works_at_opened 1 _ e) refl refl (λ f. cc) h in
      converse_once_cases Orderly show x s (record { ordered = h.ordered; entries = ended })
        (λ t. record { ordered = h.ordered; entries = h.entries })
        λ t. record { ordered = h.ordered; entries = ended }
  apply-Orderly draw_dashboard s e h = record {
    ordered = h.ordered;
    entries = put-IsOrderly dashboard_thread testing s (working_opened _ e) refl refl (λ f. cc) h;
  }
  apply-Orderly read_clock s e h = record {
    ordered = h.ordered;
    entries =
        put-IsOrderly watchdog_thread (working 1) s (works_at_opened 0 _ e) refl refl (λ f. cc) h;
  }
  apply-Orderly sweep s e h = record {
    ordered = h.ordered;
    entries = put-IsOrderly watchdog_thread testing s (works_at_opened 1 _ e) refl refl (λ f. cc) h;
  }
  apply-Orderly (tick_next draw failed) s e h =
      let works : is_working s.phases.telemetry ≡ true = (and_cases e).0 in
      record {
        ordered = h.ordered;
        entries =
            put-IsOrderly telemetry_thread _ s (working_opened _ works)
              (next_place-inside (place s.phases.telemetry))
              (next_placed telemetry_thread s.phases.telemetry refl works
                (h.entries telemetry_thread).placed)
              (next_inside (place s.phases.telemetry)) h;
      }
  apply-Orderly (beat_next failed) s e h = record {
    ordered = h.ordered;
    entries =
        put-IsOrderly heartbeat_thread _ s (working_opened _ e)
          (next_place-inside (place s.phases.heartbeat))
          (next_placed heartbeat_thread s.phases.heartbeat refl e
            (h.entries heartbeat_thread).placed)
          (next_inside (place s.phases.heartbeat)) h;
  }
  apply-Orderly (pass_time n) s e h = record { ordered = h.ordered; entries = h.entries }
  apply-Orderly (lose_packet i) s e h = record { ordered = h.ordered; entries = h.entries }

  initial-Entry :
      (receiver : Receiver) (server : Server) (clock : ℕ) (t : Thread)
      → let s = initial receiver server clock in
        Entry t s.todo (of t s.running) (ready_of t s.udp_ready s.tcp_ready) (of t s.phases)
  initial-Entry receiver server clock udp_thread = record {
    born = refl;
    placed = refl;
    set = λ e. cc;
    told = λ e. refl;
    awaited = λ e f. cc;
    stopped = λ e f. cc;
    over = λ e. cc;
    fresh = λ e f. refl;
  }
  initial-Entry receiver server clock tcp_thread = record {
    born = refl;
    placed = refl;
    set = λ e. cc;
    told = λ e. refl;
    awaited = λ e f. cc;
    stopped = λ e f. cc;
    over = λ e. cc;
    fresh = λ e f. refl;
  }
  initial-Entry receiver server clock _ = record {
    born = refl;
    placed = refl;
    set = λ e. refl;
    told = λ e. refl;
    awaited = λ e f. cc;
    stopped = λ e f. cc;
    over = λ e. cc;
    fresh = λ e f. cc;
  }

  pub Reach-Orderly :
      (receiver : Receiver) (server : Server) (clock : ℕ) {s : System}
      → Reach sub show (initial receiver server clock) s
      → Orderly s
  Reach-Orderly receiver server clock here = record {
    ordered = refl;
    entries = initial-Entry receiver server clock;
  }
  Reach-Orderly receiver server clock (next {t = u} r a e) =
      let (_, possible, same) = fire-eq-some sub show a u e in
      subst Orderly same (apply-Orderly a u possible (Reach-Orderly receiver server clock r))
