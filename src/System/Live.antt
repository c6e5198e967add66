-- ===== src/System/Live.antt =====
-- A service that runs although its `stop()` is done.
use smart_sensor_network.Prelude.{
  ◌==◌, ℕ, ◌≡◌, inl, inr, refl, sym, ap, ◌∙◌, subst, Bool, true, false, ◌||◌, List, [], ◌∷◌,
  Bool-cases, if◌then◌else◌,
}
use smart_sensor_network.System.Threads.{same_thread, same_thread_eq, put-keeps, put-other}
use smart_sensor_network.System.Script.{
  Thread, udp_thread, tcp_thread, dashboard_thread, watchdog_thread, telemetry_thread,
  heartbeat_thread, Statement, write_log, start, join, clear, await_ready, pause, beat, enable_7,
  get_char, stop_logger,
}
use smart_sensor_network.System.State.{
  Phase, unborn, opening, entering, testing, working, exited, of, put, is_unborn, is_testing,
  is_working, works_at, next_place, System,
}
use smart_sensor_network.System.Steps.{
  may_execute, may_proceed, execute, perform, run_opening, run_entering,
}

-- Whether a `stop()` of the service is left.
abbrev pub will_clear : Thread → List Statement → Bool
will_clear t [] = false
will_clear t (clear u ∷ rest) = same_thread t u || will_clear t rest
will_clear t (_ ∷ rest) = will_clear t rest

abbrev pub socket_of : Thread → Bool → Bool → Bool
socket_of udp_thread udp tcp = udp
socket_of tcp_thread udp tcp = tcp
socket_of _ udp tcp = false

-- Whether the thread is that of a service, which has a socket.
abbrev pub has_socket : Thread → System → Bool
has_socket t s = socket_of t s.udp_socket s.tcp_socket

-- Before `run()`, or in its loop with the flag set.
abbrev pub is_live : Bool → Phase → Bool
is_live b entering = true
is_live b testing = b
is_live b (working k) = b
is_live b _ = false

-- A service whose `stop()` is done and that runs all the same.
pub record Lost (t : Thread) (s : System) : Type 0 where
  pub socket : has_socket t s ≡ true
  pub no_stop : will_clear t s.todo ≡ false
  pub live : is_live (of t s.running) (of t s.phases) ≡ true

-- The phase of one thread changes, and stays live if it was.
pub moved-Lost :
    (t u : Thread) (x : Phase) (s v : System)
    → has_socket t v ≡ has_socket t s
    → will_clear t v.todo ≡ will_clear t s.todo
    → v.running ≡ s.running
    → v.phases ≡ put u x s.phases
    → (same_thread t u ≡ true
        → is_live (of t s.running) (of u s.phases) ≡ true
        → is_live (of t s.running) x ≡ true)
    → Lost t s
    → Lost t v
moved-Lost t u x s v socket todo same moved keep h = record {
  socket = socket ∙ h.socket;
  no_stop = todo ∙ h.no_stop;
  live =
      subst (λ r. is_live (of t r) (of t v.phases) ≡ true) (sym same)
        (subst (λ p. is_live (of t s.running) (of t p) ≡ true) (sym moved)
          (elim (Bool-cases (same_thread t u)) [
            | inl own ↦
                put-keeps (λ q. is_live (of t s.running) q ≡ true) t u x s.phases (keep own) h.live
            | inr other ↦ ap (is_live (of t s.running)) (put-other t u x s.phases other) ∙ h.live
          ]));
}

pub kept-Lost :
    (t : Thread) (s v : System)
    → has_socket t v ≡ has_socket t s
    → will_clear t v.todo ≡ will_clear t s.todo
    → v.running ≡ s.running
    → v.phases ≡ s.phases
    → Lost t s
    → Lost t v
kept-Lost t s v socket todo same kept h = record {
  socket = socket ∙ h.socket;
  no_stop = todo ∙ h.no_stop;
  live = rw (same, kept) h.live;
}

if-Lost : (t : Thread) (b : Bool) (s v : System) → Lost t s → Lost t v → Lost t (if b then s else v)
if-Lost t true s v h k = h
if-Lost t false s v h k = k

unborn_dead :
    (b : Bool) (p : Phase) → is_unborn p ≡ true → is_live b p ≡ true → is_live b opening ≡ true
unborn_dead b unborn e h = h
unborn_dead b _ e h = cc

-- A thread at its loop is live while its flag is set, wherever it is in it.
pub working_live :
    (b : Bool) (k : ℕ) (p : Phase)
    → is_working p ≡ true
    → is_live b p ≡ true
    → (is_live b testing ≡ true) × (is_live b (working k) ≡ true)
working_live b k (working j) e h = (h, h)
working_live b k _ e h = cc

pub works_at_working : (i : ℕ) (p : Phase) → works_at i p ≡ true → is_working p ≡ true
works_at_working i (working k) e = refl
works_at_working i _ e = cc

pub next_live : (b : Bool) (k : ℕ) → b ≡ true → is_live b (next_place k) ≡ true
next_live b k e = elim (Bool-cases (k == 6)) [ inl last ↦ rw last e | inr other ↦ rw other e ]

or_false : (a b : Bool) → a || b ≡ false → (a ≡ false) × (b ≡ false)
or_false true b e = cc
or_false false b e = (refl, e)

pub perform-Lost :
    (t : Thread) (failed : Bool) (todo : List Statement) (s : System)
    → may_proceed todo s ≡ true
    → s.todo ≡ todo
    → Lost t s
    → Lost t (perform failed todo s)
unfolding may_execute execute
perform-Lost t failed [] s e f h = cc
perform-Lost t failed (start u ∷ rest) s e f h =
    moved-Lost t u opening s _ refl (rw f refl) refl refl
      (λ own. unborn_dead (of t s.running) (of u s.phases) e) h
perform-Lost t failed (clear u ∷ rest) s e f h =
    let (other, none_left) = or_false (same_thread t u) (will_clear t rest) (rw f at h.no_stop) in
    record {
      socket = h.socket;
      no_stop = none_left;
      live = ap (λ b. is_live b (of t s.phases)) (put-other t u false s.running other) ∙ h.live;
    }
perform-Lost t failed (join u ∷ rest) s e f h = kept-Lost t s _ refl (rw f refl) refl refl h
perform-Lost t failed (write_log msg ∷ rest) s e f h = kept-Lost t s _ refl (rw f refl) refl refl h
perform-Lost t failed (await_ready ∷ rest) s e f h = kept-Lost t s _ refl (rw f refl) refl refl h
perform-Lost t failed (pause n ∷ rest) s e f h = kept-Lost t s _ refl (rw f refl) refl refl h
perform-Lost t failed (beat k ∷ rest) s e f h = kept-Lost t s _ refl (rw f refl) refl refl h
perform-Lost t failed (enable_7 ∷ rest) s e f h = kept-Lost t s _ refl (rw f refl) refl refl h
perform-Lost t failed (get_char ∷ rest) s e f h = kept-Lost t s _ refl (rw f refl) refl refl h
perform-Lost t failed (stop_logger ∷ rest) s e f h = kept-Lost t s _ refl (rw f refl) refl refl h

pub opened-Lost :
    (t u : Thread) (s : System)
    → Lost t s
    → Lost t
        (let opened = run_opening u s in record opened { phases = put u entering opened.phases })
unfolding run_opening
opened-Lost t udp_thread s h =
    moved-Lost t udp_thread entering s _ refl refl refl refl (λ own f. refl) h
opened-Lost t tcp_thread s h =
    moved-Lost t tcp_thread entering s _ refl refl refl refl (λ own f. refl) h
opened-Lost t dashboard_thread s h =
    moved-Lost t dashboard_thread entering s _ refl refl refl refl (λ own f. refl) h
opened-Lost t watchdog_thread s h =
    moved-Lost t watchdog_thread entering s _ refl refl refl refl (λ own f. refl) h
opened-Lost t telemetry_thread s h =
    moved-Lost t telemetry_thread entering s _ refl refl refl refl (λ own f. refl) h
opened-Lost t heartbeat_thread s h =
    moved-Lost t heartbeat_thread entering s _ refl refl refl refl (λ own f. refl) h

-- The service itself sets its flag, and another thread's changes are not seen.
pub entered-Lost : (t u : Thread) (s : System) → Lost t s → Lost t (run_entering u s)
unfolding run_entering
entered-Lost udp_thread udp_thread s h =
    rw h.socket (record { socket = refl; no_stop = h.no_stop; live = refl })
entered-Lost tcp_thread tcp_thread s h =
    rw h.socket (record { socket = refl; no_stop = h.no_stop; live = refl })
entered-Lost tcp_thread udp_thread s h =
    if-Lost tcp_thread s.udp_socket _ _
      (record { socket = h.socket; no_stop = h.no_stop; live = h.live })
      (record { socket = h.socket; no_stop = h.no_stop; live = h.live })
entered-Lost udp_thread tcp_thread s h =
    if-Lost udp_thread s.tcp_socket _ _
      (record { socket = h.socket; no_stop = h.no_stop; live = h.live })
      (record { socket = h.socket; no_stop = h.no_stop; live = h.live })
entered-Lost udp_thread _ s h = record { socket = h.socket; no_stop = h.no_stop; live = h.live }
entered-Lost tcp_thread _ s h = record { socket = h.socket; no_stop = h.no_stop; live = h.live }
entered-Lost _ u s h = let never : false ≡ true = h.socket in cc

pub tested-live :
    (t u : Thread) (s : System)
    → is_testing (of u s.phases) ≡ true
    → same_thread t u ≡ true
    → is_live (of t s.running) (of u s.phases) ≡ true
    → is_live (of t s.running) (if of u s.running then working 0 else exited) ≡ true
tested-live t u s e own h =
    let flag : of t s.running ≡ true = testing_flag (of t s.running) (of u s.phases) e h in
    let set : of u s.running ≡ true =
      subst (λ v. of v s.running ≡ true) (same_thread_eq t u own) flag in
    rw (set, flag) refl
  where
    testing_flag : (b : Bool) (p : Phase) → is_testing p ≡ true → is_live b p ≡ true → b ≡ true
    testing_flag b testing e h = h
    testing_flag b _ e h = cc
