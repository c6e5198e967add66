-- ===== src/System/Stopping.antt =====
-- Threads at their loops whose flags are cleared.
use smart_sensor_network.Prelude.{
  ℕ, ◌≡◌, ◌⊎◌, inl, inr, refl, ◌==◌, ap, ◌∙◌, subst, Bool, true, false, List, [], ◌∷◌, Bool-cases,
  if◌then◌else◌,
}
use smart_sensor_network.System.Threads.{same_thread, same_thread_eq, put-keeps, put-other}
use smart_sensor_network.System.Script.{
  Thread, udp_thread, tcp_thread, dashboard_thread, watchdog_thread, telemetry_thread,
  heartbeat_thread, Statement, write_log, start, join, clear, await_ready, pause, beat, enable_7,
  get_char, stop_logger,
}
use smart_sensor_network.System.State.{
  Phase, unborn, opening, entering, testing, working, exited, of, put, is_unborn, is_opening,
  is_entering, next_place, System,
}
use smart_sensor_network.System.Steps.{
  may_execute, may_proceed, execute, perform, run_opening, run_entering,
}

-- A thread at its loop, or behind it.
abbrev pub is_inside : Phase → Bool
is_inside testing = true
is_inside (working k) = true
is_inside exited = true
is_inside _ = false

pub next_place-inside : (k : ℕ) → is_inside (next_place k) ≡ true
next_place-inside k = elim (Bool-cases (k == 6)) [
  | inl last ↦ rw last refl
  | inr other ↦ rw other refl
]

-- A thread that is at its loop or behind it, with its flag cleared.
pub record Stopping (t : Thread) (s : System) : Type 0 where
  pub cleared : of t s.running ≡ false
  pub inside : is_inside (of t s.phases) ≡ true

-- The phase of one thread changes, and stays inside if it was there.
pub moved-Stopping :
    (t u : Thread) (x : Phase) (s v : System)
    → v.running ≡ s.running
    → v.phases ≡ put u x s.phases
    → (is_inside (of u s.phases) ≡ true → is_inside x ≡ true)
    → Stopping t s
    → Stopping t v
moved-Stopping t u x s v same moved keep h = record {
  cleared = rw same h.cleared;
  inside = rw moved (put-keeps (λ q. is_inside q ≡ true) t u x s.phases keep h.inside);
}

pub kept-Stopping :
    (t : Thread) (s v : System)
    → v.running ≡ s.running
    → v.phases ≡ s.phases
    → Stopping t s
    → Stopping t v
kept-Stopping t s v same kept h = record { cleared = rw same h.cleared; inside = rw kept h.inside }

unborn-outside : (p : Phase) → is_unborn p ≡ true → is_inside p ≡ true → is_inside opening ≡ true
unborn-outside unborn e h = h
unborn-outside _ e h = cc

opening-outside : (p : Phase) → is_opening p ≡ true → is_inside p ≡ true → is_inside entering ≡ true
opening-outside opening e h = h
opening-outside _ e h = cc

entering-outside : (p : Phase) → is_entering p ≡ true → is_inside p ≡ true → ⊥
entering-outside entering e h = cc
entering-outside _ e h = cc

pub perform-Stopping :
    (t : Thread) (failed : Bool) (todo : List Statement) (s : System)
    → may_proceed todo s ≡ true
    → Stopping t s
    → Stopping t (perform failed todo s)
unfolding may_execute execute
perform-Stopping t failed [] s e h = cc
perform-Stopping t failed (start u ∷ rest) s e h =
    moved-Stopping t u opening s _ refl refl (unborn-outside (of u s.phases) e) h
perform-Stopping t failed (clear u ∷ rest) s e h = record {
  cleared = put-keeps (λ b. b ≡ false) t u false s.running (λ f. refl) h.cleared;
  inside = h.inside;
}
perform-Stopping t failed (join u ∷ rest) s e h = kept-Stopping t s _ refl refl h
perform-Stopping t failed (write_log msg ∷ rest) s e h = kept-Stopping t s _ refl refl h
perform-Stopping t failed (await_ready ∷ rest) s e h = kept-Stopping t s _ refl refl h
perform-Stopping t failed (pause n ∷ rest) s e h = kept-Stopping t s _ refl refl h
perform-Stopping t failed (beat k ∷ rest) s e h = kept-Stopping t s _ refl refl h
perform-Stopping t failed (enable_7 ∷ rest) s e h = kept-Stopping t s _ refl refl h
perform-Stopping t failed (get_char ∷ rest) s e h = kept-Stopping t s _ refl refl h
perform-Stopping t failed (stop_logger ∷ rest) s e h = kept-Stopping t s _ refl refl h

pub opened-Stopping :
    (t u : Thread) (s : System)
    → is_opening (of u s.phases) ≡ true
    → Stopping t s
    → Stopping t
        (let opened = run_opening u s in record opened { phases = put u entering opened.phases })
unfolding run_opening
opened-Stopping t udp_thread s e h =
    moved-Stopping t udp_thread entering s _ refl refl (opening-outside _ e) h
opened-Stopping t tcp_thread s e h =
    moved-Stopping t tcp_thread entering s _ refl refl (opening-outside _ e) h
opened-Stopping t dashboard_thread s e h =
    moved-Stopping t dashboard_thread entering s _ refl refl (opening-outside _ e) h
opened-Stopping t watchdog_thread s e h =
    moved-Stopping t watchdog_thread entering s _ refl refl (opening-outside _ e) h
opened-Stopping t telemetry_thread s e h =
    moved-Stopping t telemetry_thread entering s _ refl refl (opening-outside _ e) h
opened-Stopping t heartbeat_thread s e h =
    moved-Stopping t heartbeat_thread entering s _ refl refl (opening-outside _ e) h

if-Stopping :
    (t : Thread) (b : Bool) (s v : System)
    → Stopping t s
    → Stopping t v
    → Stopping t (if b then s else v)
if-Stopping t true s v h k = h
if-Stopping t false s v h k = k

-- Another thread enters what it runs.
other-Stopping :
    (t u : Thread) (x : Phase) (s v : System)
    → same_thread t u ≡ false
    → (v.running ≡ s.running) ⊎ (v.running ≡ put u true s.running)
    → v.phases ≡ put u x s.phases
    → Stopping t s
    → Stopping t v
other-Stopping t u x s v other flags moved h = record {
  cleared = elim flags [
    | inl same ↦ rw same h.cleared
    | inr set ↦ rw set (put-other t u true s.running other ∙ h.cleared)
  ];
  inside = rw moved (ap is_inside (put-other t u x s.phases other) ∙ h.inside);
}

other-enters :
    (t u : Thread) (s : System)
    → same_thread t u ≡ false
    → Stopping t s
    → Stopping t (run_entering u s)
unfolding run_entering
other-enters t udp_thread s other h =
    if-Stopping t s.udp_socket _ _ (other-Stopping t udp_thread testing s _ other (inr refl) refl h)
      (other-Stopping t udp_thread exited s _ other (inl refl) refl h)
other-enters t tcp_thread s other h =
    if-Stopping t s.tcp_socket _ _ (other-Stopping t tcp_thread testing s _ other (inr refl) refl h)
      (other-Stopping t tcp_thread exited s _ other (inl refl) refl h)
other-enters t dashboard_thread s other h =
    other-Stopping t dashboard_thread testing s _ other (inl refl) refl h
other-enters t watchdog_thread s other h =
    other-Stopping t watchdog_thread testing s _ other (inl refl) refl h
other-enters t telemetry_thread s other h =
    other-Stopping t telemetry_thread testing s _ other (inl refl) refl h
other-enters t heartbeat_thread s other h =
    other-Stopping t heartbeat_thread testing s _ other (inl refl) refl h

pub entered-Stopping :
    (t u : Thread) (s : System)
    → is_entering (of u s.phases) ≡ true
    → Stopping t s
    → Stopping t (run_entering u s)
entered-Stopping t u s e h = elim (Bool-cases (same_thread t u)) [
  | inl same ↦
      let inside : is_inside (of u s.phases) ≡ true =
        subst (λ v. is_inside (of v s.phases) ≡ true) (same_thread_eq t u same) h.inside in
      absurd (entering-outside (of u s.phases) e inside)
  | inr other ↦ other-enters t u s other h
]

pub tested_inside : (b : Bool) → is_inside (if b then working 0 else exited) ≡ true
tested_inside true = refl
tested_inside false = refl
