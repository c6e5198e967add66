-- ===== src/System/Awaits.antt =====
-- The threads that `main` has left to join.
use smart_sensor_network.Prelude.{
  ℕ, ◌≡◌, ◌⊎◌, inl, inr, refl, sym, subst, Bool, true, false, ◌||◌, List, [], ◌∷◌, Bool-cases,
  if◌then◌else◌,
}
use smart_sensor_network.System.Threads.{same_thread, same_thread_eq, put-keeps}
use smart_sensor_network.System.Script.{
  Thread, udp_thread, tcp_thread, dashboard_thread, watchdog_thread, telemetry_thread,
  heartbeat_thread, Statement, write_log, start, join, clear, await_ready, pause, beat, enable_7,
  get_char, stop_logger,
}
use smart_sensor_network.System.State.{
  Phase, unborn, opening, entering, testing, working, exited, PerThread, of, put, is_unborn,
  is_opening, is_entering, is_testing, is_working, is_exited, works_at, System,
}
use smart_sensor_network.System.Steps.{
  may_execute, may_proceed, execute, perform, run_opening, run_entering,
}

-- Whether a `join` of the thread is left.
abbrev pub will_join : Thread → List Statement → Bool
will_join t [] = false
will_join t (join u ∷ rest) = same_thread t u || will_join t rest
will_join t (_ ∷ rest) = will_join t rest

abbrev pub IsAwaited : Thread → List Statement → PerThread Phase → Type 0
IsAwaited t todo p = (will_join t todo ≡ true) ⊎ (of t p ≡ exited)

-- A thread that has ended is not the one whose phase changes.
put-exited :
    (t u : Thread) (x : Phase) (p : PerThread Phase)
    → is_exited (of u p) ≡ false
    → of t p ≡ exited
    → of t (put u x p) ≡ exited
put-exited t u x p live e =
    put-keeps (λ q. q ≡ exited) t u x p (λ f. let never : true ≡ false = rw f at live in cc) e

pub put-IsAwaited :
    (t u : Thread) (x : Phase) (todo : List Statement) (p : PerThread Phase)
    → is_exited (of u p) ≡ false
    → IsAwaited t todo p
    → IsAwaited t todo (put u x p)
put-IsAwaited t u x todo p live (inl left) = inl left
put-IsAwaited t u x todo p live (inr ended) = inr (put-exited t u x p live ended)

unborn_live : (p : Phase) → is_unborn p ≡ true → is_exited p ≡ false
unborn_live unborn e = refl
unborn_live _ e = cc

opening_live : (p : Phase) → is_opening p ≡ true → is_exited p ≡ false
opening_live opening e = refl
opening_live _ e = cc

entering_live : (p : Phase) → is_entering p ≡ true → is_exited p ≡ false
entering_live entering e = refl
entering_live _ e = cc

pub testing_live : (p : Phase) → is_testing p ≡ true → is_exited p ≡ false
testing_live testing e = refl
testing_live _ e = cc

pub working_live : (p : Phase) → is_working p ≡ true → is_exited p ≡ false
working_live (working k) e = refl
working_live _ e = cc

pub works_at_live : (i : ℕ) (p : Phase) → works_at i p ≡ true → is_exited p ≡ false
works_at_live i (working k) e = refl
works_at_live i _ e = cc

exited_eq : (p : Phase) → is_exited p ≡ true → p ≡ exited
exited_eq exited e = refl
exited_eq _ e = cc

join-IsAwaited :
    (t u : Thread) (rest : List Statement) (p : PerThread Phase)
    → is_exited (of u p) ≡ true
    → IsAwaited t (join u ∷ rest) p
    → IsAwaited t rest p
join-IsAwaited t u rest p ended (inr e) = inr e
join-IsAwaited t u rest p ended (inl e) = elim (Bool-cases (same_thread t u)) [
  | inl same ↦
      inr (subst (λ v. of v p ≡ exited) (sym (same_thread_eq t u same)) (exited_eq _ ended))
  | inr other ↦ inl (rw other at e)
]

pub perform-IsAwaited :
    (t : Thread) (failed : Bool) (todo : List Statement) (s : System)
    → may_proceed todo s ≡ true
    → IsAwaited t todo s.phases
    → IsAwaited t (perform failed todo s).todo (perform failed todo s).phases
unfolding may_execute execute
perform-IsAwaited t failed [] s e h = cc
perform-IsAwaited t failed (start u ∷ rest) s e h =
    put-IsAwaited t u opening rest s.phases (unborn_live (of u s.phases) e) h
perform-IsAwaited t failed (join u ∷ rest) s e h = join-IsAwaited t u rest s.phases e h
perform-IsAwaited t failed (write_log msg ∷ rest) s e h = h
perform-IsAwaited t failed (clear u ∷ rest) s e h = h
perform-IsAwaited t failed (await_ready ∷ rest) s e h = h
perform-IsAwaited t failed (pause n ∷ rest) s e h = h
perform-IsAwaited t failed (beat k ∷ rest) s e h = h
perform-IsAwaited t failed (enable_7 ∷ rest) s e h = h
perform-IsAwaited t failed (get_char ∷ rest) s e h = h
perform-IsAwaited t failed (stop_logger ∷ rest) s e h = h

unfoldable pub Awaits : Thread → System → Type 0
Awaits t s = IsAwaited t s.todo s.phases

pub opening-Awaits :
    (t u : Thread) (s : System)
    → is_opening (of u s.phases) ≡ true
    → Awaits t s
    → Awaits t
        (let opened = run_opening u s in record opened { phases = put u entering opened.phases })
unfolding Awaits run_opening
opening-Awaits t udp_thread s e h =
    put-IsAwaited t udp_thread entering s.todo s.phases (opening_live _ e) h
opening-Awaits t tcp_thread s e h =
    put-IsAwaited t tcp_thread entering s.todo s.phases (opening_live _ e) h
opening-Awaits t dashboard_thread s e h =
    put-IsAwaited t dashboard_thread entering s.todo s.phases (opening_live _ e) h
opening-Awaits t watchdog_thread s e h =
    put-IsAwaited t watchdog_thread entering s.todo s.phases (opening_live _ e) h
opening-Awaits t telemetry_thread s e h =
    put-IsAwaited t telemetry_thread entering s.todo s.phases (opening_live _ e) h
opening-Awaits t heartbeat_thread s e h =
    put-IsAwaited t heartbeat_thread entering s.todo s.phases (opening_live _ e) h

if-Awaits :
    (t : Thread) (b : Bool) (s u : System) → Awaits t s → Awaits t u → Awaits t (if b then s else u)
if-Awaits t true s u h k = h
if-Awaits t false s u h k = k

pub entering-Awaits :
    (t u : Thread) (s : System)
    → is_entering (of u s.phases) ≡ true
    → Awaits t s
    → Awaits t (run_entering u s)
unfolding Awaits run_entering
entering-Awaits t udp_thread s e h =
    let kept = λ (x : Phase). put-IsAwaited t udp_thread x s.todo s.phases (entering_live _ e) h in
    if-Awaits t s.udp_socket _ _ (kept testing) (kept exited)
entering-Awaits t tcp_thread s e h =
    let kept = λ (x : Phase). put-IsAwaited t tcp_thread x s.todo s.phases (entering_live _ e) h in
    if-Awaits t s.tcp_socket _ _ (kept testing) (kept exited)
entering-Awaits t dashboard_thread s e h =
    put-IsAwaited t dashboard_thread testing s.todo s.phases (entering_live _ e) h
entering-Awaits t watchdog_thread s e h =
    put-IsAwaited t watchdog_thread testing s.todo s.phases (entering_live _ e) h
entering-Awaits t telemetry_thread s e h =
    put-IsAwaited t telemetry_thread testing s.todo s.phases (entering_live _ e) h
entering-Awaits t heartbeat_thread s e h =
    put-IsAwaited t heartbeat_thread testing s.todo s.phases (entering_live _ e) h
