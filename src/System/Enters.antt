-- ===== src/System/Enters.antt =====
-- A thread enters what it runs, seen from what `main` has left.
use smart_sensor_network.Prelude.{
  ℕ, ◌≡◌, refl, sym, ap, ◌∙◌, Bool, true, false, inl, inr, List, arith, Bool-cases, ltb, ◌==◌,
  if◌then◌else◌,
}
use smart_sensor_network.System.Script.{
  Thread, udp_thread, tcp_thread, dashboard_thread, watchdog_thread, telemetry_thread,
  heartbeat_thread, Statement,
}
use smart_sensor_network.System.State.{
  Phase, opening, entering, testing, working, exited, PerThread, of, put, is_opening, is_entering,
  is_testing, is_exited, is_working, works_at, place, next_place, System,
}
use smart_sensor_network.System.Steps.{run_entering}
use smart_sensor_network.System.Stopping.{is_inside}
use smart_sensor_network.System.Ordered.{
  is_service, is_opened, places, is_placed, ready_of, Entry, IsOrderly, Orderly, put-both,
  Entry-moves,
}

opening_shut : (p : Phase) → is_opening p ≡ true → is_opened p ≡ false
opening_shut opening e = refl
opening_shut _ e = cc

entering_opened : (p : Phase) → is_entering p ≡ true → is_opened p ≡ true
entering_opened entering e = refl
entering_opened _ e = cc

pub testing_opened : (p : Phase) → is_testing p ≡ true → is_opened p ≡ true
testing_opened testing e = refl
testing_opened _ e = cc

pub working_opened : (p : Phase) → is_working p ≡ true → is_opened p ≡ true
working_opened (working k) e = refl
working_opened _ e = cc

pub works_at_opened : (i : ℕ) (p : Phase) → works_at i p ≡ true → is_opened p ≡ true
works_at_opened i (working k) e = refl
works_at_opened i _ e = cc

pub next_placed :
    (t : Thread) (p : Phase)
    → places t ≡ 7
    → is_working p ≡ true
    → is_placed t p ≡ true
    → is_placed t (next_place (place p)) ≡ true
next_placed t (working k) seven e h =
    let few : ltb k 7 ≡ true = rw seven at h in
    elim (Bool-cases (k == 6)) [
      | inl last ↦ rw last refl
      | inr other ↦ rw (other, seven) (ground arith)
    ]
next_placed t _ seven e h = cc

pub tested_over : (b : Bool) → is_exited (if b then working 0 else exited) ≡ true → b ≡ false
tested_over true e = cc
tested_over false e = refl

pub next_inside : (k : ℕ) {b : Bool} → is_exited (next_place k) ≡ true → b ≡ false
next_inside k e = let never : is_exited (next_place k) ≡ false = ground arith in cc

entering_outside : (p : Phase) → is_entering p ≡ true → is_inside p ≡ false
entering_outside entering e = refl
entering_outside _ e = cc

pub tested_placed : (t : Thread) (b : Bool) → is_placed t (if b then working 0 else exited) ≡ true
tested_placed udp_thread true = refl
tested_placed _ true = refl
tested_placed _ false = refl

pub put-IsOrderly :
    (u : Thread) (x : Phase) (s : System)
    → is_opened (of u s.phases) ≡ true
    → is_inside x ≡ true
    → is_placed u x ≡ true
    → (is_exited x ≡ true → of u s.running ≡ false)
    → Orderly s
    → IsOrderly s.todo s.running s.udp_ready s.tcp_ready (put u x s.phases)
put-IsOrderly u x s before after placed over h = λ t.
    put-both (λ v p. Entry v s.todo (of v s.running) (ready_of v s.udp_ready s.tcp_ready) p) t u x
      s.phases (Entry-moves (of u s.phases) x before after placed over (h.entries u))
      λ other. h.entries t

-- A service sets its flag.
Entry-reset :
    {t : Thread} {todo : List Statement} {flag other ready : Bool} {p : Phase}
    → is_service t ≡ true
    → (is_inside p ≡ false → other ≡ false)
    → (is_exited p ≡ true → ⊥)
    → Entry t todo flag ready p
    → Entry t todo other ready p
Entry-reset own fresh going h = record {
  born = h.born;
  placed = h.placed;
  set = λ e. cc;
  told = h.told;
  awaited = h.awaited;
  stopped = h.stopped;
  over = λ e. absurd (going e);
  fresh = λ e. fresh;
}

set-IsOrderly :
    (u : Thread) (todo : List Statement) (running : PerThread Bool) (a b : Bool)
    (phases : PerThread Phase)
    → is_service u ≡ true
    → of u phases ≡ testing
    → IsOrderly todo running a b phases
    → IsOrderly todo (put u true running) a b phases
set-IsOrderly u todo running a b phases own at h = λ t.
    put-both (λ v f. Entry v todo f (ready_of v a b) (of v phases)) t u true running
      (Entry-reset own (λ f. let never : true ≡ false = sym (ap is_inside at) ∙ f in cc)
        (λ f. let never : false ≡ true = sym (ap is_exited at) ∙ f in cc) (h u))
      λ other. h t

if-Orderly : (b : Bool) (s v : System) → Orderly s → Orderly v → Orderly (if b then s else v)
if-Orderly true s v h k = h
if-Orderly false s v h k = k

pub run_entering-Orderly :
    (t : Thread) (s : System)
    → is_entering (of t s.phases) ≡ true
    → Orderly s
    → Orderly (run_entering t s)
unfolding run_entering
run_entering-Orderly udp_thread s e h =
    let opened = entering_opened s.phases.udp e in
    if-Orderly s.udp_socket _ _
      (record {
        ordered = h.ordered;
        entries =
            set-IsOrderly udp_thread s.todo s.running s.udp_ready s.tcp_ready
              (put udp_thread testing s.phases) refl refl
              (put-IsOrderly udp_thread testing s opened refl refl (λ f. cc) h);
      })
      (record {
        ordered = h.ordered;
        entries =
            put-IsOrderly udp_thread exited s opened refl refl
              (λ f. (h.entries udp_thread).fresh refl (entering_outside _ e)) h;
      })
run_entering-Orderly tcp_thread s e h =
    let opened = entering_opened s.phases.tcp e in
    if-Orderly s.tcp_socket _ _
      (record {
        ordered = h.ordered;
        entries =
            set-IsOrderly tcp_thread s.todo s.running s.udp_ready s.tcp_ready
              (put tcp_thread testing s.phases) refl refl
              (put-IsOrderly tcp_thread testing s opened refl refl (λ f. cc) h);
      })
      (record {
        ordered = h.ordered;
        entries =
            put-IsOrderly tcp_thread exited s opened refl refl
              (λ f. (h.entries tcp_thread).fresh refl (entering_outside _ e)) h;
      })
run_entering-Orderly dashboard_thread s e h = record {
  ordered = h.ordered;
  entries = put-IsOrderly dashboard_thread testing s (entering_opened _ e) refl refl (λ f. cc) h;
}
run_entering-Orderly watchdog_thread s e h = record {
  ordered = h.ordered;
  entries = put-IsOrderly watchdog_thread testing s (entering_opened _ e) refl refl (λ f. cc) h;
}
run_entering-Orderly telemetry_thread s e h = record {
  ordered = h.ordered;
  entries = put-IsOrderly telemetry_thread testing s (entering_opened _ e) refl refl (λ f. cc) h;
}
run_entering-Orderly heartbeat_thread s e h = record {
  ordered = h.ordered;
  entries = put-IsOrderly heartbeat_thread testing s (entering_opened _ e) refl refl (λ f. cc) h;
}
