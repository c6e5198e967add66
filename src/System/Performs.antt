-- ===== src/System/Performs.antt =====
-- `main` goes on, seen from what it has left.
use smart_sensor_network.Prelude.{
  ◌≡◌, refl, sym, ap, ◌∙◌, Bool, true, false, ◌&&◌, ◌||◌, not, List, [], ◌∷◌,
}
use smart_sensor_network.System.Threads.{same_thread}
use smart_sensor_network.System.Script.{
  Thread, udp_thread, tcp_thread, Statement, write_log, start, join, clear, await_ready, pause,
  beat, enable_7, get_char, stop_logger,
}
use smart_sensor_network.System.State.{Phase, unborn, opening, of, is_unborn, System}
use smart_sensor_network.System.Steps.{may_execute, may_proceed, execute, perform}
use smart_sensor_network.System.Stopping.{is_inside}
use smart_sensor_network.System.Live.{will_clear}
use smart_sensor_network.System.Ordered.{
  will_start, will_await, is_service, in_order, is_opened, ready_of, Entry, IsOrderly, Orderly,
  put-both,
}

unborn_opened : (p : Phase) → is_unborn p ≡ true → is_opened p ≡ false
unborn_opened unborn e = refl
unborn_opened _ e = cc

unborn_outside : (p : Phase) → is_unborn p ≡ true → is_inside p ≡ false
unborn_outside unborn e = refl
unborn_outside _ e = cc

Entry-starts :
    (t : Thread) (rest : List Statement) {flag ready : Bool} (p : Phase)
    → is_unborn p ≡ true
    → will_start t rest ≡ false
    → Entry t (start t ∷ rest) flag ready p
    → Entry t rest flag ready opening
Entry-starts t rest p before once h =
    let shut : is_opened p ≡ false = unborn_opened p before in
    record {
      born = sym once;
      placed = refl;
      set = h.set;
      told = λ e. h.told e ∙ shut;
      awaited = λ e f. sym shut ∙ h.awaited e f;
      stopped = λ e f. sym shut ∙ h.stopped e f;
      over = λ e. cc;
      fresh = λ e f. h.fresh e (unborn_outside p before);
    }

Entry-start_other :
    (t u : Thread) (rest : List Statement) {flag ready : Bool} {p : Phase}
    → same_thread t u ≡ false
    → Entry t (start u ∷ rest) flag ready p
    → Entry t rest flag ready p
Entry-start_other t u rest other h = record {
  born = h.born ∙ ap (λ b. b || will_start t rest) other;
  placed = h.placed;
  set = h.set;
  told = h.told;
  awaited = h.awaited;
  stopped = h.stopped;
  over = h.over;
  fresh = h.fresh;
}

Entry-clears :
    (t : Thread) (rest : List Statement) {flag ready : Bool} {p : Phase}
    → will_clear t rest ≡ false
    → will_await rest ≡ false
    → Entry t (clear t ∷ rest) flag ready p
    → Entry t rest false ready p
Entry-clears t rest once ready h = record {
  born = h.born;
  placed = h.placed;
  set = λ e. sym once;
  told = h.told;
  awaited = h.awaited;
  stopped = λ e f. h.awaited e ready;
  over = λ e. refl;
  fresh = λ e f. refl;
}

Entry-clear_other :
    (t u : Thread) (rest : List Statement) {flag ready : Bool} {p : Phase}
    → same_thread t u ≡ false
    → Entry t (clear u ∷ rest) flag ready p
    → Entry t rest flag ready p
Entry-clear_other t u rest other h =
    let same : will_clear t (clear u ∷ rest) ≡ will_clear t rest =
      ap (λ b. b || will_clear t rest) other in
    record {
      born = h.born;
      placed = h.placed;
      set = λ e. h.set e ∙ same;
      told = h.told;
      awaited = h.awaited;
      stopped = λ e f. h.stopped e (same ∙ f);
      over = h.over;
      fresh = h.fresh;
    }

Entry-awaits :
    (t : Thread) (rest : List Statement) {flag ready : Bool} {p : Phase}
    → (is_service t ≡ true → ready ≡ true)
    → Entry t (await_ready ∷ rest) flag ready p
    → Entry t rest flag ready p
Entry-awaits t rest told h = record {
  born = h.born;
  placed = h.placed;
  set = h.set;
  told = h.told;
  awaited = λ e f. sym (h.told e) ∙ told e;
  stopped = h.stopped;
  over = h.over;
  fresh = h.fresh;
}

-- The thread whose statement is none of those above.
abbrev IsPlain : Statement → Type 0
IsPlain (start u) = ⊥
IsPlain (clear u) = ⊥
IsPlain await_ready = ⊥
IsPlain _ = Unit

Entry-plain :
    (t : Thread) (st : Statement) (rest : List Statement) {flag ready : Bool} {p : Phase}
    → IsPlain st
    → Entry t (st ∷ rest) flag ready p
    → Entry t rest flag ready p
Entry-plain t (start u) rest plain h = absurd plain
Entry-plain t (clear u) rest plain h = absurd plain
Entry-plain t await_ready rest plain h = absurd plain
Entry-plain t _ rest plain h = record {
  born = h.born;
  placed = h.placed;
  set = h.set;
  told = h.told;
  awaited = h.awaited;
  stopped = h.stopped;
  over = h.over;
  fresh = h.fresh;
}

pub and_cases : {a b : Bool} → a && b ≡ true → (a ≡ true) × (b ≡ true)
and_cases {a = true} {b = true} e = (refl, refl)
and_cases {a = true} {b = false} e = cc
and_cases {a = false} e = cc

pub not_cases : {b : Bool} → not b ≡ true → b ≡ false
not_cases {b = true} e = cc
not_cases {b = false} e = refl

pub perform-Orderly :
    (failed : Bool) (todo : List Statement) (s : System)
    → may_proceed todo s ≡ true
    → in_order todo ≡ true
    → IsOrderly todo s.running s.udp_ready s.tcp_ready s.phases
    → Orderly (perform failed todo s)
unfolding may_execute execute
perform-Orderly failed [] s e o h = cc
perform-Orderly failed (start u ∷ rest) s e o h =
    let (once, tail) = and_cases o in
    record {
      ordered = tail;
      entries = λ t.
          put-both (λ v p. Entry v rest (of v s.running) (ready_of v s.udp_ready s.tcp_ready) p) t u
            opening s.phases (Entry-starts u rest (of u s.phases) e (not_cases once) (h u))
            (λ other. Entry-start_other t u rest other (h t));
    }
perform-Orderly failed (clear u ∷ rest) s e o h =
    let (first, tail) = and_cases o in
    let (second, ready) = and_cases first in
    let (_, once) = and_cases second in
    record {
      ordered = tail;
      entries = λ t.
          put-both (λ v b. Entry v rest b (ready_of v s.udp_ready s.tcp_ready) (of v s.phases)) t u
            false s.running (Entry-clears u rest (not_cases once) (not_cases ready) (h u))
            (λ other. Entry-clear_other t u rest other (h t));
    }
perform-Orderly failed (await_ready ∷ rest) s e o h =
    let (udp, tcp) = and_cases e in
    let told : (t : Thread) → is_service t ≡ true → ready_of t s.udp_ready s.tcp_ready ≡ true =
      ready_told s.udp_ready s.tcp_ready udp tcp in
    record { ordered = (and_cases o).1; entries = λ t. Entry-awaits t rest (told t) (h t) }
  where
    ready_told :
        (a b : Bool)
        → a ≡ true
        → b ≡ true
        → (t : Thread) → is_service t ≡ true
        → ready_of t a b ≡ true
    ready_told a b p q udp_thread f = p
    ready_told a b p q tcp_thread f = q
    ready_told a b p q _ f = cc
perform-Orderly failed (join u ∷ rest) s e o h = record {
  ordered = (and_cases o).1;
  entries = λ t. Entry-plain t (join u) rest tt (h t);
}
perform-Orderly failed (write_log msg ∷ rest) s e o h = record {
  ordered = o;
  entries = λ t. Entry-plain t (write_log msg) rest tt (h t);
}
perform-Orderly failed (pause n ∷ rest) s e o h = record {
  ordered = o;
  entries = λ t. Entry-plain t (pause n) rest tt (h t);
}
perform-Orderly failed (beat k ∷ rest) s e o h = record {
  ordered = o;
  entries = λ t. Entry-plain t (beat k) rest tt (h t);
}
perform-Orderly failed (enable_7 ∷ rest) s e o h = record {
  ordered = o;
  entries = λ t. Entry-plain t enable_7 rest tt (h t);
}
perform-Orderly failed (get_char ∷ rest) s e o h = record {
  ordered = o;
  entries = λ t. Entry-plain t get_char rest tt (h t);
}
perform-Orderly failed (stop_logger ∷ rest) s e o h = record {
  ordered = o;
  entries = λ t. Entry-plain t stop_logger rest tt (h t);
}
