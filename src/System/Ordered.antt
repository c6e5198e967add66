-- ===== src/System/Ordered.antt =====
-- What the statements that `main` has left say of a thread.
use smart_sensor_network.Prelude.{
  ℕ, ◌≡◌, refl, sym, ◌∙◌, subst, Bool, true, false, ◌&&◌, ◌||◌, not, inl, inr, List, [], ◌∷◌, ltb,
  Bool-cases,
}
use smart_sensor_network.System.Threads.{same_thread, same_thread_eq, put-other, of-put-same}
use smart_sensor_network.System.Script.{
  Thread, udp_thread, tcp_thread, dashboard_thread, watchdog_thread, telemetry_thread,
  heartbeat_thread, Statement, start, join, clear, await_ready,
}
use smart_sensor_network.System.State.{
  Phase, unborn, opening, entering, testing, working, exited, PerThread, of, put, is_unborn,
  is_opening, is_exited, System,
}
use smart_sensor_network.System.Stopping.{is_inside}
use smart_sensor_network.System.Live.{will_clear}

-- Whether a thread is left to be made.
abbrev pub will_start : Thread → List Statement → Bool
will_start t [] = false
will_start t (start u ∷ rest) = same_thread t u || will_start t rest
will_start t (_ ∷ rest) = will_start t rest

abbrev pub will_await : List Statement → Bool
will_await [] = false
will_await (await_ready ∷ rest) = true
will_await (_ ∷ rest) = will_await rest

abbrev pub is_service : Thread → Bool
is_service udp_thread = true
is_service tcp_thread = true
is_service _ = false

-- A thread is made once, before it is stopped, and stopped once, before it is joined; the services are made
-- before they are awaited, and awaited before they are stopped.
abbrev pub in_order : List Statement → Bool
in_order [] = true
in_order (start t ∷ rest) = not (will_start t rest) && in_order rest
in_order (await_ready ∷ rest) =
    not (will_start udp_thread rest) && not (will_start tcp_thread rest) && in_order rest
in_order (clear t ∷ rest) =
    not (will_start t rest) && not (will_clear t rest) && not (will_await rest) && in_order rest
in_order (join t ∷ rest) = not (will_start t rest) && not (will_clear t rest) && in_order rest
in_order (_ ∷ rest) = in_order rest

abbrev pub is_opened : Phase → Bool
is_opened unborn = false
is_opened opening = false
is_opened _ = true

-- How many places the body of a thread's loop has.
abbrev pub places : Thread → ℕ
places udp_thread = 1
places dashboard_thread = 1
places tcp_thread = 2
places watchdog_thread = 2
places telemetry_thread = 7
places heartbeat_thread = 7

abbrev pub is_placed : Thread → Phase → Bool
is_placed t (working k) = ltb k (places t)
is_placed t _ = true

abbrev pub ready_of : Thread → Bool → Bool → Bool
ready_of udp_thread udp tcp = udp
ready_of tcp_thread udp tcp = tcp
ready_of _ udp tcp = false

-- A thread's flags and phase, beside what `main` has left.
pub record Entry (t : Thread) (todo : List Statement) (flag ready : Bool) (p : Phase) : Type 0 where
  pub born : is_unborn p ≡ will_start t todo
  pub placed : is_placed t p ≡ true
  pub set : is_service t ≡ false → flag ≡ will_clear t todo
  pub told : is_service t ≡ true → ready ≡ is_opened p
  pub awaited : is_service t ≡ true → will_await todo ≡ false → is_opened p ≡ true
  pub stopped : is_service t ≡ true → will_clear t todo ≡ false → is_opened p ≡ true
  pub over : is_exited p ≡ true → flag ≡ false
  pub fresh : is_service t ≡ true → is_inside p ≡ false → flag ≡ false

abbrev pub IsOrderly : List Statement → PerThread Bool → Bool → Bool → PerThread Phase → Type 0
IsOrderly todo running udp_ready tcp_ready phases =
    (t : Thread) → Entry t todo (of t running) (ready_of t udp_ready tcp_ready) (of t phases)

pub record Orderly (s : System) : Type 0 where
  pub ordered : in_order s.todo ≡ true
  pub entries : IsOrderly s.todo s.running s.udp_ready s.tcp_ready s.phases

-- The entry of one thread changes, and the others stay as they were.
pub put-both {ℓ κ} :
    {A : Type ℓ} (P : Thread → A → Type κ) (t u : Thread) (x : A) (p : PerThread A)
    → P u x
    → (same_thread t u ≡ false → P t (of t p))
    → P t (of t (put u x p))
put-both P t u x p new old = elim (Bool-cases (same_thread t u)) [
  | inl same ↦
      subst (λ v. P v (of v (put u x p))) (sym (same_thread_eq t u same))
        (subst (P u) (sym (of-put-same u x p)) new)
  | inr other ↦ subst (P t) (sym (put-other t u x p other)) (old other)
]

opened_born : (p : Phase) → is_opened p ≡ true → is_unborn p ≡ false
opened_born unborn e = cc
opened_born _ e = refl

inside_opened : (p : Phase) → is_inside p ≡ true → is_opened p ≡ true
inside_opened testing e = refl
inside_opened (working k) e = refl
inside_opened exited e = refl
inside_opened _ e = cc

-- A thread goes on behind its first lines.
pub Entry-moves :
    {t : Thread} {todo : List Statement} {flag ready : Bool} (p x : Phase)
    → is_opened p ≡ true
    → is_inside x ≡ true
    → is_placed t x ≡ true
    → (is_exited x ≡ true → flag ≡ false)
    → Entry t todo flag ready p
    → Entry t todo flag ready x
Entry-moves p x before within placed over h =
    let after : is_opened x ≡ true = inside_opened x within in
    record {
      born = opened_born x after ∙ sym (opened_born p before) ∙ h.born;
      placed = placed;
      set = h.set;
      told = λ e. h.told e ∙ before ∙ sym after;
      awaited = λ e f. after;
      stopped = λ e f. after;
      over = over;
      fresh = λ e f. let never : true ≡ false = sym within ∙ f in cc;
    }

opening_outside : (p : Phase) → is_opening p ≡ true → is_inside p ≡ false
opening_outside opening e = refl
opening_outside _ e = cc

opening_born : (p : Phase) → is_opening p ≡ true → is_unborn p ≡ false
opening_born opening e = refl
opening_born _ e = cc

-- A thread runs its first lines; a service tells that it is ready.
pub Entry-opens :
    {t : Thread} {todo : List Statement} {flag ready : Bool} (p : Phase)
    → is_opening p ≡ true
    → Entry t todo flag ready p
    → Entry t todo flag true entering
Entry-opens p before h = record {
  born = sym (opening_born p before) ∙ h.born;
  placed = refl;
  set = h.set;
  told = λ e. refl;
  awaited = λ e f. refl;
  stopped = λ e f. refl;
  over = λ e. cc;
  fresh = λ e f. h.fresh e (opening_outside p before);
}

-- A thread that is no service keeps no sign.
pub Entry-untold :
    {t : Thread} {todo : List Statement} {flag ready other : Bool} {p : Phase}
    → is_service t ≡ false
    → Entry t todo flag ready p
    → Entry t todo flag other p
Entry-untold none_of_them h = record {
  born = h.born;
  placed = h.placed;
  set = h.set;
  told = λ e. cc;
  awaited = h.awaited;
  stopped = h.stopped;
  over = h.over;
  fresh = h.fresh;
}
