-- ===== src/Logger/Shutdown.antt =====
-- `Logger::run` against `Logger::stop` and `Logger::log`, step by step. The worker holds the mutex while
-- it checks its predicate, blocks and drains; `stop` clears the flag and notifies without the mutex.
use smart_sensor_network.Prelude.{
  ℕ, ◌+◌, ◌-◌, ◌≡◌, ◌≢◌, ◌⊎◌, inl, inr, refl, Bool, true, false, Option, none, some, arith, ltb,
  ◌==◌, if◌then◌else◌,
}

-- The worker is about to: test the flag; take the mutex; check the predicate of `wait`; block on the
-- condition variable. Then it sleeps; has been woken; drains the queue; or has returned.
pub data Worker : Type 0 where
  testing locking checking blocking asleep waking draining exited : Worker

-- `stop()` has not been called; has cleared the flag; waits in `join`; has returned.
pub data Stopper : Type 0 where
  idle notifying joining joined : Stopper

-- `pending` is the length of the queue, and `notices` the number of calls of `log` that have left the
-- mutex and not yet notified.
pub record State : Type 0 where
  pub worker : Worker
  pub stopper : Stopper
  pub running : Bool
  pub pending : ℕ
  pub notices : ℕ

abbrev pub started : State
started = record { worker = testing; stopper = idle; running = true; pending = 0; notices = 0 }

pub data Action : Type 0 where
  work spurious push notify_one clear notify_all join : Action

-- The worker's next step, with no notification.
unfoldable pub work_step : Worker → State → Option State
work_step testing s = some (record s { worker = if s.running then locking else exited })
work_step locking s = some (record s { worker = checking })
work_step checking s = some (record s {
  worker = if ltb 0 s.pending then draining else if s.running then blocking else draining;
})
work_step blocking s = some (record s { worker = asleep })
work_step asleep s = none
work_step waking s = some (record s { worker = checking })
work_step draining s = some (record s { worker = testing; pending = 0 })
work_step exited s = none

abbrev pub woken : Worker → Worker
woken asleep = waking
woken w = w

-- The worker holds the mutex.
abbrev pub holds : Worker → Bool
holds checking = true
holds blocking = true
holds draining = true
holds _ = false

abbrev pub clear_step : Stopper → State → Option State
clear_step idle s = some (record s { stopper = notifying; running = false })
clear_step _ s = none

abbrev pub notify_step : Stopper → State → Option State
notify_step notifying s = some (record s { stopper = joining; worker = woken s.worker })
notify_step _ s = none

abbrev pub has_exited : Worker → Bool
has_exited exited = true
has_exited _ = false

abbrev pub join_step : Stopper → State → Option State
join_step joining s = if has_exited s.worker then some (record s { stopper = joined }) else none
join_step _ s = none

abbrev pub spurious_step : Worker → State → Option State
spurious_step asleep s = some (record s { worker = waking })
spurious_step _ s = none

-- An action, where it is possible.
unfoldable pub fire : Action → State → Option State
unfolding work_step
fire work s = work_step s.worker s
fire spurious s = spurious_step s.worker s
fire push s =
    if holds s.worker
    then none
    else some (record s { pending = s.pending + 1; notices = s.notices + 1 })
fire notify_one s =
    if s.notices == 0
    then none
    else some (record s { worker = woken s.worker; notices = s.notices - 1 })
fire clear s = clear_step s.stopper s
fire notify_all s = notify_step s.stopper s
fire join s = join_step s.stopper s

pub data Steps (s : State) : State → Type 0 where
  here : Steps s s
  next : {t u : State} → Steps s t → (a : Action) → fire a t ≡ some u → Steps s u

-- The flag is cleared once `stop` has begun, and `stop` returns only behind the worker.
pub record IsOrderly (s : State) : Type 0 where
  pub flag : s.stopper ≢ idle → s.running ≡ false
  pub behind : s.stopper ≡ joined → s.worker ≡ exited
  pub ended : s.worker ≡ exited → s.running ≡ false

work_step-IsOrderly :
    (w : Worker) (s t : State) → s.worker ≡ w → work_step w s ≡ some t → IsOrderly s → IsOrderly t
unfolding work_step
work_step-IsOrderly testing s t w e h = ground (arith, h.flag, h.behind, h.ended)
work_step-IsOrderly locking s t w e h = ground (arith, h.flag, h.behind, h.ended)
work_step-IsOrderly checking s t w e h = ground (arith, h.flag, h.behind, h.ended)
work_step-IsOrderly blocking s t w e h = ground (arith, h.flag, h.behind, h.ended)
work_step-IsOrderly asleep s t w e h = cc
work_step-IsOrderly waking s t w e h = ground (arith, h.flag, h.behind, h.ended)
work_step-IsOrderly draining s t w e h = ground (arith, h.flag, h.behind, h.ended)
work_step-IsOrderly exited s t w e h = cc

fire-IsOrderly : (a : Action) (s t : State) → fire a s ≡ some t → IsOrderly s → IsOrderly t
unfolding fire
fire-IsOrderly work s t e h = work_step-IsOrderly s.worker s t refl e h
fire-IsOrderly spurious s t e h = ground (arith, h.flag, h.behind, h.ended)
fire-IsOrderly push s t e h = ground (arith, h.flag, h.behind, h.ended)
fire-IsOrderly notify_one s t e h = ground (arith, h.flag, h.behind, h.ended)
fire-IsOrderly clear s t e h = ground (arith, h.flag, h.behind, h.ended)
fire-IsOrderly notify_all s t e h = ground (arith, h.flag, h.behind, h.ended)
fire-IsOrderly join s t e h = ground (arith, h.flag, h.behind, h.ended)

Steps-IsOrderly : {s t : State} → Steps s t → IsOrderly s → IsOrderly t
Steps-IsOrderly here h = h
Steps-IsOrderly (next {t} {u} r a e) h = fire-IsOrderly a t u e (Steps-IsOrderly r h)

started-IsOrderly : IsOrderly started
started-IsOrderly = ground arith

-- `stop` returns only when the flag is cleared and the worker has returned, in every interleaving of the
-- worker, of one call of `stop` and of any calls of `log`.
pub Steps-joined :
    {s : State} → Steps started s → s.stopper ≡ joined → (s.worker ≡ exited) × (s.running ≡ false)
Steps-joined r e = let h = Steps-IsOrderly r started-IsOrderly in (h.behind e, h.ended (h.behind e))

-- `stop` waits for a worker that sleeps and that nobody is about to notify.
pub record IsHung (s : State) : Type 0 where
  pub sleeps : s.worker ≡ asleep
  pub waits : s.stopper ≡ joining
  pub unnoticed : s.notices ≡ 0

-- The lost wake-up: whenever the worker has found the queue empty and the flag set and has not yet
-- blocked, `stop` has not begun and no notification of `log` is under way, a whole `stop` up to its `join` can pass, and the worker then sleeps.
pub blocking-IsHung :
    (s : State)
    → s.worker ≡ blocking
    → s.stopper ≡ idle
    → s.notices ≡ 0
    → (t : State) × Steps s t × IsHung t
unfolding fire
blocking-IsHung s w st n =
    let cleared : State = record s { stopper = notifying; running = false } in
    let notified : State = record cleared { stopper = joining } in
    let slept : State = record notified { worker = asleep } in
    (
      slept,
      next {t = notified}
          (next {t = cleared} (next {t = s} here clear (rw st refl)) notify_all (rw w refl)) work
          (rw w refl),
      record { sleeps = refl; waits = refl; unnoticed = n },
    )

-- Such a hang lasts: no step of the worker or of `stop` is possible, only a further call of `log` or a
-- spurious wake-up.
pub IsHung-stays :
    (s t : State) (a : Action) → IsHung s → fire a s ≡ some t → (a ≡ spurious) ⊎ (a ≡ push)
unfolding fire
IsHung-stays s t work h e = ground (arith, h.sleeps, h.waits, h.unnoticed)
IsHung-stays s t spurious h e = inl refl
IsHung-stays s t push h e = inr refl
IsHung-stays s t notify_one h e = ground (arith, h.sleeps, h.waits, h.unnoticed)
IsHung-stays s t clear h e = ground (arith, h.sleeps, h.waits, h.unnoticed)
IsHung-stays s t notify_all h e = ground (arith, h.sleeps, h.waits, h.unnoticed)
IsHung-stays s t join h e = ground (arith, h.sleeps, h.waits, h.unnoticed)
