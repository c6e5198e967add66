-- ===== src/System/Finishes.antt =====
-- The end of the demo, from wherever it stands.
use smart_sensor_network.Prelude.{
  ℕ, ◌<◌, ◌^◌, ◌≡◌, ◌⊎◌, refl, sym, ap, ◌∙◌, subst, Bool, true, false, ◌||◌, none, some, inl, inr,
  List, [], ◌∷◌, Bytes, Bool-cases,
}
use smart_sensor_network.Gateway.Invariant.{IsTime}
use smart_sensor_network.Tcp.Server.{Server}
use smart_sensor_network.Udp.{Receiver}
use smart_sensor_network.System.Threads.{same_thread, same_thread_eq, of-put-same}
use smart_sensor_network.System.Script.{Thread, Statement, start, clear, beat}
use smart_sensor_network.System.State.{put, System, proceed}
use smart_sensor_network.System.Steps.{
  may_execute, may_proceed, execute, perform, allowed, apply, Reach, here, next,
}
use smart_sensor_network.System.Runs.{Reach-trans}
use smart_sensor_network.System.Live.{will_clear}
use smart_sensor_network.System.Stopping.{Stopping}
use smart_sensor_network.System.Stops.{Reach-Stopping}
use smart_sensor_network.System.Ordered.{is_service}
use smart_sensor_network.System.Drives.{beat_node-thrown, Gone, fires}
use smart_sensor_network.System.Readies.{Stoppable, Prepared, Fine, readies}

execute-quiet : (st : Statement) (s : System) → (execute false st s).world.thrown ≡ s.world.thrown
unfolding execute
execute-quiet (beat k) s = beat_node-thrown k s.world
execute-quiet (start t) s = refl
execute-quiet _ s = refl

execute-todo : (failed : Bool) (st : Statement) (s : System) → (execute failed st s).todo ≡ s.todo
unfolding execute
execute-todo failed (start t) s = refl
execute-todo failed _ s = refl

-- A service whose `stop()` comes next is stopped by it.
execute-Stoppable :
    (t : Thread) (st : Statement) (rest : List Statement) (v : System)
    → will_clear t (st ∷ rest) ≡ true
    → Prepared st v
    → (will_clear t rest ≡ true) ⊎ Stopping t (execute false st (record v { todo = rest }))
unfolding execute
execute-Stoppable t (clear u) rest v left inside = elim (Bool-cases (same_thread t u)) [
  | inl same ↦ inr (
      subst (λ w. Stopping w (record v { todo = rest; running = put u false v.running }))
        (sym (same_thread_eq t u same))
        (record { cleared = of-put-same u false v.running; inside = inside }))
  | inr other ↦ inl (sym (ap (λ b. b || will_clear t rest) other) ∙ left)
]
execute-Stoppable t (start u) rest v left inside = inl left
execute-Stoppable t _ rest v left inside = inl left

module _ (sub : ℕ → ℕ → ℕ) (show : ℕ → Bytes) where
  execs :
      (st : Statement) (rest : List Statement) (v : System)
      → v.world.thrown ≡ none
      → v.todo ≡ st ∷ rest
      → may_execute st v ≡ true
      → Reach sub show v (execute false st (record v { todo = rest }))
  unfolding apply allowed
  execs st rest v quiet e possible = next here (proceed false) (
      fires sub show (proceed false) v quiet (ap (λ l. may_proceed l v) e ∙ possible)
      ∙ ap (λ l. some (perform false l v)) e)

  pub Gone-Stoppable :
      (t : Thread) {s v : System} → Gone sub show s v → Stoppable t s → Stoppable t v
  Gone-Stoppable t gone (inl left) = inl (ap (will_clear t) gone.stays ∙ left)
  Gone-Stoppable t gone (inr stopping) = inr (Reach-Stopping sub show t stopping gone.reach)

  -- The end of the demo, come to without an exception.
  pub record Finish (s : System) : Type 0 where
    pub last : System
    pub reach : Reach sub show s last
    pub calm : last.world.thrown ≡ none
    pub nothing_left : last.todo ≡ []

  module _ (sub_lt : (a b : ℕ) → sub a b < 2 ^ 64) (receiver : Receiver) (server : Server)
      (clock : ℕ) (time : IsTime clock) where
    abbrev IsFine : System → Type 0
    IsFine = Fine sub show sub_lt receiver server clock time

    pub finishes :
        (todo : List Statement) (s : System)
        → s.todo ≡ todo
        → IsFine s
        → ((t : Thread) → is_service t ≡ true → Stoppable t s)
        → Finish s
    finishes [] s e fine stoppable = record {
      last = s;
      reach = here;
      calm = fine.calm;
      nothing_left = e;
    }
    finishes (st ∷ rest) s e fine stoppable =
        let (v, gone, (possible, prepared)) =
          readies sub show sub_lt receiver server clock time st rest s fine e stoppable in
        let u : System = execute false st (record v { todo = rest }) in
        let here_is : v.todo ≡ st ∷ rest = gone.stays ∙ e in
        let on : Reach sub show v u = execs st rest v gone.quiet here_is possible in
        let whole : Reach sub show s u = Reach-trans sub show gone.reach on in
        let left : u.todo ≡ rest = execute-todo false st (record v { todo = rest }) in
        let fine' : IsFine u = record {
          reached = Reach-trans sub show fine.reached whole;
          calm = execute-quiet st (record v { todo = rest }) ∙ gone.quiet;
        } in
        let later : (t : Thread) → is_service t ≡ true → Stoppable t u = λ t service.
          elim (Gone-Stoppable t gone (stoppable t service)) [
            | inr stopping ↦ inr (Reach-Stopping sub show t stopping on)
            | inl waits ↦
                elim (execute-Stoppable t st rest v (sym (ap (will_clear t) here_is) ∙ waits)
                  prepared) [
                    | inl still ↦ inl (ap (will_clear t) left ∙ still)
                    | inr stopping ↦ inr stopping
                  ]
          ] in
        let f : Finish u = finishes rest u left fine' later in
        record {
          last = f.last;
          reach = Reach-trans sub show whole f.reach;
          calm = f.calm;
          nothing_left = f.nothing_left;
        }
