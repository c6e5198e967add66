-- ===== src/System/Outcome.antt =====
-- Whether the demo can still come to its end.
use smart_sensor_network.Prelude.{
  ℕ, ◌<◌, ◌^◌, ◌≡◌, ◌⊎◌, ◌↔◌, refl, sym, ap, ◌∙◌, subst, true, false, none, inl, inr, Bytes,
  Bool-cases,
}
use smart_sensor_network.Gateway.Invariant.{IsTime}
use smart_sensor_network.Tcp.Server.{Server, not_initialized_log}
use smart_sensor_network.Udp.{Receiver, no_socket_log}
use smart_sensor_network.System.World.{World, note}
use smart_sensor_network.System.Threads.{same_thread, put-other, of-put-same}
use smart_sensor_network.System.Script.{Thread, udp_thread, tcp_thread}
use smart_sensor_network.System.State.{
  Phase, entering, testing, working, exited, of, put, is_exited, System, enter, initial,
}
use smart_sensor_network.System.Steps.{run_entering, allowed, apply, Reach}
use smart_sensor_network.System.Runs.{Reach-trans}
use smart_sensor_network.System.Live.{will_clear, has_socket, is_live, Lost}
use smart_sensor_network.System.Lost.{Reach-Lost, exited_dead}
use smart_sensor_network.System.Joins.{Reach-exited}
use smart_sensor_network.System.Stopping.{is_inside}
use smart_sensor_network.System.Ordered.{is_service, is_opened, ready_of, Entry}
use smart_sensor_network.System.Powered.{Powered, Reach-Powered}
use smart_sensor_network.System.Drives.{Gone, Gone-trans, Gone-here, acts}
use smart_sensor_network.System.Readies.{Stoppable, Fine, Fine-Gone, Fine-Orderly}
use smart_sensor_network.System.Finishes.{Finish, finishes, Gone-Stoppable}

-- A service with no socket before `run()`, which does not come to its loop.
record Bare (t : Thread) (s : System) : Type 0 where
  at : of t s.phases ≡ entering
  bare : has_socket t s ≡ false
  flag : of t s.running ≡ false

abbrev Settles : Thread → System → Type 0
Settles t s = Stoppable t s ⊎ Bare t s

-- `run()` without a socket returns.
run_entering-bare :
    (t : Thread) (s : System)
    → is_service t ≡ true
    → has_socket t s ≡ false
    → (w : World) × (w.thrown ≡ s.world.thrown)
      × (run_entering t s ≡ record s { world = w; phases = put t exited s.phases })
unfolding run_entering
run_entering-bare udp_thread s service bare = (note no_socket_log s.world, refl, rw bare refl)
run_entering-bare tcp_thread s service bare = (note not_initialized_log s.world, refl, rw bare refl)
run_entering-bare _ s service bare = cc

other_Bare :
    (t u : Thread) (w : World) (s : System)
    → same_thread u t ≡ false
    → Bare u s
    → Bare u (record s { world = w; phases = put t exited s.phases })
other_Bare t u w s other h = record {
  at = put-other u t exited s.phases other ∙ h.at;
  bare = h.bare;
  flag = h.flag;
}

module _ (sub : ℕ → ℕ → ℕ) (show : ℕ → Bytes) where
  settles :
      (t u : Thread) (s : System)
      → s.world.thrown ≡ none
      → is_service t ≡ true
      → same_thread u t ≡ false
      → Settles t s
      → Settles u s
      → (v : System) × Gone sub show s v × Stoppable t v × Settles u v
  unfolding apply allowed
  settles t u s quiet service other (inl stoppable) waits =
      (s, Gone-here sub show s quiet, stoppable, waits)
  settles t u s quiet service other (inr h) waits =
      let (w, same, e) = run_entering-bare t s service h.bare in
      let v : System = record s { world = w; phases = put t exited s.phases } in
      let gone : Gone sub show s v = subst (Gone sub show s) e (
        acts sub show (enter t) s quiet (rw h.at refl) (ap (λ x. x.world.thrown) e ∙ same ∙ quiet)
          (ap (λ x. x.todo) e)) in
      (
        v,
        gone,
        inr (record { cleared = h.flag; inside = ap is_inside (of-put-same t exited s.phases) }),
        elim waits [
          | inl stoppable ↦ inl (Gone-Stoppable sub show u gone stoppable)
          | inr bare ↦ inr (other_Bare t u w s other bare)
        ],
      )

-- A service that is not lost, by its phase.
inside_case :
    (t : Thread) (s : System)
    → Powered s
    → is_service t ≡ true
    → will_clear t s.todo ≡ false
    → is_inside (of t s.phases) ≡ true
    → (of t s.running ≡ true → is_live (of t s.running) (of t s.phases) ≡ true)
    → ¬ Lost t s
    → Settles t s
inside_case t s powered service done inside live sound = elim (Bool-cases (of t s.running)) [
  | inl set ↦
      absurd
        (sound (record { socket = powered.powered t service set; no_stop = done; live = live set }))
  | inr cleared ↦ inl (inr (record { cleared = cleared; inside = inside }))
]

classify :
    (t : Thread) (p : Phase) (s : System)
    → Powered s
    → Entry t s.todo (of t s.running) (ready_of t s.udp_ready s.tcp_ready) (of t s.phases)
    → is_service t ≡ true
    → will_clear t s.todo ≡ false
    → of t s.phases ≡ p
    → ¬ Lost t s
    → Settles t s
classify t entering s powered entry service done at sound = elim (Bool-cases (has_socket t s)) [
  | inl socket ↦ absurd (sound (record { socket = socket; no_stop = done; live = rw at refl }))
  | inr bare ↦ inr (record { at = at; bare = bare; flag = entry.fresh service (ap is_inside at) })
]
classify t testing s powered entry service done at sound =
    inside_case t s powered service done (ap is_inside at) (λ set. rw at set) sound
classify t (working k) s powered entry service done at sound =
    inside_case t s powered service done (ap is_inside at) (λ set. rw at set) sound
classify t exited s powered entry service done at sound =
    inl (inr (record { cleared = entry.over (ap is_exited at); inside = ap is_inside at }))
classify t _ s powered entry service done at sound =
    let never : false ≡ true = sym (ap is_opened at) ∙ entry.stopped service done in cc

module _ (sub : ℕ → ℕ → ℕ) (show : ℕ → Bytes) (sub_lt : (a b : ℕ) → sub a b < 2 ^ 64)
    (receiver : Receiver) (server : Server) (clock : ℕ) (time : IsTime clock) where
  abbrev IsFine : System → Type 0
  IsFine = Fine sub show sub_lt receiver server clock time

  classified : (t : Thread) (s : System) → IsFine s → is_service t ≡ true → ¬ Lost t s → Settles t s
  classified t s fine service sound = elim (Bool-cases (will_clear t s.todo)) [
    | inl left ↦ inl (inl left)
    | inr done ↦
        classify t (of t s.phases) s (Reach-Powered sub show receiver server clock fine.reached)
          ((Fine-Orderly sub show sub_lt receiver server clock time fine).entries t) service done
          refl sound
  ]

  finish : (s : System) → IsFine s → ¬ Lost udp_thread s → ¬ Lost tcp_thread s → Finish sub show s
  finish s fine udp tcp =
      let (u, gone, udp_stops, tcp_settles) =
        settles sub show udp_thread tcp_thread s fine.calm refl refl
          (classified udp_thread s fine refl udp) (classified tcp_thread s fine refl tcp) in
      let (v, more, tcp_stops, udp_settles) =
        settles sub show tcp_thread udp_thread u gone.quiet refl refl tcp_settles (inl udp_stops) in
      let whole : Gone sub show s v = Gone-trans sub show gone more in
      let fine' : IsFine v = Fine-Gone sub show sub_lt receiver server clock time fine whole in
      let udp_stops' : Stoppable udp_thread v = Gone-Stoppable sub show udp_thread more udp_stops in
      let f : Finish sub show v =
        finishes sub show sub_lt receiver server clock time v.todo v refl fine'
          (stops v udp_stops' tcp_stops) in
      record {
        last = f.last;
        reach = Reach-trans sub show whole.reach f.reach;
        calm = f.calm;
        nothing_left = f.nothing_left;
      }
    where
      stops :
          (v : System)
          → Stoppable udp_thread v
          → Stoppable tcp_thread v
          → (t : Thread) → is_service t ≡ true
          → Stoppable t v
      stops v udp tcp udp_thread e = udp
      stops v udp tcp tcp_thread e = tcp
      stops v udp tcp _ e = cc

module _ (sub : ℕ → ℕ → ℕ) (show : ℕ → Bytes) where
  Finish_sound :
      (t : Thread) (receiver : Receiver) (server : Server) (clock : ℕ) {s : System}
      → Reach sub show (initial receiver server clock) s
      → Finish sub show s
      → ¬ Lost t s
  Finish_sound t receiver server clock r f lost =
      exited_dead sub show (of t f.last.running) (of t f.last.phases)
        (Reach-Lost sub show t lost f.reach).live
        (Reach-exited sub show t receiver server clock (Reach-trans sub show r f.reach)
          f.nothing_left)

  -- From a state that the demo can come to, from a start at a time behind the epoch and within 64 bits
  -- and with differences of doubles that are patterns of 64 bits, and in which no exception was
  -- thrown, some schedule leads `main` to its end, with no exception on the way, exactly when neither
  -- the receiver nor the server, with a socket and with its `stop()` done, is still before `run()` or
  -- in its loop with the flag set.
  pub Reach-Finish :
      (sub_lt : (a b : ℕ) → sub a b < 2 ^ 64) (receiver : Receiver) (server : Server) (clock : ℕ)
      {s : System}
      → IsTime clock
      → Reach sub show (initial receiver server clock) s
      → s.world.thrown ≡ none
      → Finish sub show s ↔ (¬ Lost udp_thread s × ¬ Lost tcp_thread s)
  Reach-Finish sub_lt receiver server clock {s} time r quiet = (
    λ f. (
      Finish_sound udp_thread receiver server clock r f,
      Finish_sound tcp_thread receiver server clock r f,
    ),
    λ h.
        finish sub show sub_lt receiver server clock time s (record { reached = r; calm = quiet })
          h.0 h.1,
  )
