-- ===== src/System/Idle.antt =====
-- A client that is connected and sends nothing, while `read` blocks in `handleClient`.
use smart_sensor_network.Prelude.{
  ◌==◌, ℕ, ◌≡◌, ◌≢◌, inl, inr, refl, sym, ap, ◌∙◌, subst, Bool, true, false, List, [], ◌∷◌, arith,
  Bool-cases, Option-cases, Bytes, All,
}
use smart_sensor_network.Udp.{Receiver}
use smart_sensor_network.Tcp.Server.{Server}
use smart_sensor_network.System.Threads.{put-keeps}
use smart_sensor_network.System.Script.{Thread, udp_thread, tcp_thread, Statement, start}
use smart_sensor_network.System.State.{
  Phase, unborn, opening, entering, testing, working, exited, PerThread, of, put, is_unborn,
  is_opening, is_entering, is_testing, is_exited, works_at, System, Action, proceed, open_thread,
  enter, test, accept_next, converse, initial,
}
use smart_sensor_network.System.Steps.{
  may_execute, may_proceed, execute, perform, run_opening, run_entering, allowed, apply, fire,
  fire-eq-some, Reach,
}
use smart_sensor_network.System.Runs.{go, Reach-go, Reach-trans, or_stay}
use smart_sensor_network.System.Joins.{Reach-exited}

-- What the client sends, or its end.
abbrev pub is_converse : Action → Bool
is_converse (converse x) = true
is_converse _ = false

-- Whether a thread is in the middle of a session.
abbrev is_talking : Phase → Bool
is_talking (working k) = k == 1
is_talking _ = false

talking_eq : (p : Phase) → is_talking p ≡ true → p ≡ working 1
talking_eq (working k) e = let one : k ≡ 1 = ground arith in ap working one
talking_eq _ e = cc

abbrev Talks : System → Type 0
Talks s = is_talking s.phases.tcp ≡ true

-- A thread that is elsewhere is not in a session.
moved-Talks :
    (u : Thread) (x : Phase) (p : PerThread Phase)
    → is_talking (of u p) ≡ false
    → is_talking p.tcp ≡ true
    → is_talking (put u x p).tcp ≡ true
moved-Talks u x p other h =
    put-keeps (λ q. is_talking q ≡ true) tcp_thread u x p
      (λ f. let never : true ≡ false = sym f ∙ other in cc) h

unborn_silent : (p : Phase) → is_unborn p ≡ true → is_talking p ≡ false
unborn_silent unborn e = refl
unborn_silent _ e = cc

opening_silent : (p : Phase) → is_opening p ≡ true → is_talking p ≡ false
opening_silent opening e = refl
opening_silent _ e = cc

entering_silent : (p : Phase) → is_entering p ≡ true → is_talking p ≡ false
entering_silent entering e = refl
entering_silent _ e = cc

testing_silent : (p : Phase) → is_testing p ≡ true → is_talking p ≡ false
testing_silent testing e = refl
testing_silent _ e = cc

accepting_silent : (p : Phase) → works_at 0 p ≡ true → is_talking p ≡ false
accepting_silent (working k) e = ground arith
accepting_silent _ e = cc

perform-Talks :
    (failed : Bool) (todo : List Statement) (s : System)
    → may_proceed todo s ≡ true
    → Talks s
    → Talks (perform failed todo s)
unfolding may_execute execute
perform-Talks failed [] s e h = h
perform-Talks failed (start u ∷ rest) s e h =
    moved-Talks u opening s.phases (unborn_silent (of u s.phases) e) h
perform-Talks failed (_ ∷ rest) s e h = h

opened-Talks :
    (u : Thread) (s : System)
    → is_opening (of u s.phases) ≡ true
    → Talks s
    → Talks
        (let opened = run_opening u s in record opened { phases = put u entering opened.phases })
unfolding run_opening
opened-Talks tcp_thread s e h =
    let never : false ≡ true = sym (opening_silent s.phases.tcp e) ∙ h in cc
opened-Talks _ s e h = h

entered-Talks :
    (u : Thread) (s : System)
    → is_entering (of u s.phases) ≡ true
    → Talks s
    → Talks (run_entering u s)
unfolding run_entering
entered-Talks udp_thread s e h = elim (Bool-cases s.udp_socket) [
  | inl socket ↦ rw socket h
  | inr none_there ↦ rw none_there h
]
entered-Talks tcp_thread s e h =
    let never : false ≡ true = sym (entering_silent s.phases.tcp e) ∙ h in cc
entered-Talks _ s e h = h

module _ (sub : ℕ → ℕ → ℕ) (show : ℕ → Bytes) where
  apply-Talks :
      (a : Action) (s : System)
      → allowed sub show a s ≡ true
      → is_converse a ≡ false
      → Talks s
      → Talks (apply sub show a s)
  unfolding apply allowed
  apply-Talks (proceed failed) s e n h = perform-Talks failed s.todo s e h
  apply-Talks (open_thread u) s e n h = opened-Talks u s e h
  apply-Talks (enter u) s e n h = entered-Talks u s e h
  apply-Talks (test u) s e n h = moved-Talks u _ s.phases (testing_silent (of u s.phases) e) h
  apply-Talks (accept_next found) s e n h =
      let never : false ≡ true = sym (accepting_silent s.phases.tcp e) ∙ h in cc
  apply-Talks (converse x) s e n h = let never : true ≡ false = n in cc
  apply-Talks _ s e n h = h

  or_stay-Talks :
      (a : Action) (s : System)
      → is_converse a ≡ false
      → Talks s
      → Talks (or_stay sub show (fire sub show a s) s)
  or_stay-Talks a s n h = elim (Option-cases (fire sub show a s)) [
    | inl stays ↦ rw stays h
    | inr (t, e) ↦
        let (_, possible, same) = fire-eq-some sub show a s e in
        rw e (subst Talks same (apply-Talks a s possible n h))
  ]

  go-Talks :
      (actions : List Action) (s : System)
      → All (λ a. is_converse a ≡ false) actions
      → Talks s
      → Talks (go sub show actions s)
  unfolding go
  go-Talks [] s n h = h
  go-Talks (a ∷ as') s n h =
      go-Talks as' (or_stay sub show (fire sub show a s) s) n.1 (or_stay-Talks a s n.0 h)

  -- From a state that the demo can come to and in which the server's thread is in a session: whatever
  -- the other threads and `main` do, and in any order, while the client neither sends anything nor
  -- goes away, the thread stays in the session, `stop()` or not, and `main` does not come to its end.
  pub go_idle :
      (receiver : Receiver) (server : Server) (clock : ℕ) {s : System} (actions : List Action)
      → Reach sub show (initial receiver server clock) s
      → s.phases.tcp ≡ working 1
      → All (λ a. is_converse a ≡ false) actions
      → ((go sub show actions s).phases.tcp ≡ working 1) × ((go sub show actions s).todo ≢ [])
  go_idle receiver server clock {s} actions r serving silent =
      let later : System = go sub show actions s in
      let talks : Talks later = go-Talks actions s silent (rw serving refl) in
      let stays : later.phases.tcp ≡ working 1 = talking_eq later.phases.tcp talks in
      (
        stays,
        λ e.
            let ended : later.phases.tcp ≡ exited =
              Reach-exited sub show tcp_thread receiver server clock
                (Reach-trans sub show r (Reach-go sub show actions s)) e in
            let never : is_exited (working 1) ≡ true = ap is_exited (sym stays ∙ ended) in
            absurd (differ never),
      )
    where
      differ : false ≡ true → ⊥
      differ e = cc
