-- ===== src/System/Readies.antt =====
-- What `main` waits for, brought about by the other threads.
use smart_sensor_network.Prelude.{
  ℕ, ◌<◌, ◌^◌, ◌≡◌, ◌⊎◌, refl, sym, ap, ◌∙◌, Bool, true, false, ◌&&◌, ◌||◌, none, inl, inr, List,
  ◌∷◌, Bytes, Bool-cases,
}
use smart_sensor_network.Gateway.Invariant.{IsTime}
use smart_sensor_network.Tcp.Server.{Server}
use smart_sensor_network.Udp.{Receiver}
use smart_sensor_network.System.Threads.{same_thread}
use smart_sensor_network.System.Script.{
  Thread, udp_thread, tcp_thread, Statement, write_log, start, join, clear, await_ready, pause,
  beat, enable_7, get_char, stop_logger,
}
use smart_sensor_network.System.State.{
  Phase, unborn, opening, entering, testing, working, exited, of, is_unborn, is_exited, System,
  initial,
}
use smart_sensor_network.System.Steps.{may_execute, Reach}
use smart_sensor_network.System.Runs.{Reach-trans}
use smart_sensor_network.System.Reachable.{Reach-IsWorld}
use smart_sensor_network.System.Live.{will_clear}
use smart_sensor_network.System.Stopping.{is_inside, Stopping}
use smart_sensor_network.System.Ordered.{will_start, is_service, in_order, is_opened, Orderly}
use smart_sensor_network.System.Performs.{and_cases, not_cases}
use smart_sensor_network.System.Orderly.{Reach-Orderly}
use smart_sensor_network.System.Drives.{Gone, Leads, Gone-trans, Gone-here}
use smart_sensor_network.System.Exits.{ends, opens, comes_inside}

-- The service's `stop()` is left, or it will find the thread at its loop.
abbrev pub Stoppable : Thread → System → Type 0
Stoppable t s = (will_clear t s.todo ≡ true) ⊎ Stopping t s

abbrev pub Prepared : Statement → System → Type 0
Prepared (clear u) s = is_inside (of u s.phases) ≡ true
Prepared _ s = Unit

same_thread_self : (t : Thread) → same_thread t t ≡ true
same_thread_self udp_thread = refl
same_thread_self _ = refl

both_true : {a b : Bool} → a ≡ true → b ≡ true → a && b ≡ true
both_true e f = rw (e, f) refl

module _ (sub : ℕ → ℕ → ℕ) (show : ℕ → Bytes) (sub_lt : (a b : ℕ) → sub a b < 2 ^ 64)
    (receiver : Receiver) (server : Server) (clock : ℕ) (time : IsTime clock) where
  pub record Fine (s : System) : Type 0 where
    pub reached : Reach sub show (initial receiver server clock) s
    pub calm : s.world.thrown ≡ none

  pub Fine-Gone : {s v : System} → Fine s → Gone sub show s v → Fine v
  Fine-Gone fine gone = record {
    reached = Reach-trans sub show fine.reached gone.reach;
    calm = gone.quiet;
  }

  pub Fine-Orderly : {s : System} → Fine s → Orderly s
  Fine-Orderly fine = Reach-Orderly sub show receiver server clock fine.reached

  abbrev Ready : Statement → System → Type 0
  Ready st v = (may_execute st v ≡ true) × Prepared st v

  -- A thread that stops comes to its end.
  runs_out :
      (t : Thread) (s : System)
      → Fine s
      → Stopping t s
      → Leads sub show s (λ v. of t v.phases ≡ exited)
  runs_out t s fine stopping =
      ends sub show t (of t s.phases) s
        (Reach-IsWorld sub show sub_lt receiver server clock time fine.reached) fine.calm stopping
        ((Fine-Orderly fine).entries t).placed refl

  -- A thread whose flag `main` has cleared comes to its end.
  cleared_ends :
      (t : Thread) (s : System)
      → Fine s
      → will_start t s.todo ≡ false
      → will_clear t s.todo ≡ false
      → (is_service t ≡ true → Stoppable t s)
      → Leads sub show s (λ v. of t v.phases ≡ exited)
  cleared_ends t s fine made cleared stoppable = elim (Bool-cases (is_service t)) [
    | inl service ↦ elim (stoppable service) [
      | inl left ↦ let never : true ≡ false = sym left ∙ cleared in cc
      | inr stopping ↦ runs_out t s fine stopping
    ]
    | inr other ↦
        let (u, gone, inside) =
          comes_inside sub show t (of t s.phases) s fine.calm
            (((Fine-Orderly fine).entries t).born ∙ made) refl in
        let fine' : Fine u = Fine-Gone fine gone in
        let flag : of t u.running ≡ false =
          ((Fine-Orderly fine').entries t).set other ∙ ap (will_clear t) gone.stays ∙ cleared in
        let (v, more, out) = runs_out t u fine' (record { cleared = flag; inside = inside }) in
        (v, Gone-trans sub show gone more, out)
  ]

  -- A thread that was made runs its first lines; the others' phases stay.
  tells :
      (t : Thread) (p : Phase) (s : System)
      → s.world.thrown ≡ none
      → is_unborn p ≡ false
      → of t s.phases ≡ p
      → Leads sub show s (λ v.
        (is_opened (of t v.phases) ≡ true)
        × ((u : Thread) → same_thread u t ≡ false → of u v.phases ≡ of u s.phases))
  tells t opening s quiet born at =
      let (v, gone, (opened, others)) = opens sub show t s quiet at in
      (v, gone, (ap is_opened opened, others))
  tells t unborn s quiet born at = cc
  tells t entering s quiet born at =
      (s, Gone-here sub show s quiet, (ap is_opened at, λ u other. refl))
  tells t testing s quiet born at =
      (s, Gone-here sub show s quiet, (ap is_opened at, λ u other. refl))
  tells t (working k) s quiet born at =
      (s, Gone-here sub show s quiet, (ap is_opened at, λ u other. refl))
  tells t exited s quiet born at =
      (s, Gone-here sub show s quiet, (ap is_opened at, λ u other. refl))

  services_told :
      (rest : List Statement) (s : System)
      → Fine s
      → s.todo ≡ await_ready ∷ rest
      → Leads sub show s (Ready await_ready)
  unfolding may_execute
  services_told rest s fine e =
      let h : Orderly s = Fine-Orderly fine in
      let first = (and_cases (sym (ap in_order e) ∙ h.ordered)).0 in
      let (udp_made, tcp_made) = and_cases first in
      let (u, gone, (udp_opened, others)) =
        tells udp_thread s.phases.udp s fine.calm
          ((h.entries udp_thread).born ∙ ap (will_start udp_thread) e ∙ not_cases udp_made) refl in
      let k : Orderly u = Fine-Orderly (Fine-Gone fine gone) in
      let (v, more, (tcp_opened, kept)) =
        tells tcp_thread u.phases.tcp u gone.quiet
          ((k.entries tcp_thread).born
            ∙ ap (will_start tcp_thread) (gone.stays ∙ e)
            ∙ not_cases tcp_made)
          refl in
      let whole : Gone sub show s v = Gone-trans sub show gone more in
      let l : Orderly v = Fine-Orderly (Fine-Gone fine whole) in
      let udp : v.udp_ready ≡ true =
        (l.entries udp_thread).told refl ∙ ap is_opened (kept udp_thread refl) ∙ udp_opened in
      let tcp : v.tcp_ready ≡ true = (l.entries tcp_thread).told refl ∙ tcp_opened in
      (v, whole, (both_true udp tcp, tt))

  -- Whatever `main` comes to, the other threads can bring it about that it goes on.
  pub readies :
      (st : Statement) (rest : List Statement) (s : System)
      → Fine s
      → s.todo ≡ st ∷ rest
      → ((t : Thread) → is_service t ≡ true → Stoppable t s)
      → Leads sub show s (Ready st)
  unfolding may_execute
  readies (start t) rest s fine e stoppable =
      let born : is_unborn (of t s.phases) ≡ true =
        ((Fine-Orderly fine).entries t).born
        ∙ ap (will_start t) e
        ∙ ap (λ b. b || will_start t rest) (same_thread_self t) in
      (s, Gone-here sub show s fine.calm, (born, tt))
  readies (join t) rest s fine e stoppable =
      let (first, _) = and_cases (sym (ap in_order e) ∙ (Fine-Orderly fine).ordered) in
      let (made, cleared) = and_cases first in
      let (v, gone, out) =
        cleared_ends t s fine (ap (will_start t) e ∙ not_cases made)
          (ap (will_clear t) e ∙ not_cases cleared) (stoppable t) in
      (v, gone, (ap is_exited out, tt))
  readies (clear t) rest s fine e stoppable =
      let h : Orderly s = Fine-Orderly fine in
      let (first, _) = and_cases (sym (ap in_order e) ∙ h.ordered) in
      let (second, _) = and_cases first in
      let (made, _) = and_cases second in
      let (v, gone, inside) =
        comes_inside sub show t (of t s.phases) s fine.calm
          ((h.entries t).born ∙ ap (will_start t) e ∙ not_cases made) refl in
      (v, gone, (refl, inside))
  readies await_ready rest s fine e stoppable = services_told rest s fine e
  readies (write_log msg) rest s fine e stoppable = (s, Gone-here sub show s fine.calm, (refl, tt))
  readies (pause n) rest s fine e stoppable = (s, Gone-here sub show s fine.calm, (refl, tt))
  readies (beat k) rest s fine e stoppable = (s, Gone-here sub show s fine.calm, (refl, tt))
  readies enable_7 rest s fine e stoppable = (s, Gone-here sub show s fine.calm, (refl, tt))
  readies get_char rest s fine e stoppable = (s, Gone-here sub show s fine.calm, (refl, tt))
  readies stop_logger rest s fine e stoppable = (s, Gone-here sub show s fine.calm, (refl, tt))
