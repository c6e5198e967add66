-- ===== src/System/Still.antt =====
-- The actions of the demo, seen from sensor 3.
use smart_sensor_network.Prelude.{
  ℕ, ◌+◌, ◌≤◌, ◌<◌, ◌^◌, ◌≡◌, inl, inr, refl, subst, Bool, true, false, List, [], ◌∷◌, Bytes, arith,
  ◌==◌, if◌then◌else◌, Bool-cases,
}
use smart_sensor_network.System.World.{beat_node}
use smart_sensor_network.System.Serving.{converse_once_cases}
use smart_sensor_network.System.Script.{
  Thread, udp_thread, tcp_thread, dashboard_thread, watchdog_thread, telemetry_thread,
  heartbeat_thread, Statement, write_log, start, join, clear, await_ready, pause, beat, enable_7,
  get_char, stop_logger,
}
use smart_sensor_network.System.State.{
  System, Action, proceed, open_thread, enter, test, receive, accept_next, converse, draw_dashboard,
  read_clock, sweep, tick_next, beat_next, pass_time, lose_packet, place,
}
use smart_sensor_network.System.Steps.{
  execute, perform, run_opening, run_entering, is_skipped, allowed, apply,
}
use smart_sensor_network.System.Invariant.{IsWorld}
use smart_sensor_network.System.Heard.{
  one_if, is_down, entry, load, Calm, same-Calm, lose-Calm, sweep_at-Calm, receive_next-Calm,
}
use smart_sensor_network.System.Beats.{tick_node-Calm, beat_node-Calm}

-- The heartbeats of sensor 3 that `main` has left to send itself.
abbrev pub left : List Statement → ℕ
left [] = 0
left (beat k ∷ rest) = one_if (k == 2) + left rest
left (_ ∷ rest) = left rest

-- From `s` to `v`, no heartbeat of sensor 3 comes from nowhere.
pub record Still (s v : System) : Type 0 where
  pub total_le : left v.todo + load v.world ≤ left s.todo + load s.world
  pub disabled : v.sensor3_enabled ≡ s.sensor3_enabled
  pub stays : is_down (entry s.world) ≡ true → load s.world ≤ 1 → is_down (entry v.world) ≡ true

Calm-Still :
    (s v : System)
    → left v.todo ≡ left s.todo
    → v.sensor3_enabled ≡ s.sensor3_enabled
    → Calm 0 s.world v.world
    → Still s v
Calm-Still s v same disabled calm = record {
  total_le = let fewer = calm.load_le in omega arith;
  disabled = disabled;
  stays = calm.stays;
}

perform-Still :
    (failed : Bool) (todo : List Statement) (s : System)
    → IsWorld s.world
    → s.todo ≡ todo
    → Still s (perform failed todo s)
unfolding execute
perform-Still failed [] s h e = Calm-Still s s refl refl (same-Calm s.world s.world refl refl)
perform-Still failed (beat k ∷ rest) s h e =
    let calm = beat_node-Calm k failed s.world h in
    record {
      total_le = let fewer = calm.load_le in rw e (omega arith);
      disabled = refl;
      stays = calm.stays;
    }
perform-Still failed (write_log msg ∷ rest) s h e =
    Calm-Still s _ (rw e refl) refl (same-Calm _ _ refl refl)
perform-Still failed (start t ∷ rest) s h e =
    Calm-Still s _ (rw e refl) refl (same-Calm _ _ refl refl)
perform-Still failed (join t ∷ rest) s h e =
    Calm-Still s _ (rw e refl) refl (same-Calm _ _ refl refl)
perform-Still failed (clear t ∷ rest) s h e =
    Calm-Still s _ (rw e refl) refl (same-Calm _ _ refl refl)
perform-Still failed (await_ready ∷ rest) s h e =
    Calm-Still s _ (rw e refl) refl (same-Calm _ _ refl refl)
perform-Still failed (pause n ∷ rest) s h e =
    Calm-Still s _ (rw e refl) refl (same-Calm _ _ refl refl)
perform-Still failed (enable_7 ∷ rest) s h e =
    Calm-Still s _ (rw e refl) refl (same-Calm _ _ refl refl)
perform-Still failed (get_char ∷ rest) s h e =
    Calm-Still s _ (rw e refl) refl (same-Calm _ _ refl refl)
perform-Still failed (stop_logger ∷ rest) s h e =
    Calm-Still s _ (rw e refl) refl (same-Calm _ _ refl refl)

opening-Still : (t : Thread) (s : System) → Still s (run_opening t s)
unfolding run_opening
opening-Still udp_thread s = Calm-Still s _ refl refl (same-Calm _ _ refl refl)
opening-Still tcp_thread s = Calm-Still s _ refl refl (same-Calm _ _ refl refl)
opening-Still dashboard_thread s = Calm-Still s _ refl refl (same-Calm _ _ refl refl)
opening-Still watchdog_thread s = Calm-Still s _ refl refl (same-Calm _ _ refl refl)
opening-Still telemetry_thread s = Calm-Still s _ refl refl (same-Calm _ _ refl refl)
opening-Still heartbeat_thread s = Calm-Still s _ refl refl (same-Calm _ _ refl refl)

if-Still : (b : Bool) (s t u : System) → Still s t → Still s u → Still s (if b then t else u)
if-Still true s t u h k = h
if-Still false s t u h k = k

entering-Still : (t : Thread) (s : System) → Still s (run_entering t s)
unfolding run_entering
entering-Still udp_thread s =
    if-Still s.udp_socket s _ _ (Calm-Still s _ refl refl (same-Calm _ _ refl refl))
      (Calm-Still s _ refl refl (same-Calm _ _ refl refl))
entering-Still tcp_thread s =
    if-Still s.tcp_socket s _ _ (Calm-Still s _ refl refl (same-Calm _ _ refl refl))
      (Calm-Still s _ refl refl (same-Calm _ _ refl refl))
entering-Still dashboard_thread s = Calm-Still s _ refl refl (same-Calm _ _ refl refl)
entering-Still watchdog_thread s = Calm-Still s _ refl refl (same-Calm _ _ refl refl)
entering-Still telemetry_thread s = Calm-Still s _ refl refl (same-Calm _ _ refl refl)
entering-Still heartbeat_thread s = Calm-Still s _ refl refl (same-Calm _ _ refl refl)

-- A node's call in the loop of the heartbeats, left out for a sensor 3 that is not enabled.
looped-Calm :
    (k : ℕ) (failed : Bool) (s : System)
    → s.sensor3_enabled ≡ false
    → IsWorld s.world
    → Calm 0 s.world (if is_skipped k s then s.world else beat_node k failed s.world)
looped-Calm k failed s off h = elim (Bool-cases (k == 2)) [
  | inl third ↦ rw (third, off) (same-Calm _ _ refl refl)
  | inr other ↦
      let sent : Calm 0 s.world (beat_node k failed s.world) =
        subst (λ b. Calm (one_if b) s.world (beat_node k failed s.world)) other
          (beat_node-Calm k failed s.world h) in
      elim (Bool-cases (is_skipped k s)) [
        | inl skipped ↦ rw skipped (same-Calm _ _ refl refl)
        | inr sends ↦ rw sends sent
      ]
]

module _ (sub : ℕ → ℕ → ℕ) (show : ℕ → Bytes) (sub_lt : (a b : ℕ) → sub a b < 2 ^ 64) where
  pub apply-Still :
      (a : Action) (s : System)
      → allowed sub show a s ≡ true
      → s.sensor3_enabled ≡ false
      → IsWorld s.world
      → Still s (apply sub show a s)
  unfolding apply allowed
  apply-Still (proceed failed) s e off h = perform-Still failed s.todo s h refl
  apply-Still (open_thread t) s e off h =
      let opened = opening-Still t s in
      record { total_le = opened.total_le; disabled = opened.disabled; stays = opened.stays }
  apply-Still (enter t) s e off h = entering-Still t s
  apply-Still (test t) s e off h = Calm-Still s _ refl refl (same-Calm _ _ refl refl)
  apply-Still (receive i) s e off h = Calm-Still s _ refl refl (receive_next-Calm i s.world h)
  apply-Still (accept_next true) s e off h = Calm-Still s _ refl refl (same-Calm _ _ refl refl)
  apply-Still (accept_next false) s e off h = Calm-Still s _ refl refl (same-Calm _ _ refl refl)
  apply-Still (converse x) s e off h =
      converse_once_cases (Still s) show x s (Calm-Still s _ refl refl (same-Calm _ _ refl refl))
        (λ t. Calm-Still s _ refl refl (same-Calm _ _ refl refl))
        λ t. Calm-Still s _ refl refl (same-Calm _ _ refl refl)
  apply-Still draw_dashboard s e off h = Calm-Still s _ refl refl (same-Calm _ _ refl refl)
  apply-Still read_clock s e off h = Calm-Still s _ refl refl (same-Calm _ _ refl refl)
  apply-Still sweep s e off h = Calm-Still s _ refl refl (sweep_at-Calm s.current_time s.world)
  apply-Still (tick_next draw failed) s e off h =
      Calm-Still s _ refl refl
        (tick_node-Calm sub sub_lt (place s.phases.telemetry) draw failed s.world (ground arith) h)
  apply-Still (beat_next failed) s e off h =
      Calm-Still s _ refl refl (looped-Calm (place s.phases.heartbeat) failed s off h)
  apply-Still (pass_time n) s e off h = Calm-Still s _ refl refl (same-Calm _ _ refl refl)
  apply-Still (lose_packet i) s e off h = Calm-Still s _ refl refl (lose-Calm i s.world)
