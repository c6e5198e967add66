-- ===== src/System/Counted.antt =====
-- How often a packet of the demo is counted.
use smart_sensor_network.Prelude.{
  ℕ, ◌+◌, ◌≤◌, ◌<◌, ◌^◌, ◌≡◌, inl, inr, refl, sym, ap, subst, Bool, true, false, List, [], ◌∷◌,
  Bytes, arith, if◌then◌else◌, Option-cases, length,
}
use smart_sensor_network.Gateway.Invariant.{IsTime}
use smart_sensor_network.Tcp.Server.{Server}
use smart_sensor_network.Udp.{Receiver}
use smart_sensor_network.System.World.{World, beat_node}
use smart_sensor_network.System.Serving.{converse_once_cases}
use smart_sensor_network.System.Script.{Thread, udp_thread, tcp_thread, Statement, write_log, beat}
use smart_sensor_network.System.State.{
  System, Action, proceed, open_thread, enter, receive, accept_next, converse, sweep, tick_next,
  beat_next, lose_packet, place, initial,
}
use smart_sensor_network.System.Steps.{
  execute, perform, run_opening, run_entering, is_skipped, apply, fire, fire-eq-some, Reach, here,
  next,
}
use smart_sensor_network.System.Runs.{go, or_stay}
use smart_sensor_network.System.Invariant.{IsWorld}
use smart_sensor_network.System.Reachable.{Reach-IsWorld}
use smart_sensor_network.System.Traffic.{
  counted, traffic, lose-traffic, sweep_at-traffic, beat_node-traffic, tick_node-traffic,
  receive_next-traffic,
}

-- The heartbeats that `main` has left to send itself.
abbrev pub beats_left : List Statement → ℕ
beats_left [] = 0
beats_left (beat k ∷ rest) = beats_left rest + 1
beats_left (_ ∷ rest) = beats_left rest

-- The packets that an action sends, but for those of `main`.
abbrev pub sends : Action → ℕ
sends (tick_next draw failed) = 1
sends (beat_next failed) = 1
sends _ = 0

abbrev pub sends_all : List Action → ℕ
sends_all [] = 0
sends_all (a ∷ as') = sends a + sends_all as'

abbrev pub total : System → ℕ
total s = beats_left s.todo + traffic s.world

perform-total :
    (failed : Bool) (todo : List Statement) (s : System)
    → s.todo ≡ todo
    → total (perform failed todo s) ≤ total s
unfolding execute
perform-total failed [] s e = omega arith
perform-total failed (beat k ∷ rest) s e =
    let more = beat_node-traffic k failed s.world in
    let now : beats_left s.todo ≡ beats_left rest + 1 = ap beats_left e in omega arith
perform-total failed (write_log msg ∷ rest) s e =
    let now : beats_left s.todo ≡ beats_left rest = ap beats_left e in omega arith
perform-total failed (_ ∷ rest) s e =
    let now : beats_left s.todo ≡ beats_left rest = ap beats_left e in omega arith

opening-total : (t : Thread) (s : System) → total (run_opening t s) ≡ total s
unfolding run_opening
opening-total udp_thread s = refl
opening-total _ s = refl

if-total :
    (b : Bool) (n : ℕ) (s v : System) → total s ≤ n → total v ≤ n → total (if b then s else v) ≤ n
if-total true n s v h k = h
if-total false n s v h k = k

entering-total : (t : Thread) (s : System) → total (run_entering t s) ≤ total s
unfolding run_entering
entering-total udp_thread s = if-total s.udp_socket (total s) _ _ (omega arith) (omega arith)
entering-total tcp_thread s = if-total s.tcp_socket (total s) _ _ (omega arith) (omega arith)
entering-total _ s = omega arith

looped-traffic :
    (b : Bool) (k : ℕ) (failed : Bool) (w : World)
    → traffic (if b then w else beat_node k failed w) ≤ traffic w + 1
looped-traffic true k failed w = omega arith
looped-traffic false k failed w = beat_node-traffic k failed w

module _ (sub : ℕ → ℕ → ℕ) (show : ℕ → Bytes) where
  apply-total :
      (a : Action) (s : System) → IsWorld s.world → total (apply sub show a s) ≤ total s + sends a
  unfolding apply
  apply-total (proceed failed) s h = let fewer = perform-total failed s.todo s refl in omega arith
  apply-total (open_thread t) s h = let same = opening-total t s in omega arith
  apply-total (enter t) s h = let fewer = entering-total t s in omega arith
  apply-total (receive i) s h = let fewer = receive_next-traffic i s.world h in omega arith
  apply-total (accept_next true) s h = omega arith
  apply-total (accept_next false) s h = omega arith
  apply-total (converse x) s h =
      converse_once_cases (λ v. total v ≤ total s + 0) show x s (omega arith) (λ t. omega arith)
        λ t. omega arith
  apply-total sweep s h = let same = sweep_at-traffic s.current_time s.world in omega arith
  apply-total (tick_next draw failed) s h =
      let more = tick_node-traffic sub (place s.phases.telemetry) draw failed s.world in omega arith
  apply-total (beat_next failed) s h =
      let k : ℕ = place s.phases.heartbeat in
      let more = looped-traffic (is_skipped k s) k failed s.world in omega arith
  apply-total (lose_packet i) s h = let fewer = lose-traffic i s.world in omega arith
  apply-total _ s h = omega arith

  module _ (sub_lt : (a b : ℕ) → sub a b < 2 ^ 64) (receiver : Receiver) (server : Server)
      (clock : ℕ) (time : IsTime clock) where
    go-total :
        (actions : List Action) (s : System)
        → Reach sub show (initial receiver server clock) s
        → total (go sub show actions s) ≤ total s + sends_all actions
    unfolding go
    go-total [] s r = omega arith
    go-total (a ∷ as') s r = elim (Option-cases (fire sub show a s)) [
      | inl stays ↦
          let rest = go-total as' s r in
          subst
            (λ o. total (go sub show as' (or_stay sub show o s)) ≤ total s + sends_all (a ∷ as'))
            (sym stays) (omega arith)
      | inr (t, e) ↦
          let (_, _, same) = fire-eq-some sub show a s e in
          let once : total t ≤ total s + sends a =
            subst (λ v. total v ≤ total s + sends a) same
              (apply-total a s (Reach-IsWorld sub show sub_lt receiver server clock time r)) in
          let rest = go-total as' t (next r a e) in
          subst
            (λ o. total (go sub show as' (or_stay sub show o s)) ≤ total s + sends_all (a ∷ as'))
            (sym e) (omega arith)
    ]

  -- From a start at a time behind the epoch and within 64 bits and with differences of doubles that are
  -- patterns of 64 bits, behind any schedule: the packets that the gateway has counted, those under
  -- way and the heartbeats that `main` has left to send itself are together at most the seven of
  -- `main` and one for each tick and each turn of the heartbeat thread in the schedule.
  pub go-traffic :
      (sub_lt : (a b : ℕ) → sub a b < 2 ^ 64) (receiver : Receiver) (server : Server) (clock : ℕ)
      (actions : List Action)
      → IsTime clock
      → let v = go sub show actions (initial receiver server clock) in
        counted v.world.gateway + length v.world.network + beats_left v.todo ≤ 7 + sends_all actions
  go-traffic sub_lt receiver server clock actions time =
      let most =
        go-total sub_lt receiver server clock time actions (initial receiver server clock) here in
      omega arith
