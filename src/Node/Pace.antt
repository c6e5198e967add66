-- ===== src/Node/Pace.antt =====
-- How often a running node sends.
use mathlib.Core.Path.{subst}
use smart_sensor_network.Prelude.{
  ℕ, ◌+◌, ◌*◌, ◌≤◌, ◌≡◌, inl, inr, sym, ap, List, [], ◌∷◌, ◌++◌, Bytes, Option, none, some, length,
  length-append, All, arith, leb→le, Result, ok, throw, Exception, Bool-cases, Option-cases,
}
use smart_sensor_network.Sensor.{Sensor}
use smart_sensor_network.Node.{
  Loop, Readings, is_due, if_ok, thrown_by, proceed, unless_thrown, telemetry_timer,
  heartbeat_timer, round, rounds, run_node, tick, send_heartbeat, Tick,
}

-- While nothing was thrown, the timer stands at least at `n`.
abbrev Reaches : ℕ → ℕ → Option Exception → Type 0
Reaches n last none = n ≤ last
Reaches n last (some e) = Unit

-- Each packet of a timer took one interval, from `start` on and up to `finish`.
abbrev Paced : ℕ → ℕ → ℕ → List (ℕ × Bytes) → ℕ → Option Exception → Type 0
Paced interval start finish sent last thrown =
    (length sent * interval + start ≤ finish)
    × (last ≤ finish)
    × Reaches (length sent * interval + start) last thrown

Paced-due {ℓ} :
    {A : Type ℓ} (interval start finish now last : ℕ) (sent : List (ℕ × Bytes)) (p : ℕ × Bytes)
    (o : Result A)
    → Paced interval start finish sent last none
    → last + interval ≤ now
    → now ≤ finish
    → Paced interval start finish (sent ++ (p ∷ [])) (if_ok o now last) (thrown_by o)
Paced-due interval start finish now last sent p (ok a) h due in_time =
    omega (arith, length-append sent (p ∷ []), ap (λ t. t * interval) (length-append sent (p ∷ [])))
Paced-due interval start finish now last sent p (throw e) h due in_time =
    omega (arith, length-append sent (p ∷ []), ap (λ t. t * interval) (length-append sent (p ∷ [])))

Paced-any :
    (interval start finish last : ℕ) (sent : List (ℕ × Bytes)) (thrown : Option Exception)
    → Paced interval start finish sent last none
    → Paced interval start finish sent last thrown
Paced-any interval start finish last sent none h = h
Paced-any interval start finish last sent (some e) h = (h.0, h.1, tt)

unless_thrown_cases {ℓ} :
    (P : Loop → Type ℓ) (f : Loop → Loop) (l : Loop)
    → P l
    → (l.thrown ≡ none → P (f l))
    → P (unless_thrown f l)
unless_thrown_cases P f l old new = elim (Option-cases l.thrown) [
  | inl clear ↦ subst (λ t. P (proceed t (f l) l)) (sym clear) (new clear)
  | inr (e, stopped) ↦ subst (λ t. P (proceed t (f l) l)) (sym stopped) old
]

module _ (telemetry_interval heartbeat_interval start finish : ℕ) where
  record BothPaced (l : Loop) : Type 0 where
    telemetry_paced :
        Paced telemetry_interval start finish l.telemetry_sent l.last_telemetry l.thrown
    heartbeat_paced :
        Paced heartbeat_interval start finish l.heartbeat_sent l.last_heartbeat l.thrown

  module _ (sub : ℕ → ℕ → ℕ) (send : Bytes → Result (Unit {0})) where
    telemetry_timer-BothPaced :
        (r : Readings) (l : Loop)
        → r.now_time ≤ finish
        → l.thrown ≡ none
        → BothPaced l
        → BothPaced (telemetry_timer sub send telemetry_interval r l)
    unfolding telemetry_timer
    telemetry_timer-BothPaced r l in_time clear h =
        elim (Bool-cases (is_due telemetry_interval l.last_telemetry r.now_time)) [
          | inl due ↦
              let t : Tick = tick sub send r.draw r.telemetry_now l.sensor in
              rw due (record {
                telemetry_paced =
                    Paced-due telemetry_interval start finish r.now_time l.last_telemetry
                      l.telemetry_sent (r.now_time, t.packet) t.outcome
                      (subst
                        (Paced telemetry_interval start finish l.telemetry_sent l.last_telemetry)
                        clear h.telemetry_paced)
                      (leb→le _ _ due) in_time;
                heartbeat_paced =
                    Paced-any heartbeat_interval start finish l.last_heartbeat l.heartbeat_sent
                      (thrown_by t.outcome)
                      (subst
                        (Paced heartbeat_interval start finish l.heartbeat_sent l.last_heartbeat)
                        clear h.heartbeat_paced);
              })
          | inr early ↦ rw early h
        ]

    heartbeat_timer-BothPaced :
        (r : Readings) (l : Loop)
        → r.now_time ≤ finish
        → l.thrown ≡ none
        → BothPaced l
        → BothPaced (heartbeat_timer sub send heartbeat_interval r l)
    unfolding heartbeat_timer
    heartbeat_timer-BothPaced r l in_time clear h =
        elim (Bool-cases (is_due heartbeat_interval l.last_heartbeat r.now_time)) [
          | inl due ↦
              let sent : Bytes × Result (Unit {0}) = send_heartbeat send r.heartbeat_now l.sensor in
              rw due (record {
                heartbeat_paced =
                    Paced-due heartbeat_interval start finish r.now_time l.last_heartbeat
                      l.heartbeat_sent (r.now_time, sent.0) sent.1
                      (subst
                        (Paced heartbeat_interval start finish l.heartbeat_sent l.last_heartbeat)
                        clear h.heartbeat_paced)
                      (leb→le _ _ due) in_time;
                telemetry_paced =
                    Paced-any telemetry_interval start finish l.last_telemetry l.telemetry_sent
                      (thrown_by sent.1)
                      (subst
                        (Paced telemetry_interval start finish l.telemetry_sent l.last_telemetry)
                        clear h.telemetry_paced);
              })
          | inr early ↦ rw early h
        ]

    round-BothPaced :
        (r : Readings) (l : Loop)
        → r.now_time ≤ finish
        → l.thrown ≡ none
        → BothPaced l
        → BothPaced (round sub send telemetry_interval heartbeat_interval r l)
    unfolding round
    round-BothPaced r l in_time clear h =
        let next = telemetry_timer sub send telemetry_interval r l in
        let kept = telemetry_timer-BothPaced r l in_time clear h in
        unless_thrown_cases BothPaced (heartbeat_timer sub send heartbeat_interval r) next kept
          λ clear'. heartbeat_timer-BothPaced r next in_time clear' kept

    rounds-BothPaced :
        (rs : List Readings) (l : Loop)
        → All (λ r. r.now_time ≤ finish) rs
        → BothPaced l
        → BothPaced (rounds sub send telemetry_interval heartbeat_interval rs l)
    unfolding rounds
    rounds-BothPaced [] l in_time h = h
    rounds-BothPaced (r ∷ rs) l in_time h =
        let next = unless_thrown (round sub send telemetry_interval heartbeat_interval r) l in
        rounds-BothPaced rs next in_time.1 (
          unless_thrown_cases BothPaced (round sub send telemetry_interval heartbeat_interval r) l h
            λ clear. round-BothPaced r l in_time.0 clear h)

-- A node whose timers start, and whose clock reads, between `start` and `finish`, with any sender and any readings, hands over at most one
-- telemetry packet for each telemetry interval of that time and at most one heartbeat for each heartbeat
-- interval: their number times the interval fits in the time.
pub run_node_paced :
    (sub : ℕ → ℕ → ℕ) (send : Bytes → Result (Unit {0}))
    (telemetry_interval heartbeat_interval start telemetry_start heartbeat_start finish : ℕ)
    (s : Sensor) (rs : List Readings)
    → start ≤ telemetry_start
    → telemetry_start ≤ finish
    → start ≤ heartbeat_start
    → heartbeat_start ≤ finish
    → All (λ r. r.now_time ≤ finish) rs
    → let l =
        run_node sub send telemetry_interval heartbeat_interval telemetry_start heartbeat_start s
          rs in
      (length l.telemetry_sent * telemetry_interval + start ≤ finish)
      × (length l.heartbeat_sent * heartbeat_interval + start ≤ finish)
unfolding run_node
run_node_paced sub send telemetry_interval heartbeat_interval start telemetry_start heartbeat_start
      finish s rs h h' k k' in_time =
    let l : Loop = record {
      sensor = s;
      last_telemetry = telemetry_start;
      last_heartbeat = heartbeat_start;
      telemetry_sent = [];
      heartbeat_sent = [];
      thrown = none;
    } in
    let paced : BothPaced telemetry_interval heartbeat_interval start finish l = omega arith in
    let last =
      rounds-BothPaced telemetry_interval heartbeat_interval start finish sub send rs l in_time
        paced in
    (last.telemetry_paced.0, last.heartbeat_paced.0)
