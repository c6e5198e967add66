-- ===== src/Node/Punctual.antt =====
-- How late a running node sends.
use mathlib.Core.Path.{subst}
use smart_sensor_network.Prelude.{
  List, [], ◌∷◌, ◌++◌, ◌∙◌, append-nil, if◌then◌else◌, ℕ, ◌+◌, ◌<◌, ◌≡◌, inl, inr, refl, sym, Bytes,
  none, arith, leb→gt, Result, ok, Bool-cases,
}
use smart_sensor_network.Protocol.{TelemetryMessage, heartbeat}
use smart_sensor_network.Serializer.{serialize_telemetry, serialize_heartbeat}
use smart_sensor_network.Sensor.{
  Sensor, collect_data, create_telemetry, get_id, motion_sensor, temperature_sensor, battery_sensor,
  pressure_sensor,
}
use smart_sensor_network.Node.Delivery.{collect_data-id}
use smart_sensor_network.Node.{
  Loop, Readings, is_due, proceed, telemetry_timer, heartbeat_timer, round, tick, send_heartbeat,
  heartbeat_message,
}

-- A packet whose timer is due at `now`, with that time.
abbrev pub sent_if_due : ℕ → ℕ → ℕ → Bytes → List (ℕ × Bytes)
sent_if_due interval last now packet = if is_due interval last now then (now, packet) ∷ [] else []

create_telemetry-get_id : (now : ℕ) (s : Sensor) → get_id (create_telemetry now s).0 ≡ get_id s
unfolding create_telemetry get_id
create_telemetry-get_id now (motion_sensor base level) = refl
create_telemetry-get_id now (temperature_sensor base level) = refl
create_telemetry-get_id now (battery_sensor base level) = refl
create_telemetry-get_id now (pressure_sensor base level) = refl

module _ (sub : ℕ → ℕ → ℕ) (send : Bytes → Result (Unit {0}))
    (sends : (p : Bytes) → send p ≡ ok tt) where
  tick_ok :
      (draw now : ℕ) (s : Sensor)
      → (m : TelemetryMessage) × ((tick sub send draw now s).outcome ≡ ok m)
  unfolding tick
  tick_ok draw now s =
      let told = create_telemetry now (collect_data sub draw s).0 in
      (told.1, rw (sends (serialize_telemetry told.1)))

  tick-get_id : (draw now : ℕ) (s : Sensor) → get_id (tick sub send draw now s).sensor ≡ get_id s
  unfolding tick
  tick-get_id draw now s =
      create_telemetry-get_id now (collect_data sub draw s).0 ∙ collect_data-id sub draw s

  -- One timer's part of a round: the packet, no exception, and the timer.
  abbrev Punctual : ℕ → ℕ → ℕ → Bytes → List (ℕ × Bytes) → List (ℕ × Bytes) → ℕ → Type 0
  Punctual interval last now packet before after next =
      (after ≡ before ++ sent_if_due interval last now packet) × (now < next + interval)

  telemetry_timer-Punctual :
      (interval : ℕ) (r : Readings) (l : Loop)
      → 0 < interval
      → l.thrown ≡ none
      → let next = telemetry_timer sub send interval r l in
        let packet = (tick sub send r.draw r.telemetry_now l.sensor).packet in
        (next.thrown ≡ none)
        × Punctual interval l.last_telemetry r.now_time packet l.telemetry_sent next.telemetry_sent
            next.last_telemetry
        × (get_id next.sensor ≡ get_id l.sensor)
        × (next.heartbeat_sent ≡ l.heartbeat_sent)
        × (next.last_heartbeat ≡ l.last_heartbeat)
  unfolding telemetry_timer
  telemetry_timer-Punctual interval r l pos clear =
      elim (Bool-cases (is_due interval l.last_telemetry r.now_time)) [
        | inl due ↦
            let (m, e) = tick_ok r.draw r.telemetry_now l.sensor in
            rw (due, e)
              (refl, (refl, omega arith), tick-get_id r.draw r.telemetry_now l.sensor, refl, refl)
        | inr early ↦
            rw early
              (clear, (sym (append-nil l.telemetry_sent), leb→gt _ _ early), refl, refl, refl)
      ]

  heartbeat_timer-Punctual :
      (interval : ℕ) (r : Readings) (l : Loop)
      → 0 < interval
      → l.thrown ≡ none
      → let next = heartbeat_timer sub send interval r l in
        let packet = serialize_heartbeat (heartbeat_message r.heartbeat_now l.sensor) in
        (next.thrown ≡ none)
        × Punctual interval l.last_heartbeat r.now_time packet l.heartbeat_sent next.heartbeat_sent
            next.last_heartbeat
        × (next.telemetry_sent ≡ l.telemetry_sent)
        × (next.last_telemetry ≡ l.last_telemetry)
  unfolding heartbeat_timer send_heartbeat
  heartbeat_timer-Punctual interval r l pos clear =
      elim (Bool-cases (is_due interval l.last_heartbeat r.now_time)) [
        | inl due ↦
            rw (due, sends (serialize_heartbeat (heartbeat_message r.heartbeat_now l.sensor)))
              (refl, (refl, omega arith), refl, refl)
        | inr early ↦
            rw early (clear, (sym (append-nil l.heartbeat_sent), leb→gt _ _ early), refl, refl)
      ]

  -- Both timers' parts of a round of `l`, seen at the loop behind it.
  abbrev Round : ℕ → ℕ → Readings → Loop → Loop → Type 0
  Round telemetry_interval heartbeat_interval r l next =
      let packet = (tick sub send r.draw r.telemetry_now l.sensor).packet in
      let beat = serialize_heartbeat (heartbeat_message r.heartbeat_now l.sensor) in
      (next.thrown ≡ none)
      × Punctual telemetry_interval l.last_telemetry r.now_time packet l.telemetry_sent
          next.telemetry_sent next.last_telemetry
      × Punctual heartbeat_interval l.last_heartbeat r.now_time beat l.heartbeat_sent
          next.heartbeat_sent next.last_heartbeat

  both-Round :
      (telemetry_interval heartbeat_interval : ℕ) (r : Readings) (l : Loop)
      → 0 < telemetry_interval
      → 0 < heartbeat_interval
      → l.thrown ≡ none
      → Round telemetry_interval heartbeat_interval r l (
          heartbeat_timer sub send heartbeat_interval r
            (telemetry_timer sub send telemetry_interval r l))
  unfolding heartbeat_message
  both-Round telemetry_interval heartbeat_interval r l ht hh clear =
      let mid : Loop = telemetry_timer sub send telemetry_interval r l in
      let (clear', (told, early), own, beats, last) =
        telemetry_timer-Punctual telemetry_interval r l ht clear in
      let (clear'', (beaten, early'), tells, last') =
        heartbeat_timer-Punctual heartbeat_interval r mid hh clear' in
      let packet : ℕ → Bytes = λ id. serialize_heartbeat (record {
        header = record { type = heartbeat; sensor_id = id; timestamp_ms = r.heartbeat_now };
      }) in
      (
        clear'',
        (tells ∙ told, subst (λ t. r.now_time < t + telemetry_interval) (sym last') early),
        (
          beaten ∙ (λ i.
              beats i ++ sent_if_due heartbeat_interval (last i) r.now_time (packet (own i))),
          early',
        ),
      )

  -- With a sender that does not throw and positive intervals, a round of a loop that has thrown nothing
  -- throws nothing, and hands to the sender the packet of `tick` if and only if the telemetry interval
  -- has passed at the round's reading of the clock, and the heartbeat of the sensor's id if and only if
  -- the heartbeat interval has; behind the round neither timer is overdue.
  pub round_punctual :
      (telemetry_interval heartbeat_interval : ℕ) (r : Readings) (l : Loop)
      → 0 < telemetry_interval
      → 0 < heartbeat_interval
      → l.thrown ≡ none
      → let next = round sub send telemetry_interval heartbeat_interval r l in
        let packet = (tick sub send r.draw r.telemetry_now l.sensor).packet in
        let beat = serialize_heartbeat (heartbeat_message r.heartbeat_now l.sensor) in
        (next.thrown ≡ none)
        × ((next.telemetry_sent
              ≡ l.telemetry_sent
                ++ sent_if_due telemetry_interval l.last_telemetry r.now_time packet)
            × (r.now_time < next.last_telemetry + telemetry_interval))
        × ((next.heartbeat_sent
              ≡ l.heartbeat_sent ++ sent_if_due heartbeat_interval l.last_heartbeat r.now_time beat)
            × (r.now_time < next.last_heartbeat + heartbeat_interval))
  unfolding round
  round_punctual telemetry_interval heartbeat_interval r l ht hh clear =
      let mid : Loop = telemetry_timer sub send telemetry_interval r l in
      let (clear', _, _, _, _) = telemetry_timer-Punctual telemetry_interval r l ht clear in
      subst
        (λ o.
          Round telemetry_interval heartbeat_interval r l
            (proceed o (heartbeat_timer sub send heartbeat_interval r mid) mid))
        (sym clear') (both-Round telemetry_interval heartbeat_interval r l ht hh clear)
