-- ===== src/Sensor/Battery.antt =====
-- The battery's charge over time, for any subtraction that rounds as IEEE 754 does.
use smart_sensor_network.Prelude.{ℕ, ◌<◌, ◌≤◌, ◌≡◌, refl, List, [], ◌∷◌, All, arith}
use native.Mathlib.Nat.{le_refl, le_trans}
use smart_sensor_network.Double.{rank, IsNumber, infinity}
use smart_sensor_network.Sensor.{
  Sensor, motion_sensor, temperature_sensor, battery_sensor, pressure_sensor, battery_state,
  drained, collect_data, base_of, full_battery, new_battery_sensor,
}
use smart_sensor_network.Sensor.Readings.{severity, battery_state_mono}

-- A number from 0 to 100, and one from 0 up that is finite.
abbrev pub IsCharge : ℕ → Type 0
IsCharge x = IsNumber x × (rank 0 ≤ rank x) × (rank x ≤ rank full_battery)

abbrev pub IsDrain : ℕ → Type 0
IsDrain x = IsNumber x × (rank 0 ≤ rank x) × (rank x < rank infinity)

-- IEEE 754: the difference of two finite numbers is a number, and taking away what is not negative
-- gives no more than there was.
pub record IsSubtraction (sub : ℕ → ℕ → ℕ) : Type 0 where
  pub number : (a d : ℕ) → IsCharge a → IsDrain d → IsNumber (sub a d)
  pub falls : (a d : ℕ) → IsCharge a → IsDrain d → rank (sub a d) ≤ rank a

-- `collectData` once for each draw, the first draw first.
pub collect_all : (ℕ → ℕ → ℕ) → List ℕ → Sensor → Sensor
unfolding collect_data
collect_all sub [] s = s
collect_all sub (draw ∷ draws) s = collect_all sub draws (collect_data sub draw s).0

-- A battery whose charge is in range and whose state is that of its charge.
abbrev pub IsBattery : Sensor → Type 0
IsBattery (battery_sensor base level) =
    IsCharge level × (base.current_value ≡ level) × (base.current_state ≡ battery_state level)
IsBattery _ = ⊥

abbrev pub level_of : Sensor → ℕ
level_of (motion_sensor base level) = level
level_of (temperature_sensor base level) = level
level_of (battery_sensor base level) = level
level_of (pressure_sensor base level) = level

-- The second sensor is a battery with no more charge, and in no better state.
pub record Drains (s t : Sensor) : Type 0 where
  pub stays : IsBattery t
  pub charge_le : rank (level_of t) ≤ rank (level_of s)
  pub severity_le : severity (base_of s).current_state ≤ severity (base_of t).current_state

module _ (sub : ℕ → ℕ → ℕ) (laws : IsSubtraction sub) where
  pub drained-IsCharge :
      (level drain : ℕ)
      → IsCharge level
      → IsDrain drain
      → IsCharge (drained sub level drain) × (rank (drained sub level drain) ≤ rank level)
  unfolding drained
  drained-IsCharge level drain h d =
      ground (arith, laws.number level drain h d, laws.falls level drain h d)

  collect_data-Drains :
      (draw : ℕ) (s : Sensor) → IsBattery s → IsDrain draw → Drains s (collect_data sub draw s).0
  unfolding collect_data
  collect_data-Drains draw (motion_sensor base level) h d = absurd h
  collect_data-Drains draw (temperature_sensor base level) h d = absurd h
  collect_data-Drains draw (battery_sensor base level) h d =
      let (charge, falls) = drained-IsCharge level draw h.0 d in
      record {
        stays = (charge, refl, refl);
        charge_le = falls;
        severity_le =
            rw h.2 (battery_state_mono (drained sub level draw) level charge.0 h.0.0 falls);
      }
  collect_data-Drains draw (pressure_sensor base level) h d = absurd h

  -- For a subtraction that keeps the two laws above: over any sequence of collections with finite drains
  -- that are not negative, from a battery whose value and state are those of its charge, the charge of a battery stays between 0 and 100 and never rises,
  -- its value and state are those of its charge, and its state never gets better.
  pub collect_all-Drains :
      (draws : List ℕ) (s : Sensor)
      → IsBattery s
      → All IsDrain draws
      → Drains s (collect_all sub draws s)
  unfolding collect_all
  collect_all-Drains [] s h d = record { stays = h; charge_le = le_refl _; severity_le = le_refl _ }
  collect_all-Drains (draw ∷ draws) s h d =
      let next = collect_data-Drains draw s h d.0 in
      let rest = collect_all-Drains draws (collect_data sub draw s).0 next.stays d.1 in
      record {
        stays = rest.stays;
        charge_le = le_trans rest.charge_le next.charge_le;
        severity_le = le_trans next.severity_le rest.severity_le;
      }

-- A new battery sensor is full, but its value is 0 until it first collects; a first collection makes
-- it a battery as above.
pub collect_data-IsBattery :
    (sub : ℕ → ℕ → ℕ) (laws : IsSubtraction sub) (id draw : ℕ)
    → IsDrain draw
    → IsBattery (collect_data sub draw (new_battery_sensor id)).0
unfolding collect_data
collect_data-IsBattery sub laws id draw d =
    let full : IsCharge full_battery = ground arith in
    ((drained-IsCharge sub laws full_battery draw full d).0, refl, refl)
