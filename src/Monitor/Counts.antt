-- ===== src/Monitor/Counts.antt =====
-- The health counts against the registry.
use smart_sensor_network.Prelude.{
  ℕ, ◌+◌, ◌≡◌, refl, [], ◌∷◌, Bool, true, false, length, arith, if◌then◌else◌,
}
use smart_sensor_network.Protocol.{SensorHealth, unknown, online, offline}
use smart_sensor_network.Gateway.{Sensors, is_unknown, is_offline}
use smart_sensor_network.Monitor.{
  HealthCounts, count_one, count_from, count_health_sensors, get_stats, no_counts,
}

abbrev pub is_online : SensorHealth → Bool
is_online online = true
is_online _ = false

-- The number of sensors whose health passes a test.
abbrev pub number : (SensorHealth → Bool) → Sensors → ℕ
number p [] = 0
number p ((id, info) ∷ m) = (if p info.health then 1 else 0) + number p m

record Adds (hc : HealthCounts) (m : Sensors) (after : HealthCounts) : Type 0 where
  online_eq : after.online_count ≡ hc.online_count + number is_online m
  offline_eq : after.offline_count ≡ hc.offline_count + number is_offline m
  unknown_eq : after.unknown_count ≡ hc.unknown_count + number is_unknown m

count_one_lem :
    (h : SensorHealth) (hc : HealthCounts)
    → ((count_one h hc).online_count ≡ hc.online_count + (if is_online h then 1 else 0))
      × ((count_one h hc).offline_count ≡ hc.offline_count + (if is_offline h then 1 else 0))
      × ((count_one h hc).unknown_count ≡ hc.unknown_count + (if is_unknown h then 1 else 0))
count_one_lem online hc = omega arith
count_one_lem offline hc = omega arith
count_one_lem unknown hc = omega arith

count_from-Adds : (hc : HealthCounts) (m : Sensors) → Adds hc m (count_from hc m)
unfolding count_from
count_from-Adds hc [] = omega arith
count_from-Adds hc ((id, info) ∷ m) =
    omega (arith, count_one_lem info.health hc, count_from-Adds (count_one info.health hc) m)

number_total :
    (m : Sensors) → number is_online m + number is_offline m + number is_unknown m ≡ length m
number_total [] = refl
number_total ((id, info) ∷ m) = omega (arith, one_of info.health, number_total m)
  where
    one_of :
        (h : SensorHealth)
        → (if is_online h then 1 else 0)
            + (if is_offline h then 1 else 0)
            + (if is_unknown h then 1 else 0)
          ≡ 1
    one_of online = refl
    one_of offline = refl
    one_of unknown = refl

-- Each health count is the number of the registered sensors of that health, and together they count
-- every sensor once.
count_health_sensors_lem :
    (m : Sensors)
    → let hc = count_health_sensors m in
      (hc.online_count ≡ number is_online m)
      × (hc.offline_count ≡ number is_offline m)
      × (hc.unknown_count ≡ number is_unknown m)
      × (hc.online_count + hc.offline_count + hc.unknown_count ≡ length m)
unfolding count_health_sensors
count_health_sensors_lem m = omega (arith, count_from-Adds no_counts m, number_total m)

-- In the statistics of one view of the registry, the count of UNKNOWN sensors is 0 whatever their
-- number, so the health counts fall short of the total by exactly that number.
get_stats_short :
    (m : Sensors) (t h : ℕ)
    → let s = get_stats m m t h in
      (s.health.unknown_count ≡ 0)
      × (s.health.online_count + s.health.offline_count + number is_unknown m ≡ s.total_sensors)
unfolding get_stats
get_stats_short m t h =
    let c = count_health_sensors_lem m in (refl, omega (arith, c.0, c.1, c.2, c.3))
