-- ===== src/Tests/Orders.antt =====
-- Deliveries in either order, the text of a time, and sockets.
use smart_sensor_network.Prelude.{ℕ, ◌/◌, ◌%◌, ◌≡◌, refl, some, true, false, [], ◌∷◌, codes, arith}
use smart_sensor_network.Protocol.{telemetry, heartbeat, temperature, active}
use smart_sensor_network.Gateway.{Gateway, empty_gateway}
use smart_sensor_network.Gateway.Unordered.{
  Message, reported, alive, deliver, view, deliver-IsUnique, deliver_comm,
}
use smart_sensor_network.Monitor.{Moment, sensor_list}
use smart_sensor_network.Prelude.Decimal.{decimal}
use smart_sensor_network.Sockets.{
  AtEnd, open_sender, open_receiver, open_server, drop_sender, drop_receiver, drop_server,
  open_drop_balanced,
}
use smart_sensor_network.Time.{Tm, now, current_time_string}
use smart_sensor_network.Time.Text.{IsTm, read_time, read_time-current_time_string}

abbrev warmth : Message
warmth = reported (record {
  header = record { type = telemetry; sensor_id = 4; timestamp_ms = 900 };
  type = temperature;
  value = 0;
  state = active;
})

abbrev pulse : Message
pulse = alive (record { header = record { type = heartbeat; sensor_id = 5; timestamp_ms = 950 } })

deliver_comm_example :
    let one : Gateway = deliver 1000 warmth (deliver 1001 pulse empty_gateway) in
    let other : Gateway = deliver 1001 pulse (deliver 1000 warmth empty_gateway) in
    (view one (
        deliver-IsUnique 1000 warmth
          (deliver 1001 pulse empty_gateway)
          (deliver-IsUnique 1001 pulse empty_gateway tt))
      ≡ view other (
          deliver-IsUnique 1001 pulse
            (deliver 1000 warmth empty_gateway)
            (deliver-IsUnique 1000 warmth empty_gateway tt)))
    × ((seen : ℕ → Moment) → sensor_list seen one.sensors ≡ sensor_list seen other.sensors)
deliver_comm_example = deliver_comm 1000 1001 warmth pulse empty_gateway tt (λ e. ground arith)

abbrev utc : ℕ → Tm
utc second = record { hour = second / 3600 % 24; min = second / 60 % 60; sec = second % 60 }

utc-IsTm : (second : ℕ) → IsTm (utc second)
utc-IsTm second = record { hour_lt = omega arith; min_lt = omega arith; sec_le = omega arith }

-- 2001-09-09 01:46:40 and 7 milliseconds, in nanoseconds.
abbrev moment : ℕ
moment = 1_000_000_000_007_000_000

current_time_string-moment : current_time_string 1_000_000 utc moment ≡ codes "01:46:40.007"
unfolding current_time_string decimal
current_time_string-moment = refl

read_time-current_time_string_example :
    read_time (current_time_string 1_000_000 utc moment) ≡ some (1, 46, 40, 7)
unfolding now
read_time-current_time_string_example = read_time-current_time_string 1_000_000 utc moment utc-IsTm

open_drop_balanced_example :
    AtEnd drop_sender (open_sender (codes "127.0.0.1") 9000 (some 5) (3 ∷ [])) (3 ∷ [])
    × AtEnd (λ r d. (drop_receiver r d).1) (open_receiver (some 5) false (3 ∷ [])) (3 ∷ [])
    × AtEnd (λ s d. (drop_server s d).1) (open_server (some 5) false true (3 ∷ [])) (3 ∷ [])
open_drop_balanced_example =
    open_drop_balanced (codes "127.0.0.1") 9000 (some 5) false true (3 ∷ [])
