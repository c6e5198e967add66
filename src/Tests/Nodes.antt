-- ===== src/Tests/Nodes.antt =====
-- Sensors, nodes and the logger on concrete readings.
use smart_sensor_network.Prelude.{
  ℕ, ◌++◌, false, ◌+◌, ◌-◌, ◌*◌, ◌<◌, ◌≤◌, ◌≡◌, ◌&&◌, refl, none, List, [], ◌∷◌, Bytes, codes,
  length, arith, ltb, if◌then◌else◌, Result, ok,
}
use smart_sensor_network.Protocol.{active}
use smart_sensor_network.Sensor.{
  Sensor, battery_sensor, new_temperature_sensor, collect_data, reading, create_telemetry, get_id,
  battery_state, pressure_state, full_battery,
}
use smart_sensor_network.Sensor.Readings.{pressure_state_always}
use smart_sensor_network.Sensor.Battery.{IsSubtraction, Drains, collect_all, collect_all-Drains}
use smart_sensor_network.Gateway.{Gateway, empty_gateway, update_sensor_info, handle_packet}
use smart_sensor_network.Node.{Loop, Readings, tick, run_node, round}
use smart_sensor_network.Node.Delivery.{handle_packet-tick}
use smart_sensor_network.Monitor.{details}
use smart_sensor_network.Tcp.{Views, normalize, get_prefix, process_request}
use smart_sensor_network.Prelude.Decimal.{decimal}
use smart_sensor_network.Node.Report.{told, process_request-tick}
use smart_sensor_network.Node.Pace.{run_node_paced}
use smart_sensor_network.Node.Punctual.{sent_if_due, round_punctual}
use smart_sensor_network.Node.{heartbeat_message}
use smart_sensor_network.Serializer.{serialize_heartbeat}
use smart_sensor_network.Protocol.{TelemetryMessage}
use smart_sensor_network.Prelude.{◌>>=◌}
use smart_sensor_network.Logger.{new_logger, get_recent_logs, max_history}
use smart_sensor_network.Logger.Shutdown.{
  State, Steps, here, next, blocking, exited, started, work, clear, notify_all, join, joined,
  IsHung, fire, Steps-joined, blocking-IsHung,
}
use smart_sensor_network.Logger.History.{
  Event, logged, drained, run, lines, last_of, get_recent_logs-run,
}

-- A subtraction of non-negative numbers by their patterns, down to 0.
abbrev pub lesser : ℕ → ℕ → ℕ
lesser a d = if ltb a 0x7ff0_0000_0000_0000 && ltb d a then a - d else 0

lesser-IsSubtraction : IsSubtraction lesser
lesser-IsSubtraction = record { number = λ a d h k. ground arith; falls = λ a d h k. ground arith }

abbrev pub send_ok : Bytes → Result (Unit {0})
send_ok packet = ok tt

-- 31.0 degrees.
abbrev warm_draw : ℕ
warm_draw = 0x403f_0000_0000_0000

abbrev pub thermometer : Sensor
thermometer = new_temperature_sensor 7

handle_packet-tick_example :
    let message = reading 1000 (collect_data lesser warm_draw thermometer).0 in
    (handle_packet 2000 (tick lesser send_ok warm_draw 1000 thermometer).packet empty_gateway
      ≡ ok (update_sensor_info 2000 message empty_gateway, []))
    × (message.header.sensor_id ≡ get_id thermometer)
    × (message.header.timestamp_ms ≡ 1000)
    × (message.value ≡ (collect_data lesser warm_draw thermometer).1)
    × ((tick lesser send_ok warm_draw 1000 thermometer).outcome
        ≡ (send_ok (tick lesser send_ok warm_draw 1000 thermometer).packet >>= λ _. ok message))
unfolding collect_data
handle_packet-tick_example =
    handle_packet-tick lesser send_ok warm_draw 1000 2000 thermometer empty_gateway (omega arith)
      (omega arith) (omega arith)

-- Rounds at 600, 1100 and 2200 on the steady clock.
abbrev pub at : ℕ → Readings
at time = record { now_time = time; draw = warm_draw; telemetry_now = time; heartbeat_now = time }

abbrev readings : List Readings
readings = at 600 ∷ at 1100 ∷ at 2200 ∷ []

run_node_paced_example :
    let l = run_node lesser send_ok 1000 2000 100 101 thermometer readings in
    (length l.telemetry_sent * 1000 + 100 ≤ 2200) × (length l.heartbeat_sent * 2000 + 100 ≤ 2200)
run_node_paced_example =
    run_node_paced lesser send_ok 1000 2000 100 100 101 2200 thermometer readings (omega arith)
      (omega arith) (omega arith) (omega arith) (omega arith)

abbrev starting : Loop
starting = record {
  sensor = thermometer;
  last_telemetry = 100;
  last_heartbeat = 100;
  telemetry_sent = [];
  heartbeat_sent = [];
  thrown = none;
}

round_punctual_example :
    let next = round lesser send_ok 1000 2000 (at 1100) starting in
    let packet = (tick lesser send_ok warm_draw 1100 thermometer).packet in
    let beat = serialize_heartbeat (heartbeat_message 1100 thermometer) in
    (next.thrown ≡ none)
    × ((next.telemetry_sent ≡ sent_if_due 1000 100 1100 packet)
        × (1100 < next.last_telemetry + 1000))
    × ((next.heartbeat_sent ≡ sent_if_due 2000 100 1100 beat) × (1100 < next.last_heartbeat + 2000))
round_punctual_example =
    round_punctual lesser send_ok (λ p. refl) 1000 2000 (at 1100) starting (omega arith)
      (omega arith) refl

-- A battery at 100.0, and drains of 0.25 and 0.5.
abbrev full : Sensor
full =
    battery_sensor
      (record {
        sensor_id = 3;
        current_reading = none;
        current_state = active;
        current_value = full_battery;
      })
      full_battery

abbrev drains : List ℕ
drains = 0x3fd0_0000_0000_0000 ∷ 0x3fe0_0000_0000_0000 ∷ []

collect_all-Drains_example : Drains full (collect_all lesser drains full)
unfolding battery_state
collect_all-Drains_example =
    collect_all-Drains lesser lesser-IsSubtraction drains full (ground arith) (ground arith)

-- 41.0, far below the lower error threshold.
pressure_state_always_example : pressure_state 0x4044_8000_0000_0000 ≡ active
pressure_state_always_example = pressure_state_always 0x4044_8000_0000_0000

abbrev events : List Event
events =
    logged (codes "10:00:00") (codes "first")
    ∷ drained
    ∷ logged (codes "10:00:01") (codes "second")
    ∷ []

get_recent_logs-run_example :
    get_recent_logs (run events new_logger) ≡ last_of max_history (lines events)
get_recent_logs-run_example = get_recent_logs-run events

-- `stop()` before the worker first tests the flag.
stopped_early :
    Steps started (record started { worker = exited; stopper = joined; running = false })
unfolding fire
stopped_early = next (next (next (next here clear refl) work refl) notify_all refl) join refl

Steps-joined_example : (exited ≡ exited) × (false ≡ false)
Steps-joined_example = Steps-joined stopped_early refl

-- The worker has found the queue empty, and is about to wait.
abbrev about_to_wait : State
about_to_wait = record started { worker = blocking }

blocking-IsHung_example : (t : State) × Steps about_to_wait t × IsHung t
blocking-IsHung_example = blocking-IsHung about_to_wait refl refl refl

-- The packet of a tick of sensor 7 reaches an empty gateway, and a client asks for the sensor.
abbrev message : TelemetryMessage
message = reading 1000 (collect_data lesser warm_draw thermometer).0

abbrev after : Gateway
after = update_sensor_info 2000 message empty_gateway

abbrev views : Views
views = record {
  sized = after.sensors;
  sensors = after.sensors;
  counted = after.sensors;
  telemetry_packets = 1;
  heartbeat_packets = 0;
  seen = λ id. record { gateway = after; now = 2000 };
}

abbrev show : ℕ → Bytes
show value = codes "31"

request_normalized : normalize (codes "get 7\r\n") ≡ get_prefix ++ decimal (get_id thermometer)
unfolding normalize decimal get_id
request_normalized = refl

delivered :
    handle_packet 2000 (tick lesser send_ok warm_draw 1000 thermometer).packet empty_gateway
    ≡ ok (after, [])
unfolding collect_data
delivered =
    (handle_packet-tick lesser send_ok warm_draw 1000 2000 thermometer empty_gateway (omega arith)
      (omega arith) (omega arith)).0

process_request-tick_example :
    (process_request show views (codes "get 7\r\n")).response
    ≡ ok (details show (views.seen 7) 7 (told 2000 7 message empty_gateway))
unfolding get_id collect_data tick create_telemetry
process_request-tick_example =
    process_request-tick lesser send_ok warm_draw 1000 2000 thermometer message empty_gateway after
      [] show views (codes "get 7\r\n") (omega arith) (omega arith) (omega arith) refl delivered
      refl request_normalized (omega arith) (omega arith)
