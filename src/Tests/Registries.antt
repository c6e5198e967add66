-- ===== src/Tests/Registries.antt =====
-- The gateway, the watchdog and the reports on concrete registries.
use smart_sensor_network.Prelude.{
  ℕ, none, ◌%◌, ◌≡◌, refl, map, List, [], ◌∷◌, length, take, arith, ltb, if◌then◌else◌, ok, throw,
}
use smart_sensor_network.Protocol.{message_type, sensor_type, sensor_state, online, unknown}
use smart_sensor_network.Wire.{underflow, read}
use smart_sensor_network.Serializer.{
  deserialize_telemetry, deserialize_heartbeat, peek_message_type,
}
use smart_sensor_network.Serializer.Decode.{word}
use smart_sensor_network.Registry.{find, modify}
use smart_sensor_network.Gateway.{
  SensorInfo, Sensors, Gateway, empty_gateway, u64_mod, update_sensor_info, handle_heartbeat,
  handle_packet, detect_offline_sensors, offline_log,
}
use smart_sensor_network.Gateway.Handlers.{handled, handle_packet_lem}
use smart_sensor_network.Gateway.Watchdog.{fallen, turned, detect_offline_sensors-logs}
use smart_sensor_network.Gateway.Single.{observe_all, find-run}
use smart_sensor_network.Gateway.Invariant.{IsGateway}
use smart_sensor_network.Gateway.History.{Call, packet, watch, run, step, run-IsGateway}
use smart_sensor_network.Gateway.Counting.{count_packets, is_telemetry, is_heartbeat, run-counters}
use smart_sensor_network.Monitor.{Moment}
use smart_sensor_network.Tests.Packets.{warm, warm_packet, alive_packet}

-- Telemetry from sensor 7 at 2000, its heartbeat at 2100, and a sweep at 3000.
abbrev calls : List Call
calls = packet 2000 warm_packet ∷ packet 2100 alive_packet ∷ watch 3000 ∷ []

abbrev warm_info : SensorInfo
warm_info = record {
  last_telemetry = warm;
  last_telemetry_received_time = 2000;
  last_heartbeat_received_time = 2100;
  health = online;
}

abbrev one_sensor : Gateway
one_sensor = record {
  sensors = (7, warm_info) ∷ [];
  telemetry_packets_received = 1;
  heartbeat_packets_received = 1;
}

run-calls : run calls empty_gateway ≡ ok (one_sensor, [])
unfolding run step handle_packet peek_message_type read message_type deserialize_telemetry
    deserialize_heartbeat detect_offline_sensors handle_heartbeat modify update_sensor_info
    sensor_type sensor_state
run-calls = refl

handle_packet_short : handle_packet 2000 (take 12 warm_packet) empty_gateway ≡ throw underflow
unfolding handle_packet peek_message_type read
handle_packet_short = refl

handle_packet_lem_example : handle_packet 2000 warm_packet empty_gateway ≡ (
    if ltb (length warm_packet) 13
    then throw underflow
    else handled 2000 warm_packet empty_gateway (message_type (word 1 0 warm_packet)))
handle_packet_lem_example = handle_packet_lem 2000 warm_packet empty_gateway (omega arith)

run-IsGateway_example : IsGateway one_sensor
run-IsGateway_example = run-IsGateway calls (omega arith) run-calls

find-run_example : find 7 one_sensor.sensors ≡ observe_all 7 calls none
find-run_example = find-run 7 calls (omega arith) run-calls

run-counters_example :
    (one_sensor.telemetry_packets_received ≡ count_packets is_telemetry calls % u64_mod)
    × (one_sensor.heartbeat_packets_received ≡ count_packets is_heartbeat calls % u64_mod)
run-counters_example = run-counters calls (omega arith) run-calls

detect_offline_sensors-logs_example :
    let (gateway, logs) = detect_offline_sensors 12101 one_sensor in
    (logs ≡ map offline_log (turned one_sensor.sensors gateway.sensors))
    × (turned one_sensor.sensors gateway.sensors ≡ fallen 12101 one_sensor.sensors)
detect_offline_sensors-logs_example = detect_offline_sensors-logs 12101 one_sensor (omega arith)

-- Two sensors in the two orders of iteration, and a third of which only telemetry is known.
abbrev silent_info : SensorInfo
silent_info = record warm_info { health = unknown; last_heartbeat_received_time = 0 }

abbrev two_sensors : Sensors
two_sensors = (9, warm_info) ∷ (7, silent_info) ∷ []

abbrev two_swapped : Sensors
two_swapped = (7, silent_info) ∷ (9, warm_info) ∷ []

abbrev seen : ℕ → Moment
seen id = record { gateway = one_sensor; now = 4000 }
