-- ===== src/Tests/Rounds.antt =====
-- Rounds of the demo's threads.
use smart_sensor_network.Prelude.{◌≡◌, refl, true, false, none, some, List, [], ◌∷◌, ◌++◌, arith}
use smart_sensor_network.Udp.{receive_packet}
use smart_sensor_network.System.World.{receive_next, receive_at, sweep_at, beat_node, beat_sensor}
use smart_sensor_network.Sensor.{get_id}
use smart_sensor_network.Serializer.{serialize_heartbeat, deserialize_heartbeat, peek_message_type}
use smart_sensor_network.Wire.{write, read}
use smart_sensor_network.Protocol.{message_type, message_type_byte}
use smart_sensor_network.Gateway.{handle_packet, handle_heartbeat, detect_offline_sensors}
use smart_sensor_network.Registry.{modify}
use smart_sensor_network.Node.{heartbeat_message, udp_send, send_heartbeat}
use smart_sensor_network.System.Script.{udp_thread, tcp_thread, watchdog_thread, heartbeat_thread}
use smart_sensor_network.System.State.{Action, test, receive, read_clock, sweep, pass_time}
use smart_sensor_network.System.Steps.{
  may_execute, execute, run_opening, run_entering, allowed, apply, fire,
}
use smart_sensor_network.Protocol.{offline}
use smart_sensor_network.Gateway.{SensorInfo, initial_info}
use smart_sensor_network.System.Detects.{Reach-detects}
use smart_sensor_network.System.Races.{Reach-detects_early}
use smart_sensor_network.System.Traffic.{counted}
use smart_sensor_network.System.Counted.{beats_left, sends_all, go-traffic}
use smart_sensor_network.Prelude.{◌≤◌}
use smart_sensor_network.System.Recovers.{recovered, Reach-recovered}
use smart_sensor_network.System.Steps.{is_skipped}
use smart_sensor_network.System.State.{beat_next, is_working}
use smart_sensor_network.Registry.{or_initial}
use smart_sensor_network.Gateway.Watchdog.{overdue}
use smart_sensor_network.Protocol.{online}
use smart_sensor_network.Prelude.{◌+◌, length, if◌then◌else◌}
use smart_sensor_network.System.Runs.{go, Reach-go}
use smart_sensor_network.Registry.{find}
use smart_sensor_network.System.State.{working, testing}
use smart_sensor_network.Tests.Systems.{
  nothing_left, blank, receiver, server, start_state, proceeds, begin, run, silence, start_IsTime,
}

-- Both services run, and the heartbeat thread stands at the first node.
abbrev beating : List Action
beating =
    proceeds 3
    ++ (begin udp_thread
        ++ (begin tcp_thread
            ++ (proceeds 18
                ++ (begin heartbeat_thread
                    ++ (test heartbeat_thread ∷ test udp_thread ∷ begin watchdog_thread)))))

beats_first :
    let s = run beating in
    (s.world.thrown ≡ none)
    × (s.phases.heartbeat ≡ working 0)
    × (is_skipped 0 s ≡ false)
    × (is_working s.phases.udp ≡ true)
    × (s.world.clock ≡ 1000)
unfolding go fire allowed apply may_execute execute run_opening run_entering beat_node beat_sensor
    send_heartbeat udp_send
beats_first = (refl, refl, refl, refl, refl)

Reach-recovered_example :
    let s = run beating in
    let v =
      go nothing_left blank
        (beat_next false ∷ pass_time 7 ∷ receive (length s.world.network) ∷ [])
        s in
    let old = or_initial initial_info (find 1 s.world.gateway.sensors) in
    (find 1 v.world.gateway.sensors ≡ some (recovered (s.world.clock + 7) old))
    × (v.world.network ≡ s.world.network)
    × (v.phases.heartbeat ≡ working 1)
    × (v.phases.udp ≡ testing)
Reach-recovered_example =
    let (quiet, at, goes, works, clock) = beats_first in
    Reach-recovered nothing_left blank (λ a d. omega arith) receiver server 1000 0 7 start_IsTime
      (Reach-go nothing_left blank beating start_state) quiet at (omega arith) goes works
      (omega (arith, clock))

-- The third heartbeat was received, and the watchdog is at the reading of the clock.
abbrev watching : List Action
watching =
    proceeds 3
    ++ (begin udp_thread
        ++ (begin tcp_thread
            ++ (proceeds 18
                ++ (test udp_thread
                    ∷ receive 2
                    ∷ (begin watchdog_thread ++ (test watchdog_thread ∷ []))))))

abbrev watched_info : SensorInfo
watched_info = record initial_info { last_heartbeat_received_time = 1000; health = online }

watches_third :
    let s = run watching in
    (s.world.thrown ≡ none)
    × (s.phases.watchdog ≡ working 0)
    × (s.world.clock ≡ 1000)
    × (find 3 s.world.gateway.sensors ≡ some watched_info)
unfolding go fire allowed apply may_execute execute run_opening run_entering beat_node beat_sensor
    send_heartbeat udp_send find receive_next receive_at receive_packet sweep_at heartbeat_message
    get_id serialize_heartbeat write message_type_byte handle_packet peek_message_type read
    message_type deserialize_heartbeat handle_heartbeat modify detect_offline_sensors
watches_third = (refl, refl, refl, refl)

Reach-detects_example :
    let s = run watching in
    let v = go nothing_left blank (pass_time 30000 ∷ read_clock ∷ pass_time 5 ∷ sweep ∷ []) s in
    (find 3 v.world.gateway.sensors
      ≡ some (
          if overdue (s.world.clock + 30000) watched_info
          then record watched_info { health = offline }
          else watched_info))
    × (v.phases.watchdog ≡ testing)
Reach-detects_example =
    let (quiet, at, clock, entry) = watches_third in
    Reach-detects nothing_left blank (λ a d. omega arith) receiver server 1000 30000 5 3
      start_IsTime (Reach-go nothing_left blank watching start_state) quiet at
      (omega (arith, clock)) entry

-- The watchdog is at the reading of the clock as well.
abbrev racing : List Action
racing = beating ++ (test watchdog_thread ∷ [])

races_first :
    let s = run racing in
    (s.world.thrown ≡ none)
    × (s.phases.watchdog ≡ working 0)
    × (s.phases.heartbeat ≡ working 0)
    × (is_skipped 0 s ≡ false)
    × (is_working s.phases.udp ≡ true)
    × (s.world.clock ≡ 1000)
unfolding go fire allowed apply may_execute execute run_opening run_entering beat_node beat_sensor
    send_heartbeat udp_send
races_first = (refl, refl, refl, refl, refl, refl)

Reach-detects_early_example :
    let s = run racing in
    let v =
      go nothing_left blank
        (read_clock ∷ beat_next false ∷ pass_time 7 ∷ receive (length s.world.network) ∷ sweep ∷ [])
        s in
    let old = or_initial initial_info (find 1 s.world.gateway.sensors) in
    find 1 v.world.gateway.sensors
    ≡ some (record old { last_heartbeat_received_time = s.world.clock + 7; health = offline })
Reach-detects_early_example =
    let (quiet, watches, at, goes, works, clock) = races_first in
    Reach-detects_early nothing_left blank (λ a d. omega arith) receiver server 1000 0 7
      start_IsTime (Reach-go nothing_left blank racing start_state) quiet watches at (omega arith)
      goes works (omega arith) (omega (arith, clock)) (omega arith)

go-traffic_example :
    let v = run silence in
    counted v.world.gateway + length v.world.network + beats_left v.todo ≤ 7 + sends_all silence
go-traffic_example =
    go-traffic nothing_left blank (λ a d. omega arith) receiver server 1000 silence start_IsTime
