-- ===== src/Tests/Systems.antt =====
-- Schedules of the demo.
use smart_sensor_network.Prelude.{
  ap, ℕ, ◌≡◌, refl, true, false, none, some, List, [], ◌∷◌, ◌++◌, Bytes, arith, replicate,
}
use smart_sensor_network.Udp.{Receiver}
use smart_sensor_network.Tcp.Server.{Server}
use smart_sensor_network.Udp.{receive_packet}
use smart_sensor_network.System.World.{receive_next, receive_at, sweep_at, beat_node, beat_sensor}
use smart_sensor_network.Sensor.{get_id}
use smart_sensor_network.Serializer.{serialize_heartbeat, deserialize_heartbeat, peek_message_type}
use smart_sensor_network.Wire.{write, read}
use smart_sensor_network.Protocol.{message_type, message_type_byte}
use smart_sensor_network.Gateway.{handle_packet, handle_heartbeat, detect_offline_sensors}
use smart_sensor_network.Registry.{modify}
use smart_sensor_network.Node.{heartbeat_message, udp_send, send_heartbeat}
use smart_sensor_network.System.Script.{
  Thread, udp_thread, tcp_thread, dashboard_thread, watchdog_thread, telemetry_thread,
  heartbeat_thread,
}
use smart_sensor_network.System.State.{
  System, Action, proceed, open_thread, enter, test, receive, accept_next, read_clock, sweep,
  pass_time, initial, exited,
}
use smart_sensor_network.System.Steps.{
  may_execute, execute, run_opening, run_entering, allowed, apply, fire, Reach,
}
use smart_sensor_network.Protocol.{offline}
use smart_sensor_network.Gateway.{SensorInfo, initial_info}
use smart_sensor_network.System.Outcome.{Reach-Finish}
use smart_sensor_network.System.Finishes.{Finish}
use smart_sensor_network.System.Live.{Lost}
use smart_sensor_network.Prelude.{◌↔◌}
use smart_sensor_network.System.Runs.{go, Reach-go}
use smart_sensor_network.System.Joins.{Reach-exited}
use smart_sensor_network.System.Invariant.{IsWorld}
use smart_sensor_network.System.Reachable.{Reach-IsWorld}
use smart_sensor_network.System.Heard.{is_down}
use smart_sensor_network.System.Silent.{Reach-is_down}
use smart_sensor_network.System.Live.{will_clear, has_socket}
use smart_sensor_network.System.Lost.{Reach-will_clear}
use smart_sensor_network.System.Idle.{go_idle}
use smart_sensor_network.Gateway.Invariant.{IsTime}
use smart_sensor_network.Registry.{find}
use smart_sensor_network.Prelude.{◌≢◌}
use smart_sensor_network.System.State.{entering, working}

abbrev pub nothing_left : ℕ → ℕ → ℕ
nothing_left a d = 0

abbrev pub blank : ℕ → Bytes
blank n = []

abbrev pub receiver : Receiver
receiver = record { sockfd = some 3; running = false }

abbrev pub server : Server
server = record { server_socket = some 4; client_connected = false; last_command = []; logs = [] }

abbrev pub start_state : System
start_state = initial receiver server 1000

abbrev pub proceeds : ℕ → List Action
proceeds n = replicate n (proceed false)

abbrev pub begin : Thread → List Action
begin t = open_thread t ∷ enter t ∷ []

-- Up to the joins, with the thread of the receiver before its `run()`.
abbrev up_to_joins : List Action
up_to_joins =
    proceeds 3
    ++ (open_thread udp_thread
        ∷ (begin tcp_thread
            ++ (proceeds 35
                ++ (begin dashboard_thread
                    ++ (begin watchdog_thread
                        ++ (begin telemetry_thread ++ begin heartbeat_thread))))))

abbrev tests : List Action
tests =
    test dashboard_thread
    ∷ test watchdog_thread
    ∷ test telemetry_thread
    ∷ test heartbeat_thread
    ∷ []

abbrev whole : List Action
whole =
    up_to_joins
    ++ (enter udp_thread
        ∷ (tests ++ (proceeds 6 ++ (test udp_thread ∷ test tcp_thread ∷ proceeds 3))))

abbrev pub run : List Action → System
run actions = go nothing_left blank actions start_state

-- The whole run, and the first heartbeat of sensor 3 handled on the way, with the sweep ten seconds later.
whole_todo : (run whole).todo ≡ []
unfolding go fire allowed apply may_execute execute run_opening run_entering beat_node beat_sensor
    send_heartbeat udp_send
whole_todo = refl

whole-Reach : Reach nothing_left blank start_state (run whole)
whole-Reach = Reach-go nothing_left blank whole start_state

pub start_IsTime : IsTime 1000
start_IsTime = (omega arith, omega arith)

Reach-exited_example : (run whole).phases.tcp ≡ exited
Reach-exited_example =
    Reach-exited nothing_left blank tcp_thread receiver server 1000 whole-Reach whole_todo

Reach-IsWorld_example : IsWorld (run whole).world
Reach-IsWorld_example =
    Reach-IsWorld nothing_left blank (λ a d. omega arith) receiver server 1000 start_IsTime
      whole-Reach

-- The heartbeats of `main` are under way; the third is received, and then the watchdog finds sensor 3
-- silent.
abbrev pub silence : List Action
silence =
    proceeds 3
    ++ (begin udp_thread
        ++ (begin tcp_thread
            ++ (proceeds 18
                ++ (test udp_thread
                    ∷ receive 2
                    ∷ pass_time 30000
                    ∷ (begin watchdog_thread
                        ++ (test watchdog_thread ∷ read_clock ∷ sweep ∷ []))))))

abbrev down_state : System
down_state = run silence

abbrev down_info : SensorInfo
down_info = record initial_info { last_heartbeat_received_time = 1000; health = offline }

down_entry : find 3 down_state.world.gateway.sensors ≡ some down_info
unfolding go fire allowed apply may_execute execute run_opening run_entering beat_node beat_sensor
    send_heartbeat udp_send find receive_next receive_at receive_packet sweep_at heartbeat_message
    get_id serialize_heartbeat write message_type_byte handle_packet peek_message_type read
    message_type deserialize_heartbeat handle_heartbeat modify detect_offline_sensors
down_entry = refl

down : is_down (find 3 down_state.world.gateway.sensors) ≡ true
down = ap is_down down_entry

Reach-is_down_example :
    is_down (find 3 (go nothing_left blank whole down_state).world.gateway.sensors) ≡ true
Reach-is_down_example =
    Reach-is_down nothing_left blank (λ a d. omega arith) receiver server 1000 start_IsTime
      (Reach-go nothing_left blank silence start_state) down
      (Reach-go nothing_left blank whole down_state)

-- `stop()` of the receiver, whose thread has not yet begun `run()`.
abbrev hasty : List Action
hasty = up_to_joins ++ (tests ++ proceeds 6)

has_hasty_stop :
    let s = run hasty in
    (has_socket udp_thread s ≡ true)
    × (will_clear udp_thread s.todo ≡ false)
    × (s.phases.udp ≡ entering)
unfolding go fire allowed apply may_execute execute run_opening run_entering beat_node beat_sensor
    send_heartbeat udp_send
has_hasty_stop = (refl, refl, refl)

Reach-will_clear_example :
    let v = go nothing_left blank (enter udp_thread ∷ test udp_thread ∷ proceeds 3) (run hasty) in
    (v.phases.udp ≢ exited) × (v.todo ≢ [])
Reach-will_clear_example =
    Reach-will_clear nothing_left blank udp_thread receiver server 1000
      (Reach-go nothing_left blank hasty start_state) has_hasty_stop.0 has_hasty_stop.1
      has_hasty_stop.2
      (Reach-go nothing_left blank (enter udp_thread ∷ test udp_thread ∷ proceeds 3) (run hasty))

-- A client that says nothing, while `main` goes on.
abbrev greeting : List Action
greeting = proceeds 3 ++ (begin tcp_thread ++ (test tcp_thread ∷ accept_next true ∷ []))

greeted : ((run greeting).phases.tcp ≡ working 1) × ((run greeting).world.thrown ≡ none)
unfolding go fire allowed apply may_execute execute run_opening run_entering
greeted = (refl, refl)

go_idle_example :
    let v = go nothing_left blank (begin udp_thread ++ proceeds 2) (run greeting) in
    (v.phases.tcp ≡ working 1) × (v.todo ≢ [])
go_idle_example =
    go_idle nothing_left blank receiver server 1000 (begin udp_thread ++ proceeds 2)
      (Reach-go nothing_left blank greeting start_state) greeted.0
      (refl, (refl, (refl, (refl, tt))))

-- At the greeting, nothing is lost yet.
Reach-Finish_example :
    let s = run greeting in
    Finish nothing_left blank s ↔ (¬ Lost udp_thread s × ¬ Lost tcp_thread s)
Reach-Finish_example =
    Reach-Finish nothing_left blank (λ a d. omega arith) receiver server 1000 start_IsTime
      (Reach-go nothing_left blank greeting start_state) greeted.1
