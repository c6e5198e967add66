-- ===== src/Tests/Requests.antt =====
-- The server on concrete requests.
use smart_sensor_network.Prelude.{
  ℕ, true, false, some, All, ◌≤◌, ◌≡◌, refl, List, [], ◌∷◌, ◌++◌, Bytes, codes, length, arith, ok,
  throw, invalid_argument, ◌>>=◌,
}
use smart_sensor_network.Prelude.Decimal.{decimal}
use smart_sensor_network.Prelude.Int.{stoi}
use smart_sensor_network.Registry.{find}
use smart_sensor_network.Protocol.{online}
use smart_sensor_network.Gateway.{SensorInfo, Sensors}
use smart_sensor_network.Monitor.{Moment, details}
use smart_sensor_network.Tcp.{
  Views, normalize, process_request, command_log, not_found_log, check_id, get_prefix,
}
use smart_sensor_network.Tcp.Requests.{process_request-get_misreported}
use smart_sensor_network.Tcp.Session.{sent_all, send_loop, send_loop_complete, Exchange, Session}
use smart_sensor_network.Tcp.Session.{handle_client}
use smart_sensor_network.Tcp.{reply_to, answer, pop_newlines, same_text, starts_with, parse_id}
use smart_sensor_network.Prelude.{replicate}
use smart_sensor_network.Tcp.Answers.{
  IsSent, heard, responses, logged, last_request, handle_client-responses,
}
use smart_sensor_network.Tcp.Server.{
  Server, Accepted, nobody, accept_failed, client, server_started_log, Served, run_server,
  run_server_sessions,
}
use smart_sensor_network.Monitor.{SystemStats}
use smart_sensor_network.Console.{log_lines}
use smart_sensor_network.Console.Layout.{IsLine, log_lines_shape}
use smart_sensor_network.Tests.Packets.{warm}

-- Sensor 7 alone in the registry.
abbrev seventh : SensorInfo
seventh = record {
  last_telemetry = warm;
  last_telemetry_received_time = 2000;
  last_heartbeat_received_time = 2100;
  health = online;
}

abbrev registry : Sensors
registry = (7, seventh) ∷ []

abbrev moment : ℕ → Moment
moment id = record {
  gateway = record {
    sensors = registry;
    telemetry_packets_received = 1;
    heartbeat_packets_received = 1;
  };
  now = 4100;
}

abbrev views : Views
views = record {
  sized = registry;
  sensors = registry;
  counted = registry;
  telemetry_packets = 1;
  heartbeat_packets = 1;
  seen = moment;
}

abbrev show : ℕ → Bytes
show value = codes "31"

abbrev get_seventh : Bytes
get_seventh = codes "get 7\r\n"

normalize_get : normalize get_seventh ≡ get_prefix ++ decimal 7
unfolding normalize decimal
normalize_get = refl

normalize_bad : normalize (codes "get x\n") ≡ get_prefix ++ codes "x"
unfolding normalize
normalize_bad = refl

stoi_bad : (stoi (codes "x") >>= check_id) ≡ throw (invalid_argument (codes "stoi"))
unfolding stoi
stoi_bad = refl

process_request-get_misreported_example :
    let reply = process_request show views get_seventh in
    (reply.response ≡ ok (details show (moment 7) 7 seventh))
    × (reply.logs ≡ command_log (get_prefix ++ decimal 7) ∷ not_found_log 7 ∷ [])
unfolding find
process_request-get_misreported_example =
    process_request-get_misreported show views get_seventh 7 seventh normalize_get (omega arith)
      (omega arith) refl (omega arith)

send_loop_complete_example : send_loop [] (codes "abc") (1 ∷ 2 ∷ 1 ∷ []) ≡ sent_all (codes "abc")
send_loop_complete_example =
    send_loop_complete (codes "abc") (1 ∷ 2 ∷ 1 ∷ []) (omega arith) (omega arith)

-- A `get`, a bad command whose reply cannot be sent.
abbrev exchanges : List Exchange
exchanges =
    record { chunk = get_seventh; views = views; writes = 1000 ∷ [] }
    ∷ record { chunk = codes "foo"; views = views; writes = 0 ∷ [] }
    ∷ []

abbrev no_session : Session
no_session = record { last_command = []; logs = []; transcript = [] }

-- Two commands, and the end of the client.
abbrev talk : List Exchange
talk =
    record { chunk = codes "foo\r\n"; views = views; writes = replicate 20 1 }
    ∷ record { chunk = codes "get x\n"; views = views; writes = 7 ∷ replicate 20 12 }
    ∷ record { chunk = []; views = views; writes = [] }
    ∷ []

talk-IsSent : All (IsSent show) (heard show talk)
unfolding process_request reply_to answer normalize pop_newlines same_text starts_with parse_id stoi
talk-IsSent = ((omega arith, omega arith), ((omega arith, omega arith), tt))

handle_client-responses_example :
    (t : Session) × (handle_client show talk no_session ≡ ok t)
    × (t.transcript ≡ responses show (heard show talk))
    × (t.logs ≡ logged show (heard show talk))
    × (t.last_command ≡ last_request show [] (heard show talk))
handle_client-responses_example = handle_client-responses show talk no_session talk-IsSent

abbrev idle_server : Server
idle_server = record {
  server_socket = some 4;
  client_connected = false;
  last_command = [];
  logs = [];
}

abbrev visits : List Accepted
visits = nobody ∷ client exchanges ∷ accept_failed ∷ client [] ∷ []

run_server_sessions_example :
    Served (server_started_log ∷ []) 2 (run_server show visits idle_server)
run_server_sessions_example = run_server_sessions show 4 visits idle_server refl refl

abbrev counts : SystemStats
counts = record {
  total_sensors = 1;
  telemetry_packets = 1;
  heartbeat_packets = 1;
  health = record { online_count = 1; offline_count = 0; unknown_count = 0 };
}

log_lines_shape_example :
    let lines = log_lines (codes "a log" ∷ []) true (codes "get 7") counts in
    All IsLine lines × (15 ≤ length lines) × (length lines ≤ 19)
log_lines_shape_example =
    log_lines_shape (codes "a log" ∷ []) true (codes "get 7") counts (omega arith)
