-- ===== src/System/Script.antt =====
-- The threads of main.cpp and the statements of `main`.
use smart_sensor_network.Prelude.{ℕ, ◌+◌, List, [], ◌∷◌, ◌++◌, Bytes, codes}
use smart_sensor_network.Protocol.{sensor_heartbeat_timeout_ms}

pub data Thread : Type 0 where
  udp_thread tcp_thread dashboard_thread watchdog_thread telemetry_thread heartbeat_thread : Thread

-- `node k` sends a heartbeat by `beat (k - 1)`; `clear` resets the flag of a thread's loop, for the
-- receiver and the server in `stop()`.
pub data Statement : Type 0 where
  write_log : Bytes → Statement
  start join clear : Thread → Statement
  await_ready : Statement
  pause : ℕ → Statement
  beat : ℕ → Statement
  enable_7 : Statement
  get_char : Statement
  stop_logger : Statement

abbrev pub services : List Statement
services =
    write_log (codes "[SYSTEM] Logger started")
    ∷ start udp_thread
    ∷ start tcp_thread
    ∷ await_ready
    ∷ write_log (codes "[SYSTEM] All services ready")
    ∷ start dashboard_thread
    ∷ start watchdog_thread
    ∷ []

abbrev pub initial_telemetry : List Statement
initial_telemetry =
    write_log (codes "[SYSTEM] Sensors initialized")
    ∷ write_log (codes "[SYSTEM] Sending initial telemetry packets")
    ∷ start telemetry_thread
    ∷ pause 100
    ∷ write_log (codes "[GATEWAY] Updated all sensors...")
    ∷ []

abbrev pub heartbeat_simulation : List Statement
heartbeat_simulation =
    write_log (codes "[SYSTEM] Sending initial heartbeats")
    ∷ beat 0
    ∷ beat 1
    ∷ beat 2
    ∷ beat 3
    ∷ beat 4
    ∷ beat 5
    ∷ beat 6
    ∷ start heartbeat_thread
    ∷ []

abbrev pub watchdog_detection : List Statement
watchdog_detection =
    write_log (codes "[SYSTEM] Waiting for watchdog detection")
    ∷ write_log (codes "[WATCHDOG] Sensor 3 marked OFFLINE")
    ∷ write_log (codes "[WATCHDOG] Sensor 7 marked OFFLINE")
    ∷ pause (sensor_heartbeat_timeout_ms + 2000)
    ∷ write_log (codes "[SYSTEM] Watchdog check completed")
    ∷ write_log (codes "[SYSTEM] Waiting for TCP client...")
    ∷ []

abbrev pub recovery : List Statement
recovery =
    pause (sensor_heartbeat_timeout_ms + 9000)
    ∷ write_log (codes "[WATCHDOG] Sensor 7 recovered")
    ∷ enable_7
    ∷ pause 100
    ∷ write_log (codes "[SYSTEM] Sensor 7 recovery completed")
    ∷ get_char
    ∷ []

abbrev pub shutdown : List Statement
shutdown =
    write_log (codes "[SYSTEM] Shutting down...")
    ∷ clear dashboard_thread
    ∷ clear telemetry_thread
    ∷ clear heartbeat_thread
    ∷ clear watchdog_thread
    ∷ join dashboard_thread
    ∷ join telemetry_thread
    ∷ join heartbeat_thread
    ∷ join watchdog_thread
    ∷ clear udp_thread
    ∷ clear tcp_thread
    ∷ join udp_thread
    ∷ join tcp_thread
    ∷ stop_logger
    ∷ []

abbrev pub script : List Statement
script =
    services
    ++ (initial_telemetry
        ++ (heartbeat_simulation ++ (watchdog_detection ++ (recovery ++ shutdown))))
