-- ===== src/System/State.antt =====
-- The state of the demo of main.cpp, and the actions of its threads.
use smart_sensor_network.Prelude.{
  Option, none, some, ℕ, ◌+◌, Bool, true, false, List, ◌==◌, if◌then◌else◌,
}
use smart_sensor_network.Tcp.Session.{Exchange}
use smart_sensor_network.Udp.{Receiver}
use smart_sensor_network.Tcp.Server.{Server}
use smart_sensor_network.System.World.{World, new_world}
use smart_sensor_network.System.Script.{
  Thread, udp_thread, tcp_thread, dashboard_thread, watchdog_thread, telemetry_thread,
  heartbeat_thread, Statement, script,
}

-- A thread before it is made; at its first lines; at the head of what it runs; at the test of its loop;
-- at a place in the body of the loop; after its end.
pub data Phase : Type 0 where
  unborn opening entering testing : Phase
  working : ℕ → Phase
  exited : Phase

pub record PerThread {ℓ} (A : Type ℓ) : Type ℓ where
  pub udp : A
  pub tcp : A
  pub dashboard : A
  pub watchdog : A
  pub telemetry : A
  pub heartbeat : A

module _ {ℓ} {A : Type ℓ} where
  abbrev pub of : Thread → PerThread A → A
  of udp_thread p = p.udp
  of tcp_thread p = p.tcp
  of dashboard_thread p = p.dashboard
  of watchdog_thread p = p.watchdog
  of telemetry_thread p = p.telemetry
  of heartbeat_thread p = p.heartbeat

  abbrev pub put : Thread → A → PerThread A → PerThread A
  put udp_thread a p = record p { udp = a }
  put tcp_thread a p = record p { tcp = a }
  put dashboard_thread a p = record p { dashboard = a }
  put watchdog_thread a p = record p { watchdog = a }
  put telemetry_thread a p = record p { telemetry = a }
  put heartbeat_thread a p = record p { heartbeat = a }

pub record System : Type 0 where
  pub world : World
  pub todo : List Statement
  pub phases : PerThread Phase
  pub running : PerThread Bool
  pub udp_ready : Bool
  pub tcp_ready : Bool
  pub sensor3_enabled : Bool
  pub sensor7_enabled : Bool
  pub current_time : ℕ
  pub server : Server
  pub udp_socket : Bool
  pub tcp_socket : Bool

abbrev is_open : Option ℕ → Bool
is_open none = false
is_open (some fd) = true

-- `main` after its constructors, at a reading of the clock.
abbrev pub initial : Receiver → Server → ℕ → System
initial receiver server clock = record {
  world = new_world clock;
  todo = script;
  phases = record {
    udp = unborn;
    tcp = unborn;
    dashboard = unborn;
    watchdog = unborn;
    telemetry = unborn;
    heartbeat = unborn;
  };
  running = record {
    udp = false;
    tcp = false;
    dashboard = true;
    watchdog = true;
    telemetry = true;
    heartbeat = true;
  };
  udp_ready = false;
  tcp_ready = false;
  sensor3_enabled = false;
  sensor7_enabled = false;
  current_time = 0;
  server = server;
  udp_socket = is_open receiver.sockfd;
  tcp_socket = is_open server.server_socket;
}

-- `main` goes on; a thread runs its first lines, or enters what it runs, or tests its flag; then the
-- bodies of the loops; then what the environment does.
pub data Action : Type 0 where
  proceed : Bool → Action
  open_thread enter test : Thread → Action
  receive : ℕ → Action
  accept_next : Bool → Action
  converse : Exchange → Action
  draw_dashboard : Action
  read_clock sweep : Action
  tick_next : ℕ → Bool → Action
  beat_next : Bool → Action
  pass_time lose_packet : ℕ → Action

abbrev pub is_unborn : Phase → Bool
is_unborn unborn = true
is_unborn _ = false

abbrev pub is_opening : Phase → Bool
is_opening opening = true
is_opening _ = false

abbrev pub is_entering : Phase → Bool
is_entering entering = true
is_entering _ = false

abbrev pub is_testing : Phase → Bool
is_testing testing = true
is_testing _ = false

abbrev pub is_exited : Phase → Bool
is_exited exited = true
is_exited _ = false

abbrev pub is_working : Phase → Bool
is_working (working k) = true
is_working _ = false

abbrev pub works_at : ℕ → Phase → Bool
works_at i (working k) = k == i
works_at i _ = false

abbrev pub place : Phase → ℕ
place (working k) = k
place _ = 0

-- Behind the call at place `k` of a loop over the seven nodes.
abbrev pub next_place : ℕ → Phase
next_place k = if k == 6 then testing else working (k + 1)
