-- ===== src/Lib.antt =====
-- Smart sensor network: sensor nodes send telemetry and heartbeats in UDP packets to a gateway, which
-- keeps the last state of each sensor; a watchdog marks the sensors that have gone silent; a TCP server
-- answers questions on the registry; a logger keeps the recent messages.
--
-- The parts, with the code that each file models:
--   Protocol, Protocol/Strings: include/common/ProtocolTypes.hpp and
--   src/common/SensorTypesString.cpp. An enumeration of bytes has one more constructor for the
--   bytes without a name.
--   Wire, Serializer: src/network/PacketSerializer.cpp. `write` and `read` are the templates with
--   the width in bytes as an argument, `serialize_telemetry` and `serialize_heartbeat` the two
--   overloads of `serialize`. Wire/BigEndian and Wire/Words compare the loops with a plain
--   big-endian format; Serializer/Decode, RoundTrip and Reencode have the theorems on the packets,
--   Equivalence that on the type of them.
--   Registry, Gateway: src/gateway/Gateway.cpp. Registry is the `std::unordered_map`, an
--   association list in the order of iteration. `update_sensor_info`, `handle_heartbeat`,
--   `handle_packet`, `detect_offline_sensors` and `seconds_since_last_heartbeat` are the member
--   functions of those names; `get_sensors` and the two functions behind it are the accessors.
--   Gateway/Handlers and Watchdog have the theorems on one call, Invariant, History and Counting
--   those on any history of calls, Single those that compare it with a machine for one sensor.
--   Double, Sensor: src/sensor, but for the node. Double has the comparisons, on IEEE 754 bit
--   patterns. `collect_data`, `create_telemetry`, `get_type`, `get_id` and `update_state` are the
--   member functions; the state that each class gives to a level is a function of its own
--   (`pressure_state`).
--   Node: src/sensor/SensorNode.cpp and `send` of src/network/UdpSender.cpp. `run_node` is `run`.
--   Node/Pace and Node/Punctual have the theorems on its timers, Node/Delivery those on a node and
--   the gateway, Node/Report those on a node and a client of the server. Node/Stop has the object
--   with its flag, and the thread in `run` and the calls of `stop` as interleaved steps;
--   Node/Late has the theorem on what comes behind `stop`.
--   Udp: src/network/UdpReceiver.cpp. `receive_packet` and `run` are the member functions.
--   Monitor: src/monitor/Monitor.cpp, each report as the bytes of the text.
--   Tcp, Tcp/Session, Tcp/Server: src/network/TcpServer.cpp, `parseId` and `processRequest`,
--   `handleClient`, the constructor and `run`. Tcp/Lines and Tcp/Answers
--   have what a session logs and what its client receives.
--   Logger: src/monitor/Logger.cpp, `log`, `getRecentLogs` and what the worker does to the queue.
--   Logger/Shutdown has `run`, `stop` and `log` as interleaved steps, with the condition variable.
--   Console: src/ui/ConsoleRenderer.cpp, the dashboard as bytes.
--   Time, Time/Text: include/common/TimeUtils.hpp, `now` and `currentTimeString`; Time/Text reads
--   the text back.
--   Sockets: the constructors and destructors of src/network, with the list of open descriptors.
--   Registry/Reordered, Gateway/Unordered: the order in which the hash table is iterated, and the
--   gateway without it, as a quotient.
--   System: main.cpp. Script has the statements of `main` in their order, World what the threads
--   share, State and Steps the threads and the actions: `fire` is one step of one of them, and
--   `Reach` has the states that some schedule leads to. A step is one call on what the threads
--   share, with the assignments beside it. Serving has the server's thread, whose session with a
--   client goes round by round; Talks compares it with `handleClient`, and Receives the receiver's
--   rounds with the loop of Udp. A sleep may end at any time; the clock only goes forward,
--   within 64 bits, though the program reads `system_clock`, which may be set back; a send may fail; a datagram may be lost or overtaken, but not doubled, and
--   nobody else sends datagrams to the receiver; a client of the server may send anything. Keeping
--   reduces what a schedule keeps to the operations on the shared state; Reachable has the theorem
--   on that state (with Packets, Fleet, Deliveries and Invariant), Times a lemma on the times in it
--   (with Timely), Silent that on sensor 3 (with Heard, Beats and Still), Joins, Stops, Lost and
--   Idle those on the ends of the threads (with Threads, Awaits, Stopping and Live); Runs has
--   schedules as lists. Detects follows the watchdog at one sensor, Recovers a heartbeat from its
--   thread to the registry (with Numbers), Races a heartbeat between the watchdog's reading of the
--   clock and its sweep, and Counted the number of packets (with Traffic). Outcome has the theorem
--   on the end of `main`: Ordered, Performs, Enters, Orderly and Powered have what the statements
--   that are left say of the threads, Drives and Exits lead a thread to its end, Readies and
--   Finishes lead `main` to its own.
--   Prelude: shared names, exceptions as values (`Result`), `std::stoi` and `std::to_string`.
--   Tests: concrete runs.
--
-- A sensor node hands its packets to a sender; the receiver hands each datagram to the gateway; the
-- watchdog, the monitor and the server call the gateway, each call in one piece under its mutex. An
-- exception is a value, and a caller that does not catch it passes it on. In the demo the exception ends
-- the process: behind it nothing happens. `main` starts the threads, clears their flags and joins them.
--
-- Arguments and parameters stand for what is not in the repository: what the clock reads (`now`,
-- `current`), what the random generators draw (`draw`), the subtraction of doubles (`sub`, with the two
-- laws of IsSubtraction where they are needed), the outcome of the sender (`send`), the datagrams, chunks
-- and write counts of the system calls, the printing of a double (`show`), the time in a log line
-- (`stamp`), the clock's ticks and the local time (`ticks`, `local`), and what the gateway holds at each
-- call that a report makes of it (`Views`, `Moment`).
--
-- Bounds: integers are natural numbers with the wrap-around of their width written out, and a byte is a
-- number below 256. Only `decimal` runs on fuel: n + 1 rounds, more than n has digits. The loops of
-- the program that wait for its end (`run`, `handleClient`) are recursions over what they meet until then;
-- the loop that sends a response runs over what the writes return.
--
-- Not modelled: the signal SIGPIPE, which by default ends the process when a response is written to a
-- connection that the client has closed: such a write is an error like any other, and where the writes
-- that are given run out, the session ends, though the program would go on writing; in System, the
-- clock set back, and the logger's thread with its `stop()`, which joins that thread and can wait for
-- ever (the statement is a step that is always possible; Logger/Shutdown has the two); in main.cpp, what is written to std::cout and the end of the process by an exception of a
-- constructor; the drawing of the dashboard within the demo, which changes nothing; datagrams from
-- outside the demo, in System (Udp takes any); the tests and fakes.
pub mod Prelude
pub mod Protocol
pub mod Wire
pub mod Serializer
pub mod Registry
pub mod Gateway
pub mod Double
pub mod Sensor
pub mod Node
pub mod Monitor
pub mod Tcp
pub mod Udp
pub mod Logger
pub mod Console
pub mod System
pub mod Sockets
pub mod Time
pub mod Tests
