-- ===== src/Udp.antt =====
-- src/network/UdpReceiver.cpp: the receiver hands each datagram to the gateway.
-- `socket`, `bind` and `recvfrom` are system calls: what they return is part of the input.
pub mod Faults
use smart_sensor_network.Prelude.{
  ℕ, Bool, true, false, Option, none, some, List, [], ◌∷◌, ◌++◌, Bytes, codes, take, if◌then◌else◌,
  Result, ok, throw, Exception, runtime_error, ◌>>=◌,
}
use smart_sensor_network.Gateway.{Gateway, Logs, handle_packet}

abbrev pub max_packet_size : ℕ
max_packet_size = 1024

-- The socket, if there is one, and the flag of the loop.
pub record Receiver : Type 0 where
  pub sockfd : Option ℕ
  pub running : Bool

-- The constructor, for the descriptor that `socket` gives, if any, and the success of `bind`.
unfoldable pub new_receiver : Option ℕ → Bool → Result Receiver
new_receiver none bound = throw (runtime_error (codes "Failed to create UDP socket"))
new_receiver (some fd) bound =
    ok (record { sockfd = if bound then some fd else none; running = false })

-- What `recvfrom` finds, with the time at which a datagram is handled.
pub data Arrival : Type 0 where
  datagram : ℕ → Bytes → Arrival
  would_block : Arrival
  receive_failed : Arrival

-- A datagram longer than the buffer is cut.
unfoldable pub receive_packet : Arrival → Gateway → Result (Gateway × Logs)
receive_packet (datagram now packet) g = handle_packet now (take max_packet_size packet) g
receive_packet would_block g = ok (g, [])
receive_packet receive_failed g = ok (g, [])

-- The rounds of the loop until `stop()`, or until an exception leaves it: `run` catches none.
unfoldable pub receive_all : List Arrival → Gateway → Result (Gateway × Logs)
unfolding receive_packet
receive_all [] g = ok (g, [])
receive_all (a ∷ as') g = do
  (g', logs) ← receive_packet a g
  (g'', more) ← receive_all as' g'
  ok (g'', logs ++ more)

abbrev pub no_socket_log : Bytes
no_socket_log = codes "Invalid socket. Receiver not started."

abbrev pub started_log : Bytes
started_log = codes "[UDP] Receiver started"

unfoldable pub run_with : Option ℕ → List Arrival → Gateway → Result (Gateway × Logs)
unfolding receive_all
run_with none arrivals g = ok (g, no_socket_log ∷ [])
run_with (some fd) arrivals g = do (g', logs) ← receive_all arrivals g; ok (g', started_log ∷ logs)

unfoldable pub run : Receiver → List Arrival → Gateway → Result (Gateway × Logs)
unfolding run_with
run r arrivals g = run_with r.sockfd arrivals g
