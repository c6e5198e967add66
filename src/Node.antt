-- ===== src/Node.antt =====
-- src/sensor/SensorNode.cpp and src/network/UdpSender.cpp: a node hands the packets of its sensor to a
-- sender. `send` is the sender's outcome for a packet; clock readings and draws are arguments.
pub mod Delivery
pub mod Pace
pub mod Punctual
pub mod Report
pub mod Stop
pub mod Late
use smart_sensor_network.Prelude.{
  ℕ, ◌+◌, ◌-◌, ◌*◌, Bool, true, false, Option, none, some, List, [], ◌∷◌, ◌++◌, Bytes, codes, leb,
  if◌then◌else◌, Result, ok, throw, Exception, runtime_error, ◌>>=◌,
}
use smart_sensor_network.Protocol.{PacketHeader, HeartbeatMessage, TelemetryMessage, heartbeat}
use smart_sensor_network.Serializer.{serialize_telemetry, serialize_heartbeat}
use smart_sensor_network.Sensor.{Sensor, collect_data, create_telemetry, get_id}

-- `UdpSender::send`: what `inet_pton` says of the address and whether `sendto` fails.
unfoldable pub udp_send : Bool → Bool → Bytes → Result (Unit {0})
udp_send valid_ip failed packet =
    if valid_ip
    then (if failed then throw (runtime_error (codes "UDP send failed")) else ok tt)
    else throw (runtime_error (codes "Invalid IP address"))

-- The sensor afterwards, the packet handed to the sender, and what the call returns or throws.
pub record Tick : Type 0 where
  pub sensor : Sensor
  pub packet : Bytes
  pub outcome : Result TelemetryMessage

unfoldable pub tick : (ℕ → ℕ → ℕ) → (Bytes → Result (Unit {0})) → ℕ → ℕ → Sensor → Tick
tick sub send draw now s =
    let collected = (collect_data sub draw s).0 in
    let (told, message) = create_telemetry now collected in
    let packet = serialize_telemetry message in
    record { sensor = told; packet = packet; outcome = send packet >>= λ _. ok message }

unfoldable pub heartbeat_message : ℕ → Sensor → HeartbeatMessage
heartbeat_message now s = record {
  header = record { type = heartbeat; sensor_id = get_id s; timestamp_ms = now };
}

-- The packet of `sendHeartbeat`, and its outcome.
unfoldable pub send_heartbeat : (Bytes → Result (Unit {0})) → ℕ → Sensor → Bytes × Result (Unit {0})
unfolding heartbeat_message
send_heartbeat send now s =
    let packet = serialize_heartbeat (heartbeat_message now s) in (packet, send packet)

-- The loop of `run`: the sensor, the two timers on the steady clock, and the packets handed to the
-- sender so far with the times of their rounds. An exception ends the loop.
pub record Loop : Type 0 where
  pub sensor : Sensor
  pub last_telemetry : ℕ
  pub last_heartbeat : ℕ
  pub telemetry_sent : List (ℕ × Bytes)
  pub heartbeat_sent : List (ℕ × Bytes)
  pub thrown : Option Exception

abbrev pub thrown_by {ℓ} : {A : Type ℓ} → Result A → Option Exception
thrown_by (ok a) = none
thrown_by (throw e) = some e

abbrev pub if_ok {ℓ κ} : {A : Type ℓ} {B : Type κ} → Result A → B → B → B
if_ok (ok a) x y = x
if_ok (throw e) x y = y

-- What a round reads: the steady clock, and what the calls in it draw and read from the system clock.
pub record Readings : Type 0 where
  pub now_time : ℕ
  pub draw : ℕ
  pub telemetry_now : ℕ
  pub heartbeat_now : ℕ

-- `now - last >= interval`, where the difference is signed.
abbrev pub is_due : ℕ → ℕ → ℕ → Bool
is_due interval last now = leb (last + interval) now

abbrev pub proceed : Option Exception → Loop → Loop → Loop
proceed none next l = next
proceed (some e) next l = l

abbrev pub unless_thrown : (Loop → Loop) → Loop → Loop
unless_thrown f l = proceed l.thrown (f l) l

module _ (sub : ℕ → ℕ → ℕ) (send : Bytes → Result (Unit {0})) where
  -- An exception leaves the timer unset.
  unfoldable pub telemetry_timer : ℕ → Readings → Loop → Loop
  telemetry_timer interval r l =
      if is_due interval l.last_telemetry r.now_time
      then (let t = tick sub send r.draw r.telemetry_now l.sensor in
          record l {
            sensor = t.sensor;
            telemetry_sent = l.telemetry_sent ++ ((r.now_time, t.packet) ∷ []);
            last_telemetry = if_ok t.outcome r.now_time l.last_telemetry;
            thrown = thrown_by t.outcome;
          })
      else l

  unfoldable pub heartbeat_timer : ℕ → Readings → Loop → Loop
  heartbeat_timer interval r l =
      if is_due interval l.last_heartbeat r.now_time
      then (let (packet, outcome) = send_heartbeat send r.heartbeat_now l.sensor in
          record l {
            heartbeat_sent = l.heartbeat_sent ++ ((r.now_time, packet) ∷ []);
            last_heartbeat = if_ok outcome r.now_time l.last_heartbeat;
            thrown = thrown_by outcome;
          })
      else l

  unfoldable pub round : ℕ → ℕ → Readings → Loop → Loop
  unfolding telemetry_timer heartbeat_timer
  round telemetry_interval heartbeat_interval r l =
      unless_thrown (heartbeat_timer heartbeat_interval r) (telemetry_timer telemetry_interval r l)

  -- The rounds until `stop()`, or until a round throws.
  unfoldable pub rounds : ℕ → ℕ → List Readings → Loop → Loop
  unfolding round
  rounds telemetry_interval heartbeat_interval [] l = l
  rounds telemetry_interval heartbeat_interval (r ∷ rs) l =
      rounds telemetry_interval heartbeat_interval rs
        (unless_thrown (round telemetry_interval heartbeat_interval r) l)

  -- The two timers start with two readings of the clock.
  unfoldable pub run_node : ℕ → ℕ → ℕ → ℕ → Sensor → List Readings → Loop
  unfolding rounds
  run_node telemetry_interval heartbeat_interval telemetry_start heartbeat_start s rs =
      rounds telemetry_interval heartbeat_interval rs (record {
        sensor = s;
        last_telemetry = telemetry_start;
        last_heartbeat = heartbeat_start;
        telemetry_sent = [];
        heartbeat_sent = [];
        thrown = none;
      })
