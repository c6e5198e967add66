-- ===== src/Gateway/Single.antt =====
-- The gateway as it is specified for one sensor: a machine that sees the calls and holds that sensor's
-- entry alone.
use mathlib.Core.Option
use mathlib.Core.Path.{subst}
use smart_sensor_network.Prelude.{
  ℕ, ◌≡◌, refl, ap, ◌∙◌, inl, inr, Option, none, some, List, [], ◌∷◌, Bytes, length, ltb, ◌==◌,
  ==_iff, if◌then◌else◌, ok, All, Bool-cases,
}
use smart_sensor_network.Protocol.{
  MessageType, telemetry, heartbeat, other_message, online, message_type,
}
use smart_sensor_network.Serializer.Decode.{word, decoded_header, decoded_telemetry}
use smart_sensor_network.Registry.{find, or_initial}
use smart_sensor_network.Gateway.{
  SensorInfo, Sensors, Gateway, Logs, initial_info, empty_gateway, check_sensor,
}
use smart_sensor_network.Gateway.Handlers.{
  handled, handle_packet_lem, find-update_sensor_info, find-handle_heartbeat,
}
use smart_sensor_network.Gateway.Watchdog.{find-detect_offline_sensors}
use smart_sensor_network.Gateway.History.{
  Call, packet, watch, step, run, IsCall, Ensures, >>=-Ensures,
}

-- A packet changes the entry only if it carries the sensor's id.
abbrev pub receive : ℕ → ℕ → Bytes → MessageType → Option SensorInfo → Option SensorInfo
receive id now bytes telemetry o =
    let message = decoded_telemetry bytes in
    if message.header.sensor_id == id
    then some (record (or_initial initial_info o) {
      last_telemetry = message;
      last_telemetry_received_time = now;
    })
    else o
receive id now bytes heartbeat o =
    if (decoded_header bytes).sensor_id == id
    then some
        (record (or_initial initial_info o) { last_heartbeat_received_time = now; health = online })
    else o
receive id now bytes (other_message n) o = o

abbrev pub observe : ℕ → Call → Option SensorInfo → Option SensorInfo
observe id (packet now bytes) o = receive id now bytes (message_type (word 1 0 bytes)) o
observe id (watch current) o = Option.map (check_sensor current) o

abbrev pub observe_all : ℕ → List Call → Option SensorInfo → Option SensorInfo
observe_all id [] o = o
observe_all id (call ∷ calls) o = observe_all id calls (observe id call o)

-- Where the changed key is that of the sensor, its old entry is that of the sensor.
entry_at :
    (k id : ℕ) (f : SensorInfo → SensorInfo) (m : Sensors)
    → (if k == id then some (f (or_initial initial_info (find k m))) else find id m)
      ≡ (if k == id then some (f (or_initial initial_info (find id m))) else find id m)
entry_at k id f m = elim (Bool-cases (k == id)) [
  | inl same ↦
      let key : k ≡ id = (==_iff k id).0 same in
      rw same (ap (λ j. some (f (or_initial initial_info (find j m)))) key)
  | inr other ↦ rw other refl
]

pub handled-receive :
    (id now : ℕ) (bytes : Bytes) (g : Gateway) (t : MessageType)
    → Ensures
        (λ g'. find id g'.sensors ≡ receive id now bytes t (find id g.sensors))
        (handled now bytes g t)
handled-receive id now bytes g telemetry = elim (Bool-cases (ltb (length bytes) 23)) [
  | inl short ↦ rw short tt
  | inr whole ↦ rw whole (
      (find-update_sensor_info now (decoded_telemetry bytes) g id).0
      ∙ entry_at (decoded_header bytes).sensor_id id
          (λ info. record info {
            last_telemetry = decoded_telemetry bytes;
            last_telemetry_received_time = now;
          })
          g.sensors)
]
handled-receive id now bytes g heartbeat =
    (find-handle_heartbeat now (record { header = decoded_header bytes }) g id).0
    ∙ entry_at (decoded_header bytes).sensor_id id
        (λ info. record info { last_heartbeat_received_time = now; health = online }) g.sensors
handled-receive id now bytes g (other_message n) = refl

step-observe :
    (id : ℕ) (call : Call) (g : Gateway)
    → IsCall call
    → Ensures (λ g'. find id g'.sensors ≡ observe id call (find id g.sensors)) (step call g)
unfolding step
step-observe id (packet now bytes) g h =
    rw (handle_packet_lem now bytes g h.1) (elim (Bool-cases (ltb (length bytes) 13)) [
      | inl short ↦ rw short tt
      | inr enough ↦ rw enough (handled-receive id now bytes g (message_type (word 1 0 bytes)))
    ])
step-observe id (watch current) g h = (find-detect_offline_sensors current id g).0

run-Ensures :
    (id : ℕ) (calls : List Call) (g : Gateway)
    → All IsCall calls
    → Ensures (λ g'. find id g'.sensors ≡ observe_all id calls (find id g.sensors)) (run calls g)
unfolding run
run-Ensures id [] g h = refl
run-Ensures id (call ∷ calls) g h =
    let Goal : Gateway → Type 0 =
      λ g'. find id g'.sensors ≡ observe_all id (call ∷ calls) (find id g.sensors) in
    >>=-Ensures (λ g'. find id g'.sensors ≡ observe id call (find id g.sensors)) Goal (step call g)
      _ (step-observe id call g h.0)
      λ g' logs now.
        >>=-Ensures (λ g''. find id g''.sensors ≡ observe_all id calls (find id g'.sensors)) Goal
          (run calls g') _ (run-Ensures id calls g' h.1)
          λ g'' more later. later ∙ ap (observe_all id calls) now

-- After any history of sweeps and of packets of bytes that throws nothing, each handled at a time behind the
-- epoch and within 64 bits, the entry of every sensor is that of the machine that sees the same calls and
-- holds this sensor alone: the packets of other sensors and the order of the registry change nothing.
pub find-run :
    (id : ℕ) (calls : List Call) {g : Gateway} {logs : Logs}
    → All IsCall calls
    → run calls empty_gateway ≡ ok (g, logs)
    → find id g.sensors ≡ observe_all id calls none
unfolding find
find-run id calls h e =
    subst (Ensures (λ g'. find id g'.sensors ≡ observe_all id calls none)) e
      (run-Ensures id calls empty_gateway h)
