-- ===== src/Gateway/History.antt =====
-- Histories of the gateway: the calls of the UDP receiver and of the watchdog, in the order in which
-- they take the mutex.
use mathlib.Core.Path.{subst}
use smart_sensor_network.Prelude.{
  ℕ, ◌≤◌, ◌≡◌, inl, inr, List, ◌++◌, [], ◌∷◌, Bytes, AreBytes, length, ltb, Result, ok, throw,
  ◌>>=◌, Bool-cases, ltb→ge, All,
}
use smart_sensor_network.Protocol.{MessageType, telemetry, heartbeat, other_message, message_type}
use smart_sensor_network.Serializer.Decode.{
  word, decoded_header, decoded_telemetry, decoded_header-IsHeader, decoded_telemetry-IsTelemetry,
}
use smart_sensor_network.Gateway.{
  Logs, Gateway, empty_gateway, handle_packet, detect_offline_sensors,
}
use smart_sensor_network.Gateway.Handlers.{handled, handle_packet_lem}
use smart_sensor_network.Gateway.Invariant.{
  IsGateway, IsTime, update_sensor_info-IsGateway, handle_heartbeat-IsGateway,
  detect_offline_sensors-IsGateway, empty_gateway-IsGateway,
}

-- A packet handled at a time, or a sweep with a reading of the clock.
pub data Call : Type 0 where
  packet : ℕ → Bytes → Call
  watch : ℕ → Call

unfoldable pub step : Call → Gateway → Result (Gateway × Logs)
step (packet now bytes) g = handle_packet now bytes g
step (watch current) g = ok (detect_offline_sensors current g)

-- The history up to its end, or the first exception.
unfoldable pub run : List Call → Gateway → Result (Gateway × Logs)
run [] g = ok (g, [])
run (call ∷ calls) g = do
  (g', logs) ← step call g
  (g'', more) ← run calls g'
  ok (g'', logs ++ more)

abbrev pub IsCall : Call → Type 0
IsCall (packet now bytes) = IsTime now × AreBytes bytes
IsCall (watch current) = Unit

-- What holds of the gateway if no exception is thrown.
abbrev pub Ensures : (Gateway → Type 0) → Result (Gateway × Logs) → Type 0
Ensures P (ok (g, logs)) = P g
Ensures P (throw e) = Unit

pub >>=-Ensures :
    (P Q : Gateway → Type 0) (m : Result (Gateway × Logs))
    (f : Gateway × Logs → Result (Gateway × Logs))
    → Ensures P m
    → ((g : Gateway) (logs : Logs) → P g → Ensures Q (f (g, logs)))
    → Ensures Q (m >>= f)
>>=-Ensures P Q (ok (g, logs)) f h k = k g logs h
>>=-Ensures P Q (throw e) f h k = tt

pub handled-IsGateway :
    (now : ℕ) (bytes : Bytes) (g : Gateway) (t : MessageType)
    → IsTime now
    → AreBytes bytes
    → 13 ≤ length bytes
    → IsGateway g
    → Ensures IsGateway (handled now bytes g t)
handled-IsGateway now bytes g telemetry time are enough valid =
    elim (Bool-cases (ltb (length bytes) 23)) [
      | inl short ↦ rw short tt
      | inr whole ↦ rw whole (
          update_sensor_info-IsGateway now (decoded_telemetry bytes) g time
            (decoded_telemetry-IsTelemetry bytes are (ltb→ge _ _ whole)) valid)
    ]
handled-IsGateway now bytes g heartbeat time are enough valid =
    handle_heartbeat-IsGateway now (record { header = decoded_header bytes }) g time
      (decoded_header-IsHeader bytes are enough) valid
handled-IsGateway now bytes g (other_message n) time are enough valid = valid

pub step-IsGateway :
    (call : Call) (g : Gateway) → IsCall call → IsGateway g → Ensures IsGateway (step call g)
unfolding step
step-IsGateway (packet now bytes) g h valid =
    rw (handle_packet_lem now bytes g h.1) (elim (Bool-cases (ltb (length bytes) 13)) [
      | inl short ↦ rw short tt
      | inr enough ↦ rw enough (
          handled-IsGateway now bytes g (message_type (word 1 0 bytes)) h.0 h.1 (ltb→ge _ _ enough)
            valid)
    ])
step-IsGateway (watch current) g h valid = detect_offline_sensors-IsGateway current g valid

run-Ensures :
    (calls : List Call) (g : Gateway)
    → All IsCall calls
    → IsGateway g
    → Ensures IsGateway (run calls g)
unfolding run
run-Ensures [] g h valid = valid
run-Ensures (call ∷ calls) g h valid =
    >>=-Ensures IsGateway IsGateway (step call g) _ (step-IsGateway call g h.0 valid)
      λ g' logs valid'.
        >>=-Ensures IsGateway IsGateway (run calls g') _ (run-Ensures calls g' h.1 valid')
          λ g'' more valid''. valid''

-- From the empty gateway, any history of sweeps and of packets of bytes, each handled at a time behind the
-- epoch and within 64 bits, that throws nothing ends in a registry with
-- one entry for a sensor, in which each entry's fields are in range, its telemetry was sent under its key
-- and it is UNKNOWN exactly while no heartbeat has come.
pub run-IsGateway :
    (calls : List Call) {g : Gateway} {logs : Logs}
    → All IsCall calls
    → run calls empty_gateway ≡ ok (g, logs)
    → IsGateway g
run-IsGateway calls h e =
    subst (Ensures IsGateway) e (run-Ensures calls empty_gateway h empty_gateway-IsGateway)
