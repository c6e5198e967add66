-- ===== src/Gateway/Counting.antt =====
-- The gateway's two counters after a history of calls.
use smart_sensor_network.Prelude.{
  ℕ, ◌+◌, ◌%◌, ◌≡◌, inl, inr, List, [], ◌∷◌, Bytes, length, arith, ltb, if◌then◌else◌, Result, ok,
  throw, Bool-cases, Bool, true, false, All,
}
use mathlib.Core.Path.{subst}
use smart_sensor_network.Protocol.{MessageType, telemetry, heartbeat, other_message, message_type}
use smart_sensor_network.Serializer.Decode.{word}
use smart_sensor_network.Gateway.{
  Logs, Gateway, empty_gateway, u64_mod, update_sensor_info, handle_heartbeat,
  detect_offline_sensors,
}
use smart_sensor_network.Gateway.Handlers.{handled, handle_packet_lem}
use smart_sensor_network.Gateway.Invariant.{IsGateway, empty_gateway-IsGateway}
use smart_sensor_network.Gateway.History.{
  Call, packet, watch, step, run, IsCall, Ensures, >>=-Ensures, step-IsGateway,
}

abbrev pub is_telemetry : MessageType → Bool
is_telemetry telemetry = true
is_telemetry _ = false

abbrev pub is_heartbeat : MessageType → Bool
is_heartbeat heartbeat = true
is_heartbeat _ = false

-- How many packets of a history announce a type.
abbrev one : (MessageType → Bool) → Call → ℕ
one p (packet now bytes) = if p (message_type (word 1 0 bytes)) then 1 else 0
one p (watch current) = 0

abbrev pub count_packets : (MessageType → Bool) → List Call → ℕ
count_packets p [] = 0
count_packets p (call ∷ calls) = one p call + count_packets p calls

-- The counters of `g` are those of `g'` and the two counts more.
record Counts (g : Gateway) (t h : ℕ) (g' : Gateway) : Type 0 where
  telemetry_counted : g'.telemetry_packets_received ≡ (g.telemetry_packets_received + t) % u64_mod
  heartbeat_counted : g'.heartbeat_packets_received ≡ (g.heartbeat_packets_received + h) % u64_mod

handled-Counts :
    (now : ℕ) (bytes : Bytes) (g : Gateway) (t : MessageType)
    → IsGateway g
    → Ensures
        (Counts g (if is_telemetry t then 1 else 0) (if is_heartbeat t then 1 else 0))
        (handled now bytes g t)
unfolding update_sensor_info handle_heartbeat
handled-Counts now bytes g telemetry valid = elim (Bool-cases (ltb (length bytes) 23)) [
  | inl short ↦ rw short tt
  | inr whole ↦ rw whole (omega (arith, valid.heartbeat_lt))
]
handled-Counts now bytes g heartbeat valid = omega arith
handled-Counts now bytes g (other_message n) valid = omega arith

step-Counts :
    (call : Call) (g : Gateway)
    → IsCall call
    → IsGateway g
    → Ensures (Counts g (one is_telemetry call) (one is_heartbeat call)) (step call g)
unfolding step detect_offline_sensors
step-Counts (packet now bytes) g h valid =
    rw (handle_packet_lem now bytes g h.1) (elim (Bool-cases (ltb (length bytes) 13)) [
      | inl short ↦ rw short tt
      | inr enough ↦ rw enough (handled-Counts now bytes g (message_type (word 1 0 bytes)) valid)
    ])
step-Counts (watch current) g h valid = omega arith

Ensures-both :
    (P Q : Gateway → Type 0) (m : Result (Gateway × Logs))
    → Ensures P m
    → Ensures Q m
    → Ensures (λ g. P g × Q g) m
Ensures-both P Q (ok (g, logs)) p q = (p, q)
Ensures-both P Q (throw e) p q = tt

Counts-trans :
    (g g' g'' : Gateway) (t h t' h' : ℕ)
    → Counts g t h g'
    → Counts g' t' h' g''
    → Counts g (t + t') (h + h') g''
Counts-trans g g' g'' t h t' h' c d = omega arith

run-Ensures :
    (calls : List Call) (g : Gateway)
    → All IsCall calls
    → IsGateway g
    → Ensures
        (Counts g (count_packets is_telemetry calls) (count_packets is_heartbeat calls))
        (run calls g)
unfolding run
run-Ensures [] g h valid = omega arith
run-Ensures (call ∷ calls) g h valid =
    >>=-Ensures (λ g'. IsGateway g' × Counts g (one is_telemetry call) (one is_heartbeat call) g')
      (Counts g (count_packets is_telemetry (call ∷ calls))
        (count_packets is_heartbeat (call ∷ calls)))
      (step call g) _
      (Ensures-both IsGateway (Counts g (one is_telemetry call) (one is_heartbeat call))
        (step call g) (step-IsGateway call g h.0 valid) (step-Counts call g h.0 valid))
      λ g' logs (valid', now).
        >>=-Ensures
          (Counts g' (count_packets is_telemetry calls) (count_packets is_heartbeat calls))
          (Counts g (count_packets is_telemetry (call ∷ calls))
            (count_packets is_heartbeat (call ∷ calls)))
          (run calls g') _ (run-Ensures calls g' h.1 valid')
          λ g'' more later.
            Counts-trans g g' g'' (one is_telemetry call) (one is_heartbeat call)
              (count_packets is_telemetry calls) (count_packets is_heartbeat calls) now later

-- After a history of sweeps and of packets of bytes, each handled at a time behind the epoch and within
-- 64 bits, that throws nothing, each counter is the number of the packets that announce its
-- type, modulo 2 ^ 64: each such packet counts once, and nothing else counts.
pub run-counters :
    (calls : List Call) {g : Gateway} {logs : Logs}
    → All IsCall calls
    → run calls empty_gateway ≡ ok (g, logs)
    → (g.telemetry_packets_received ≡ count_packets is_telemetry calls % u64_mod)
      × (g.heartbeat_packets_received ≡ count_packets is_heartbeat calls % u64_mod)
run-counters calls {g} h e =
    let c : Counts empty_gateway (count_packets is_telemetry calls)
        (count_packets is_heartbeat calls) g =
      subst
        (Ensures (
          Counts empty_gateway (count_packets is_telemetry calls)
            (count_packets is_heartbeat calls)))
        e (run-Ensures calls empty_gateway h empty_gateway-IsGateway) in
    (omega (arith, c.telemetry_counted), omega (arith, c.heartbeat_counted))
