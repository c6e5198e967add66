-- ===== src/System/Deliveries.antt =====
-- The datagrams of the demo at the gateway.
use smart_sensor_network.Prelude.{
  ℕ, zero, suc, ◌≤◌, ◌≡◌, ◌⊎◌, inl, inr, refl, ap, [], ◌∷◌, Bytes, AreBytes, length, take, arith,
  ge→ltb, Result, ok,
}
use smart_sensor_network.Protocol.{
  TelemetryMessage, HeartbeatMessage, MessageType, telemetry, heartbeat, other_message,
  message_type, IsTelemetry, IsHeader,
}
use smart_sensor_network.Registry.{AllEntries, modify-AllEntries}
use smart_sensor_network.Serializer.Decode.{
  word, decoded_header, decoded_telemetry, decoded_telemetry-IsTelemetry, decoded_header-IsHeader,
}
use smart_sensor_network.Gateway.{
  Gateway, Logs, SensorInfo, Sensors, initial_info, update_sensor_info, take_telemetry,
  handle_heartbeat, take_heartbeat, detect_offline_sensors, sweep, check_sensor,
}
use smart_sensor_network.Gateway.Handlers.{handled, handle_packet_lem}
use smart_sensor_network.Gateway.Invariant.{
  IsGateway, IsTime, update_sensor_info-IsGateway, handle_heartbeat-IsGateway,
  detect_offline_sensors-IsGateway,
}
use smart_sensor_network.Udp.{datagram, receive_packet, max_packet_size}
use smart_sensor_network.System.Packets.{kind, IsMember, Carries, IsSent}

-- An entry of one of the seven sensors, whose telemetry, once received, is of its class.
pub record IsOwned (id : ℕ) (info : SensorInfo) : Type 0 where
  pub member : IsMember id
  pub own_type : (info.last_telemetry_received_time ≡ 0) ⊎ (info.last_telemetry.type ≡ kind id)

pub record IsRegistry (g : Gateway) : Type 0 where
  pub gateway_ok : IsGateway g
  pub owned : AllEntries IsOwned g.sensors

take_all : (n : ℕ) (b : Bytes) → length b ≤ n → take n b ≡ b
take_all zero [] h = refl
take_all zero (x ∷ b) h = absurd (omega arith)
take_all (suc n) [] h = refl
take_all (suc n) (x ∷ b) h = ap (λ t. x ∷ t) (take_all n b (omega arith))

update_sensor_info-IsRegistry :
    (now : ℕ) (m : TelemetryMessage) (g : Gateway)
    → IsTime now
    → IsTelemetry m
    → IsMember m.header.sensor_id
    → m.type ≡ kind m.header.sensor_id
    → IsRegistry g
    → IsRegistry (update_sensor_info now m g)
unfolding update_sensor_info take_telemetry
update_sensor_info-IsRegistry now m g time valid member own h =
    let id : ℕ = m.header.sensor_id in
    record {
      gateway_ok = update_sensor_info-IsGateway now m g time valid h.gateway_ok;
      owned =
          modify-AllEntries IsOwned id initial_info (take_telemetry now m) g.sensors
            (record { member = member; own_type = inr own })
            (λ info old. record { member = member; own_type = inr own }) h.owned;
    }

handle_heartbeat-IsRegistry :
    (now : ℕ) (m : HeartbeatMessage) (g : Gateway)
    → IsTime now
    → IsHeader m.header
    → IsMember m.header.sensor_id
    → IsRegistry g
    → IsRegistry (handle_heartbeat now m g)
unfolding handle_heartbeat take_heartbeat
handle_heartbeat-IsRegistry now m g time valid member h =
    let id : ℕ = m.header.sensor_id in
    record {
      gateway_ok = handle_heartbeat-IsGateway now m g time valid h.gateway_ok;
      owned =
          modify-AllEntries IsOwned id initial_info (take_heartbeat now) g.sensors
            (record { member = member; own_type = inl refl })
            (λ info old. record { member = member; own_type = old.own_type }) h.owned;
    }

-- What the gateway makes of a packet of the demo: it never throws, and keeps the registry.
abbrev pub Accepts : Result (Gateway × Logs) → Type 0
Accepts r = (g : Gateway) × (logs : Logs) × (r ≡ ok (g, logs)) × IsRegistry g

handled-Accepts :
    (now : ℕ) (b : Bytes) (g : Gateway) (t : MessageType)
    → IsTime now
    → AreBytes b
    → Carries b t
    → IsRegistry g
    → Accepts (handled now b g t)
handled-Accepts now b g telemetry time bytes (size, member, own) h = (
  update_sensor_info now (decoded_telemetry b) g,
  [],
  rw (ge→ltb (length b) 23 (omega arith)) refl,
  update_sensor_info-IsRegistry now (decoded_telemetry b) g time
      (decoded_telemetry-IsTelemetry b bytes (omega arith)) member own h,
)
handled-Accepts now b g heartbeat time bytes (size, member) h = (
  handle_heartbeat now (record { header = decoded_header b }) g,
  [],
  refl,
  handle_heartbeat-IsRegistry now (record { header = decoded_header b }) g time
      (decoded_header-IsHeader b bytes (omega arith)) member h,
)
handled-Accepts now b g (other_message n) time bytes impossible h = absurd impossible

Carries-length : (b : Bytes) (t : MessageType) → Carries b t → (13 ≤ length b) × (length b ≤ 1024)
Carries-length b telemetry h = omega (arith, h.0)
Carries-length b heartbeat h = omega (arith, h.0)
Carries-length b (other_message n) h = absurd h

pub receive_packet-handled :
    (now : ℕ) (b : Bytes) (g : Gateway)
    → IsSent b
    → receive_packet (datagram now b) g ≡ handled now b g (message_type (word 1 0 b))
unfolding receive_packet
receive_packet-handled now b g sent =
    let (least, most) = Carries-length b (message_type (word 1 0 b)) sent.carries in
    rw
      (
        take_all max_packet_size b most,
        handle_packet_lem now b g sent.bytes,
        ge→ltb (length b) 13 least,
      )
      refl

pub receive_packet-Accepts :
    (now : ℕ) (b : Bytes) (g : Gateway)
    → IsTime now
    → IsSent b
    → IsRegistry g
    → Accepts (receive_packet (datagram now b) g)
receive_packet-Accepts now b g time sent h =
    rw (receive_packet-handled now b g sent)
      (handled-Accepts now b g (message_type (word 1 0 b)) time sent.bytes sent.carries h)

check_sensor_kept :
    (current id : ℕ) (info : SensorInfo) → IsOwned id info → IsOwned id (check_sensor current info)
unfolding check_sensor
check_sensor_kept current id info h = ground (arith, h.own_type)

sweep-IsOwned :
    (current : ℕ) (m : Sensors) → AllEntries IsOwned m → AllEntries IsOwned (sweep current m)
unfolding sweep
sweep-IsOwned current [] h = tt
sweep-IsOwned current ((id, info) ∷ m) h =
    (check_sensor_kept current id info h.0, sweep-IsOwned current m h.1)

pub detect_offline_sensors-IsRegistry :
    (current : ℕ) (g : Gateway) → IsRegistry g → IsRegistry (detect_offline_sensors current g).0
unfolding detect_offline_sensors
detect_offline_sensors-IsRegistry current g h = record {
  gateway_ok = detect_offline_sensors-IsGateway current g h.gateway_ok;
  owned = sweep-IsOwned current g.sensors h.owned;
}
