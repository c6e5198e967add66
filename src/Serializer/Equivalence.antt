-- ===== src/Serializer/Equivalence.antt =====
-- The telemetry packets and the messages as types: src/network/PacketSerializer.cpp.
use mathlib.Core.HLevel.{Σ_prop_path}
use mathlib.Core.Equiv.{IsEquiv, iso_to_equiv}
use native.Mathlib.Bridge.{le_prop}
use smart_sensor_network.Prelude.{
  ℕ, zero, suc, [], ◌∷◌, ◌≡◌, refl, sym, ap, ◌∙◌, Bytes, AreBytes, length, take, arith, append-nil,
  ok, subst,
}
use smart_sensor_network.Protocol.{
  TelemetryMessage, MessageType, telemetry, heartbeat, other_message, SensorType, other_type,
  SensorState, other_state, IsMessageType, IsSensorType, IsSensorState, IsHeader, IsTelemetry,
}
use smart_sensor_network.Serializer.{serialize_telemetry, deserialize_telemetry}
use smart_sensor_network.Serializer.Decode.{
  decoded_telemetry, deserialize_telemetry_lem, decoded_telemetry-IsTelemetry,
}
use smart_sensor_network.Serializer.RoundTrip.{
  telemetry_wire, serialize_telemetry-eq-wire, telemetry_wire-AreBytes, decoded_telemetry-wire,
}
use smart_sensor_network.Serializer.Reencode.{serialize_telemetry-deserialize_telemetry}
use native.Mathlib.Nat.{ℕ_set}

IsMessageType-prop : (t : MessageType) → IsProp (IsMessageType t)
IsMessageType-prop telemetry = hlevel
IsMessageType-prop heartbeat = hlevel
IsMessageType-prop (other_message n) = hlevel le_prop

IsSensorType-prop : (t : SensorType) → IsProp (IsSensorType t)
IsSensorType-prop (other_type n) = hlevel le_prop
IsSensorType-prop _ = hlevel

IsSensorState-prop : (s : SensorState) → IsProp (IsSensorState s)
IsSensorState-prop (other_state n) = hlevel le_prop
IsSensorState-prop _ = hlevel

IsHeader-prop : {h : _} → IsProp (IsHeader h)
IsHeader-prop = hlevel (le_prop, IsMessageType-prop)

IsTelemetry-prop : (m : TelemetryMessage) → IsProp (IsTelemetry m)
IsTelemetry-prop m = hlevel (le_prop, IsMessageType-prop, IsSensorType-prop, IsSensorState-prop)

AreBytes-prop : (b : Bytes) → IsProp (AreBytes b)
AreBytes-prop [] = hlevel
AreBytes-prop (x ∷ b) = hlevel (le_prop, AreBytes-prop b)

-- The messages whose fields fit their widths.
abbrev pub ValidTelemetry : Type 0
ValidTelemetry = (m : TelemetryMessage) × IsTelemetry m

abbrev pub IsTelemetryPacket : Bytes → Type 0
IsTelemetryPacket b = AreBytes b × (length b ≡ 23)

-- The byte sequences of a telemetry packet's size.
abbrev pub TelemetryPacket : Type 0
TelemetryPacket = (b : Bytes) × IsTelemetryPacket b

take_whole : (n : ℕ) (b : Bytes) → length b ≡ n → take n b ≡ b
take_whole zero [] h = refl
take_whole zero (x ∷ b) h = absurd (omega arith)
take_whole (suc n) [] h = refl
take_whole (suc n) (x ∷ b) h = ap (λ t. x ∷ t) (take_whole n b (omega arith))

-- The serializer on the messages, with its bytes and their count.
abbrev pub telemetry_packet : ValidTelemetry → TelemetryPacket
telemetry_packet (m, valid) = (
  serialize_telemetry m,
  (
    subst AreBytes (sym (serialize_telemetry-eq-wire m)) (telemetry_wire-AreBytes m),
    ap length (serialize_telemetry-eq-wire m),
  ),
)

abbrev telemetry_message : TelemetryPacket → ValidTelemetry
telemetry_message (b, (bytes, size)) =
    (decoded_telemetry b, decoded_telemetry-IsTelemetry b bytes (omega arith))

telemetry_message-packet : (v : ValidTelemetry) → telemetry_message (telemetry_packet v) ≡ v
telemetry_message-packet (m, valid) = Σ_prop_path IsTelemetry-prop (
    ap decoded_telemetry (serialize_telemetry-eq-wire m ∙ sym (append-nil (telemetry_wire m)))
    ∙ decoded_telemetry-wire m [] valid)

deserialize_telemetry-packet :
    (p : TelemetryPacket) → deserialize_telemetry p.0 ≡ ok (telemetry_message p).0
deserialize_telemetry-packet (b, (bytes, size)) = rw (deserialize_telemetry_lem b bytes, size) refl

telemetry_packet-message : (p : TelemetryPacket) → telemetry_packet (telemetry_message p) ≡ p
telemetry_packet-message (b, (bytes, size)) =
    Σ_prop_path {B = IsTelemetryPacket} (λ c. hlevel (AreBytes-prop c, ℕ_set))
      (serialize_telemetry-deserialize_telemetry b (decoded_telemetry b) bytes
          (deserialize_telemetry-packet (b, (bytes, size)))
        ∙ take_whole 23 b size)

-- The serializer of telemetry, taken from the messages whose fields fit their widths to the
-- sequences of 23 bytes, is an equivalence of types: each such sequence is the packet of exactly
-- one message. That message is what the deserializer returns.
pub serialize_telemetry-IsEquiv :
    (e : IsEquiv telemetry_packet) × ((p : TelemetryPacket)
      → deserialize_telemetry p.0 ≡ ok (e p).0.0.0)
serialize_telemetry-IsEquiv = (
  (iso_to_equiv record {
    fun = telemetry_packet;
    inv = telemetry_message;
    rinv = telemetry_packet-message;
    linv = telemetry_message-packet;
  }).1,
  deserialize_telemetry-packet,
)
