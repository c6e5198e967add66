-- ===== src/Udp/Faults.antt =====
-- Which datagrams end the receiver.
use smart_sensor_network.Prelude.{
  ℕ, zero, suc, ◌≡◌, refl, Bool, true, false, ◌&&◌, ◌||◌, List, [], ◌∷◌, ◌++◌, Bytes, AreBytes, All,
  length, take, ltb, Result, ok, throw, ◌>>=◌, Bool-cases, inl, inr,
}
use smart_sensor_network.Protocol.{MessageType, telemetry, heartbeat, other_message, message_type}
use smart_sensor_network.Wire.{underflow}
use smart_sensor_network.Serializer.Decode.{word}
use smart_sensor_network.Gateway.{Gateway, Logs, handle_packet}
use smart_sensor_network.Gateway.Handlers.{handled, handle_packet_lem}
use smart_sensor_network.Gateway.Counting.{is_telemetry}
use smart_sensor_network.Udp.{
  Arrival, datagram, would_block, receive_failed, receive_packet, receive_all, max_packet_size,
}

-- Too short for a header, or for the telemetry that it announces.
abbrev pub truncated : Bytes → Bool
truncated packet =
    ltb (length packet) 13
    || (is_telemetry (message_type (word 1 0 packet)) && ltb (length packet) 23)

abbrev pub is_fatal : Arrival → Bool
is_fatal (datagram now packet) = truncated (take max_packet_size packet)
is_fatal would_block = false
is_fatal receive_failed = false

abbrev pub any_fatal : List Arrival → Bool
any_fatal [] = false
any_fatal (a ∷ as') = is_fatal a || any_fatal as'

abbrev pub IsArrival : Arrival → Type 0
IsArrival (datagram now packet) = AreBytes packet
IsArrival would_block = Unit
IsArrival receive_failed = Unit

-- The result throws the underflow if the test holds, and else is a result.
abbrev pub Outcome : Bool → Result (Gateway × Logs) → Type 0
Outcome true r = r ≡ throw underflow
Outcome false r = (s : Gateway × Logs) × (r ≡ ok s)

handled-Outcome :
    (now : ℕ) (packet : Bytes) (g : Gateway) (t : MessageType)
    → Outcome (is_telemetry t && ltb (length packet) 23) (handled now packet g t)
handled-Outcome now packet g telemetry = elim (Bool-cases (ltb (length packet) 23)) [
  | inl short ↦ rw short refl
  | inr whole ↦ rw whole (_, refl)
]
handled-Outcome now packet g heartbeat = (_, refl)
handled-Outcome now packet g (other_message n) = (_, refl)

handle_packet-Outcome :
    (now : ℕ) (packet : Bytes) (g : Gateway)
    → AreBytes packet
    → Outcome (truncated packet) (handle_packet now packet g)
handle_packet-Outcome now packet g bytes =
    rw (handle_packet_lem now packet g bytes) (elim (Bool-cases (ltb (length packet) 13)) [
      | inl short ↦ rw short refl
      | inr enough ↦ rw enough (handled-Outcome now packet g (message_type (word 1 0 packet)))
    ])

take-AreBytes : (n : ℕ) (s : Bytes) → AreBytes s → AreBytes (take n s)
take-AreBytes zero s h = tt
take-AreBytes (suc n) [] h = tt
take-AreBytes (suc n) (c ∷ s) h = (h.0, take-AreBytes n s h.1)

receive_packet-Outcome :
    (a : Arrival) (g : Gateway) → IsArrival a → Outcome (is_fatal a) (receive_packet a g)
unfolding receive_packet
receive_packet-Outcome (datagram now packet) g h =
    handle_packet-Outcome now (take max_packet_size packet) g (take-AreBytes 1024 packet h)
receive_packet-Outcome would_block g h = (_, refl)
receive_packet-Outcome receive_failed g h = (_, refl)

Outcome->>= :
    (b c : Bool) (m : Result (Gateway × Logs)) (f : Gateway × Logs → Result (Gateway × Logs))
    → Outcome b m
    → ((s : Gateway × Logs) → Outcome c (f s))
    → Outcome (b || c) (m >>= f)
Outcome->>= true c m f h k = rw h
Outcome->>= false c m f (s, e) k = rw e (k s)

-- The loop of the receiver ends by an exception exactly if one of the datagrams is too short for what it
-- announces, whatever came before it; any other arrivals are all handled.
pub receive_all-Outcome :
    (arrivals : List Arrival) (g : Gateway)
    → All IsArrival arrivals
    → Outcome (any_fatal arrivals) (receive_all arrivals g)
unfolding receive_all
receive_all-Outcome [] g h = (_, refl)
receive_all-Outcome (a ∷ as') g h =
    Outcome->>= (is_fatal a) (any_fatal as') (receive_packet a g) _ (receive_packet-Outcome a g h.0)
      λ s. add_logs (any_fatal as') (receive_all as' s.0) s.1 (receive_all-Outcome as' s.0 h.1)
  where
    add_logs :
        (b : Bool) (m : Result (Gateway × Logs)) (logs : Logs)
        → Outcome b m
        → Outcome b (m >>= λ (g, more). ok (g, logs ++ more))
    add_logs true m logs e = rw e
    add_logs false m logs (s, e) = rw e (_, refl)
