-- ===== src/Gateway/Unordered.antt =====
-- The gateway without the order of its hash table: what it promises to its clients.
use mathlib.Core.Path.{◌≡◌, refl, sym, ap, ◌∙◌}
use mathlib.Core.Quot
use mathlib.Core.Quot.{Quot, Quot-set}
use smart_sensor_network.Prelude.{ℕ, ◌≢◌}
use smart_sensor_network.Protocol.{TelemetryMessage, HeartbeatMessage}
use smart_sensor_network.Registry.{IsUnique, modify, modify-IsUnique}
use smart_sensor_network.Registry.Reordered.{Reordered, modify-Reordered, modify_comm}
use smart_sensor_network.Gateway.{
  SensorInfo, Sensors, Gateway, initial_info, next64, update_sensor_info, take_telemetry,
  handle_heartbeat, take_heartbeat,
}
use smart_sensor_network.Monitor.{Moment, sensor_list}
use smart_sensor_network.Monitor.Order.{sensor_list-Reordered}

-- A registry with one entry for a key, in an order.
abbrev pub Table : Type 0
Table = (m : Sensors) × IsUnique m

abbrev SameEntries : Table → Table → Type 0
SameEntries m n = Reordered m.0 n.0

-- The registry, in no order.
abbrev pub Unordered : Type 0
Unordered = Quot SameEntries

-- The change of one entry, in no order.
unfoldable pub change : ℕ → (SensorInfo → SensorInfo) → Unordered → Unordered
change id f =
    Quot.lift Quot-set
      (λ m. Quot.mk (modify id initial_info f m.0, modify-IsUnique id initial_info f m.0 m.1))
      (λ m n r. Quot.sound (modify-Reordered id initial_info f r m.1))

-- Changes of different entries commute.
change_comm :
    (a b : ℕ) (f g : SensorInfo → SensorInfo)
    → a ≢ b
    → (t : Unordered) → change a f (change b g t) ≡ change b g (change a f t)
unfolding change
change_comm a b f g differ =
    Quot.ind (λ t. Quot-set _ _) (λ m. Quot.sound (modify_comm a b initial_info f g m.0 differ))

-- What a packet of either type brings to the gateway.
pub data Message : Type 0 where
  reported : TelemetryMessage → Message
  alive : HeartbeatMessage → Message

abbrev pub sensor_of : Message → ℕ
sensor_of (reported m) = m.header.sensor_id
sensor_of (alive m) = m.header.sensor_id

unfoldable pub deliver : ℕ → Message → Gateway → Gateway
deliver now (reported m) g = update_sensor_info now m g
deliver now (alive m) g = handle_heartbeat now m g

abbrev effect : ℕ → Message → SensorInfo → SensorInfo
effect now (reported m) = take_telemetry now m
effect now (alive m) = take_heartbeat now

-- The gateway in no order: the registry and the two counters.
pub record View : Type 0 where
  pub table : Unordered
  pub telemetry_packets_received : ℕ
  pub heartbeat_packets_received : ℕ

abbrev pub view : (g : Gateway) → IsUnique g.sensors → View
view g u = record {
  table = Quot.mk (g.sensors, u);
  telemetry_packets_received = g.telemetry_packets_received;
  heartbeat_packets_received = g.heartbeat_packets_received;
}

-- The specification of a delivery.
unfoldable pub delivered : ℕ → Message → View → View
delivered now (reported m) v = record {
  table = change m.header.sensor_id (take_telemetry now m) v.table;
  telemetry_packets_received = next64 v.telemetry_packets_received;
  heartbeat_packets_received = v.heartbeat_packets_received;
}
delivered now (alive m) v = record {
  table = change m.header.sensor_id (take_heartbeat now) v.table;
  telemetry_packets_received = v.telemetry_packets_received;
  heartbeat_packets_received = next64 v.heartbeat_packets_received;
}

pub deliver-IsUnique :
    (now : ℕ) (m : Message) (g : Gateway) → IsUnique g.sensors → IsUnique (deliver now m g).sensors
unfolding deliver update_sensor_info handle_heartbeat
deliver-IsUnique now (reported m) g u = modify-IsUnique _ initial_info _ g.sensors u
deliver-IsUnique now (alive m) g u = modify-IsUnique _ initial_info _ g.sensors u

-- The gateway's handlers implement the specification in no order: a delivery, seen without the order of the
-- hash table, is the specified change of the view.
view-deliver :
    (now : ℕ) (m : Message) (g : Gateway) (u : IsUnique g.sensors)
    → view (deliver now m g) (deliver-IsUnique now m g u) ≡ delivered now m (view g u)
unfolding deliver delivered deliver-IsUnique update_sensor_info handle_heartbeat change
view-deliver now (reported m) g u = refl
view-deliver now (alive m) g u = refl

same_counts :
    {k l : ℕ} (t t' : Unordered)
    → t ≡ t'
    → ◌≡◌ {A = View}
        (record { table = t; telemetry_packets_received = k; heartbeat_packets_received = l })
        (record { table = t'; telemetry_packets_received = k; heartbeat_packets_received = l })
same_counts {k} {l} t t' e =
    ap (λ x. record { table = x; telemetry_packets_received = k; heartbeat_packets_received = l }) e

-- The specified deliveries for two different sensors commute.
delivered_comm :
    (now later : ℕ) (m n : Message) (v : View)
    → sensor_of m ≢ sensor_of n
    → delivered now m (delivered later n v) ≡ delivered later n (delivered now m v)
unfolding delivered
delivered_comm now later (reported m) (reported n) v differ =
    same_counts _ _ (change_comm m.header.sensor_id n.header.sensor_id _ _ differ v.table)
delivered_comm now later (reported m) (alive n) v differ =
    same_counts _ _ (change_comm m.header.sensor_id n.header.sensor_id _ _ differ v.table)
delivered_comm now later (alive m) (reported n) v differ =
    same_counts _ _ (change_comm m.header.sensor_id n.header.sensor_id _ _ differ v.table)
delivered_comm now later (alive m) (alive n) v differ =
    same_counts _ _ (change_comm m.header.sensor_id n.header.sensor_id _ _ differ v.table)

deliver_entries :
    (now : ℕ) (m : Message) (g : Gateway)
    → (deliver now m g).sensors ≡ modify (sensor_of m) initial_info (effect now m) g.sensors
unfolding deliver update_sensor_info handle_heartbeat
deliver_entries now (reported m) g = refl
deliver_entries now (alive m) g = refl

deliver-Reordered :
    (now later : ℕ) (m n : Message) (g : Gateway)
    → sensor_of m ≢ sensor_of n
    → Reordered
        (deliver now m (deliver later n g)).sensors
        (deliver later n (deliver now m g)).sensors
deliver-Reordered now later m n g differ =
    rw
      (
        deliver_entries now m (deliver later n g),
        deliver_entries later n (deliver now m g),
        deliver_entries later n g,
        deliver_entries now m g,
      )
      (modify_comm (sensor_of m) (sensor_of n) initial_info (effect now m) (effect later n)
        g.sensors differ)

-- Readings and heartbeats of two different sensors can be handled in either order: from a registry with one
-- entry for a key, the gateway is the same but for the order of its hash table, and the list of
-- sensors that `Monitor` prints is the same.
pub deliver_comm :
    (now later : ℕ) (m n : Message) (g : Gateway) (u : IsUnique g.sensors)
    → sensor_of m ≢ sensor_of n
    → let one : Gateway = deliver now m (deliver later n g) in
      let other : Gateway = deliver later n (deliver now m g) in
      (view one (deliver-IsUnique now m (deliver later n g) (deliver-IsUnique later n g u))
        ≡ view other (deliver-IsUnique later n (deliver now m g) (deliver-IsUnique now m g u)))
      × ((seen : ℕ → Moment) → sensor_list seen one.sensors ≡ sensor_list seen other.sensors)
deliver_comm now later m n g u differ =
    let after_n = deliver-IsUnique later n g u in
    let after_m = deliver-IsUnique now m g u in
    (
      view-deliver now m (deliver later n g) after_n
          ∙ ap (delivered now m) (view-deliver later n g u)
          ∙ delivered_comm now later m n (view g u) differ
          ∙ ap (delivered later n) (sym (view-deliver now m g u))
          ∙ sym (view-deliver later n (deliver now m g) after_m),
      λ seen.
          sensor_list-Reordered seen (deliver-Reordered now later m n g differ)
            (deliver-IsUnique now m (deliver later n g) after_n),
    )
