-- ===== src/Node/Stop.antt =====
-- `SensorNode::run` in its thread, with `stop()` called by others: src/sensor/SensorNode.cpp.
use smart_sensor_network.Prelude.{
  ℕ, ◌≡◌, Bool, true, false, Option, none, some, List, [], ◌∷◌, ◌++◌, Bytes, if◌then◌else◌, Result,
  Exception,
}
use smart_sensor_network.Sensor.{Sensor}
use smart_sensor_network.Node.{Loop, Readings, round}

-- Before `run()`; at the test of its loop; in the body; behind `run()`, or behind an exception.
pub data Place : Type 0 where
  called testing working left : Place

-- The object, and where its thread stands.
pub record SensorNode : Type 0 where
  pub telemetry_interval : ℕ
  pub heartbeat_interval : ℕ
  pub running : Bool
  pub place : Place
  pub loop : Loop

-- The constructor: the timers are those of `run()`, which sets them.
abbrev pub new_node : Sensor → ℕ → ℕ → SensorNode
new_node sensor telemetry_interval heartbeat_interval = record {
  telemetry_interval = telemetry_interval;
  heartbeat_interval = heartbeat_interval;
  running = false;
  place = called;
  loop = record {
    sensor = sensor;
    last_telemetry = 0;
    last_heartbeat = 0;
    telemetry_sent = [];
    heartbeat_sent = [];
    thrown = none;
  };
}

pub data Event : Type 0 where
  enter : ℕ → ℕ → Event
  test : Event
  body : Readings → Event
  stop : Event

unfoldable pub stop_node : SensorNode → SensorNode
stop_node n = record n { running = false }

-- The first lines of `run()`, with the two readings of the clock.
unfoldable pub enter_node : ℕ → ℕ → SensorNode → SensorNode
enter_node telemetry_start heartbeat_start n = record n {
  running = true;
  place = testing;
  loop = record n.loop { last_telemetry = telemetry_start; last_heartbeat = heartbeat_start };
}

abbrev pub after_body : Option Exception → Place
after_body none = testing
after_body (some e) = left

module _ (sub : ℕ → ℕ → ℕ) (send : Bytes → Result (Unit {0})) where
  -- A round; an exception leaves `run()`.
  unfoldable pub body_node : Readings → SensorNode → SensorNode
  body_node r n =
      let l = round sub send n.telemetry_interval n.heartbeat_interval r n.loop in
      record n { loop = l; place = after_body l.thrown }

  -- What happens, where it can.
  unfoldable pub fire_at : Place → Event → SensorNode → Option SensorNode
  unfolding enter_node body_node stop_node
  fire_at p stop n = some (stop_node n)
  fire_at called (enter ts hs) n = some (enter_node ts hs n)
  fire_at testing test n = some (record n { place = if n.running then working else left })
  fire_at working (body r) n = some (body_node r n)
  fire_at _ _ n = none

  unfoldable pub fire : Event → SensorNode → Option SensorNode
  unfolding fire_at
  fire e n = fire_at n.place e n

  abbrev pub reads : Event → List Readings
  reads (body r) = r ∷ []
  reads _ = []

  -- Any interleaving, with what the rounds in it read.
  pub data Steps (n : SensorNode) : List Readings → SensorNode → Type 0 where
    here : Steps n [] n
    next :
        {rs : List Readings} {m k : SensorNode}
        → Steps n rs m
        → (e : Event) → fire e m ≡ some k
        → Steps n (rs ++ reads e) k
