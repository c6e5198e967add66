-- ===== src/System/Recovers.antt =====
-- A heartbeat of the demo on its way from its thread to the registry.
use smart_sensor_network.Prelude.{
  ℕ, suc, ◌+◌, ◌<◌, ◌^◌, ◌≡◌, refl, ap, ◌∙◌, subst, true, false, none, some, List, [], ◌∷◌, ◌++◌,
  Bytes, length, arith, if◌then◌else◌, lt→ltb, ok,
}
use smart_sensor_network.Protocol.{HeartbeatMessage, online, IsHeader}
use smart_sensor_network.Registry.{find, or_initial}
use smart_sensor_network.Sensor.{Sensor, get_id}
use smart_sensor_network.Serializer.{serialize_heartbeat}
use smart_sensor_network.Serializer.Decode.{decoded_header}
use smart_sensor_network.Gateway.{SensorInfo, Gateway, initial_info, handle_heartbeat}
use smart_sensor_network.Gateway.Handlers.{handled, find-handle_heartbeat}
use smart_sensor_network.Gateway.Invariant.{IsTime}
use smart_sensor_network.Udp.{Receiver, datagram, receive_packet}
use smart_sensor_network.Tcp.Server.{Server}
use smart_sensor_network.Node.{udp_send, send_heartbeat, heartbeat_message}
use smart_sensor_network.System.World.{
  World, get_elem?, remove, beat_sensor, beat_node, keep_result, receive_at, receive_next, advance,
}
use smart_sensor_network.System.Packets.{IsSent, decoded_header-serialize_heartbeat}
use smart_sensor_network.System.Deliveries.{receive_packet-handled}
use smart_sensor_network.System.Fleet.{IsNode, get_elem?-IsNode, send_heartbeat-IsSent}
use smart_sensor_network.System.Invariant.{IsWorld}
use smart_sensor_network.System.Reachable.{Reach-IsWorld}
use smart_sensor_network.System.State.{
  System, beat_next, pass_time, receive, testing, working, place, next_place, is_working, initial,
}
use smart_sensor_network.System.Steps.{is_skipped, allowed, apply, Reach}
use smart_sensor_network.System.Runs.{go, go-apply, go_nil}
use smart_sensor_network.System.Numbers.{get_elem?-lt, Reach-sensors}

get_elem?-last {ℓ} :
    {A : Type ℓ} (xs : List A) (x : A) → get_elem? (xs ++ (x ∷ [])) (length xs) ≡ some x
get_elem?-last [] x = refl
get_elem?-last (y ∷ xs) x = get_elem?-last xs x

remove-last {ℓ} : {A : Type ℓ} (xs : List A) (x : A) → remove (xs ++ (x ∷ [])) (length xs) ≡ xs
remove-last [] x = refl
remove-last (y ∷ xs) x = ap (λ t. y ∷ t) (remove-last xs x)

-- The world with a packet under way behind the others.
abbrev with_packet : Bytes → World → World
with_packet b w = record w { network = w.network ++ (b ∷ []) }

beat_node-with_packet :
    (k : ℕ) (sn : Sensor) (w : World)
    → get_elem? w.sensors k ≡ some sn
    → beat_node k false w ≡ with_packet (serialize_heartbeat (heartbeat_message w.clock sn)) w
unfolding beat_node beat_sensor send_heartbeat udp_send
beat_node-with_packet k sn w e = ap (λ o. beat_sensor false o w) e

-- The registry's entry behind a heartbeat that came at a time.
abbrev pub recovered : ℕ → SensorInfo → SensorInfo
recovered now info = record info { last_heartbeat_received_time = now; health = online }

-- The heartbeat of a sensor, handled.
heartbeat-handled :
    (made now j : ℕ) (sn : Sensor) (g : Gateway)
    → made < 2 ^ 64
    → IsNode j sn
    → receive_packet (datagram now (serialize_heartbeat (heartbeat_message made sn))) g
      ≡ ok (handle_heartbeat now (heartbeat_message made sn) g, [])
unfolding heartbeat_message send_heartbeat get_id
heartbeat-handled made now j sn g room node =
    let m : HeartbeatMessage = heartbeat_message made sn in
    let b : Bytes = serialize_heartbeat m in
    let sent : IsSent b = send_heartbeat-IsSent (λ p. ok tt) made j sn room node in
    let valid : IsHeader m.header = record {
      type_ok = tt;
      sensor_id_lt = node.in_range.id_lt;
      timestamp_lt = room;
    } in
    let decoded : decoded_header b ≡ m.header = decoded_header-serialize_heartbeat m valid in
    receive_packet-handled now b g sent
    ∙ ap (handled now b g) (ap (λ h. h.type) decoded)
    ∙ ap (λ h. ok (handle_heartbeat now (record { header = h }) g, [])) decoded

-- What the world is behind the packet's arrival.
abbrev arrived : ℕ → HeartbeatMessage → World → World
arrived now m w = record w { gateway = handle_heartbeat now m w.gateway; logs = w.logs ++ [] }

receive_next-with_packet :
    (now : ℕ) (b : Bytes) (m : HeartbeatMessage) (w : World)
    → receive_packet (datagram now b) w.gateway ≡ ok (handle_heartbeat now m w.gateway, [])
    → receive_next (length w.network) (record w { clock = now; network = w.network ++ (b ∷ []) })
      ≡ arrived now m (record w { clock = now })
unfolding receive_next receive_at
receive_next-with_packet now b m w handled =
    let w' : World = record w { clock = now; network = w.network ++ (b ∷ []) } in
    ap (λ o. receive_at (length w.network) o w') (get_elem?-last w.network b)
    ∙ ap (λ r. keep_result r (record w' { network = remove w'.network (length w.network) })) handled
    ∙ ap (λ n. arrived now m (record w { clock = now; network = n })) (remove-last w.network b)

-- The heartbeat of the node at index `k`, received `d` milliseconds later.
delivered :
    (k d : ℕ) (w : World)
    → IsWorld w
    → length w.sensors ≡ 7
    → k < 7
    → w.clock + d < 2 ^ 64
    → let v = receive_next (length w.network) (advance d (beat_node k false w)) in
      (find (suc k) v.gateway.sensors
        ≡ some (recovered (w.clock + d) (or_initial initial_info (find (suc k) w.gateway.sensors))))
      × (v.network ≡ w.network)
      × (v.thrown ≡ w.thrown)
unfolding heartbeat_message get_id
delivered k d w h seven few room =
    let (sn, here_is) = get_elem?-lt w.sensors k (omega arith) in
    let node : IsNode (1 + k) sn = get_elem?-IsNode 1 w.sensors k sn h.fleet_ok here_is in
    let c : ℕ = w.clock + d in
    let m : HeartbeatMessage = heartbeat_message w.clock sn in
    let b : Bytes = serialize_heartbeat m in
    let own : m.header.sensor_id ≡ suc k = node.own_id ∙ omega arith in
    let same : receive_next (length w.network) (advance d (beat_node k false w))
        ≡ arrived c m (record w { clock = c }) =
      ap (λ v. receive_next (length w.network) (advance d v)) (beat_node-with_packet k sn w here_is)
      ∙ ap
          (λ t.
            receive_next (length w.network)
              (record w { clock = if t then c else w.clock; network = w.network ++ (b ∷ []) }))
          (lt→ltb c (2 ^ 64) room)
      ∙ receive_next-with_packet c b m w
          (heartbeat-handled w.clock c (1 + k) sn w.gateway h.time.1 node) in
    let entry : find (suc k) (handle_heartbeat c m w.gateway).sensors
        ≡ some (recovered c (or_initial initial_info (find (suc k) w.gateway.sensors))) =
      subst
        (λ id.
          find id (handle_heartbeat c m w.gateway).sensors
          ≡ some (recovered c (or_initial initial_info (find id w.gateway.sensors))))
        own ((find-handle_heartbeat c m w.gateway m.header.sensor_id).0 ∙ ground arith) in
    (
      ap (λ v. find (suc k) v.gateway.sensors) same ∙ entry,
      ap (λ v. v.network) same,
      ap (λ v. v.thrown) same,
    )

module _ (sub : ℕ → ℕ → ℕ) (show : ℕ → Bytes) where
  round_trip :
      (k d : ℕ) (s : System)
      → s.world.thrown ≡ none
      → s.phases.heartbeat ≡ working k
      → is_skipped k s ≡ false
      → is_working s.phases.udp ≡ true
      → (beat_node k false s.world).thrown ≡ none
      → let v =
          go sub show (beat_next false ∷ pass_time d ∷ receive (length s.world.network) ∷ []) s in
        (v.world ≡ receive_next (length s.world.network) (advance d (beat_node k false s.world)))
        × (v.phases.heartbeat ≡ next_place k)
        × (v.phases.udp ≡ testing)
        × (v.phases.watchdog ≡ s.phases.watchdog)
        × (v.current_time ≡ s.current_time)
  unfolding allowed apply
  round_trip k d s quiet at goes works clear =
      let i : ℕ = length s.world.network in
      let w : World = beat_node k false s.world in
      let s₁ : System = apply sub show (beat_next false) s in
      let s₂ : System = apply sub show (pass_time d) s₁ in
      let beaten : s₁.world ≡ w =
        ap (λ p. if is_skipped (place p) s then s.world else beat_node (place p) false s.world) at
        ∙ ap (λ b. if b then s.world else w) goes in
      let calm : s₁.world.thrown ≡ none = ap (λ v. v.thrown) beaten ∙ clear in
      let whole : go sub show (beat_next false ∷ pass_time d ∷ receive i ∷ []) s
          ≡ apply sub show (receive i) s₂ =
        go-apply sub show (beat_next false) (pass_time d ∷ receive i ∷ []) s quiet
          (ap is_working at)
        ∙ go-apply sub show (pass_time d) (receive i ∷ []) s₁ calm refl
        ∙ go-apply sub show (receive i) [] s₂ calm works
        ∙ go_nil sub show (apply sub show (receive i) s₂) in
      (
        ap (λ v. v.world) whole ∙ ap (λ v. receive_next i (advance d v)) beaten,
        ap (λ v. v.phases.heartbeat) whole ∙ ap (λ p. next_place (place p)) at,
        ap (λ v. v.phases.udp) whole,
        ap (λ v. v.phases.watchdog) whole,
        ap (λ v. v.current_time) whole,
      )

  -- The heartbeat on its way, with what stays of the watchdog.
  pub recovers :
      (s : System) (k d : ℕ)
      → IsWorld s.world
      → length s.world.sensors ≡ 7
      → s.world.thrown ≡ none
      → s.phases.heartbeat ≡ working k
      → k < 7
      → is_skipped k s ≡ false
      → is_working s.phases.udp ≡ true
      → s.world.clock + d < 2 ^ 64
      → let v =
          go sub show (beat_next false ∷ pass_time d ∷ receive (length s.world.network) ∷ []) s in
        let old = or_initial initial_info (find (suc k) s.world.gateway.sensors) in
        (find (suc k) v.world.gateway.sensors ≡ some (recovered (s.world.clock + d) old))
        × (v.world.network ≡ s.world.network)
        × (v.phases.heartbeat ≡ next_place k)
        × (v.phases.udp ≡ testing)
        × (v.world.thrown ≡ none)
        × (v.phases.watchdog ≡ s.phases.watchdog)
        × (v.current_time ≡ s.current_time)
  recovers s k d valid seven quiet at few goes works room =
      let (sn, here_is) = get_elem?-lt s.world.sensors k (omega arith) in
      let (entry, taken, calm) = delivered k d s.world valid seven few room in
      let (world, moved, tested, watches, time) =
        round_trip k d s quiet at goes works
          (ap (λ v. v.thrown) (beat_node-with_packet k sn s.world here_is) ∙ quiet) in
      (
        ap (λ v. find (suc k) v.gateway.sensors) world ∙ entry,
        ap (λ v. v.network) world ∙ taken,
        moved,
        tested,
        ap (λ v. v.thrown) world ∙ calm ∙ quiet,
        watches,
        time,
      )

  -- In a state that the demo can come to, from a start at a time behind the epoch and within 64 bits
  -- and with differences of doubles that are patterns of 64 bits, in which no exception was thrown,
  -- the heartbeat thread stands at one of the seven nodes, which is not disabled, and the receiver is
  -- in a round: if the send does not fail, `d` milliseconds pass, within 64 bits, and the receiver
  -- takes this packet, then the registry has the sensor ONLINE with the time of the receipt, whatever
  -- it had before, with the telemetry that it had; no packet is left of it; and both threads have
  -- moved on.
  pub Reach-recovered :
      (sub_lt : (a b : ℕ) → sub a b < 2 ^ 64) (receiver : Receiver) (server : Server) (clock : ℕ)
      {s : System} (k d : ℕ)
      → IsTime clock
      → Reach sub show (initial receiver server clock) s
      → s.world.thrown ≡ none
      → s.phases.heartbeat ≡ working k
      → k < 7
      → is_skipped k s ≡ false
      → is_working s.phases.udp ≡ true
      → s.world.clock + d < 2 ^ 64
      → let v =
          go sub show (beat_next false ∷ pass_time d ∷ receive (length s.world.network) ∷ []) s in
        let old = or_initial initial_info (find (suc k) s.world.gateway.sensors) in
        (find (suc k) v.world.gateway.sensors ≡ some (recovered (s.world.clock + d) old))
        × (v.world.network ≡ s.world.network)
        × (v.phases.heartbeat ≡ next_place k)
        × (v.phases.udp ≡ testing)
  Reach-recovered sub_lt receiver server clock {s} k d time r quiet at few goes works room =
      let (entry, taken, moved, tested, _, _, _) =
        recovers s k d (Reach-IsWorld sub show sub_lt receiver server clock time r)
          (Reach-sensors sub show receiver server clock r) quiet at few goes works room in
      (entry, taken, moved, tested)
