-- ===== src/Node/Report.antt =====
-- From a node to a monitoring client: what the server answers once a packet was handled.
use smart_sensor_network.Prelude.{
  ℕ, ◌^◌, ◌<◌, ◌≤◌, ◌≡◌, ◌≢◌, ap, sym, ◌∙◌, some, Bytes, ◌++◌, Result, ok, throw, Exception, ◌>>=◌,
  ==_iff, if◌then◌else◌,
}
use smart_sensor_network.Prelude.Decimal.{decimal}
use smart_sensor_network.Prelude.Int.{int_max}
use smart_sensor_network.Registry.{find, or_initial}
use smart_sensor_network.Protocol.{TelemetryMessage}
use smart_sensor_network.Sensor.{Sensor, collect_data, reading, get_id}
use smart_sensor_network.Gateway.{
  SensorInfo, Gateway, Logs, initial_info, handle_packet, update_sensor_info,
}
use smart_sensor_network.Gateway.Handlers.{find-update_sensor_info}
use smart_sensor_network.Monitor.{details, details_of, sensor_details}
use smart_sensor_network.Tcp.{Views, normalize, get_prefix, process_request}
use smart_sensor_network.Tcp.Requests.{process_request-get}
use smart_sensor_network.Node.{tick}
use smart_sensor_network.Node.Delivery.{IsSensor, handle_packet-tick}

-- The entry of a sensor once its message was stored: the heartbeat's part is the old one.
abbrev pub told : ℕ → ℕ → TelemetryMessage → Gateway → SensorInfo
told now id message g = record (or_initial initial_info (find id g.sensors)) {
  last_telemetry = message;
  last_telemetry_received_time = now;
}

ok-injective {ℓ} : {A : Type ℓ} {a b : A} → ok a ≡ ok b → a ≡ b
ok-injective e = cc

throw-ok {ℓ} : {A : Type ℓ} {a : A} {e : Exception} → ◌≢◌ {A = Result A} (throw e) (ok a)
throw-ok e = cc

-- What is returned behind a call that did not throw.
returned {ℓ κ} :
    {A : Type ℓ} {B : Type κ} {b c : B} (r : Result A) → (r >>= λ _. ok b) ≡ ok c → b ≡ c
returned (ok a) e = ok-injective e
returned (throw x) e = absurd (throw-ok {e = x} e)

find-update_own :
    (now id : ℕ) (m : TelemetryMessage) (g : Gateway)
    → m.header.sensor_id ≡ id
    → find id (update_sensor_info now m g).sensors ≡ some (told now id m g)
find-update_own now id m g own =
    let entry : ℕ → SensorInfo = λ k. told now k m g in
    (find-update_sensor_info now m g id).0
    ∙ ap (λ b. if b then some (entry m.header.sensor_id) else find id g.sensors)
        ((==_iff m.header.sensor_id id).1 own)
    ∙ ap (λ k. some (entry k)) own

-- For a sensor, a collected value and a time that fit their types, with an id that is a positive `int`, and a
-- tick that returns a message: once the gateway has handled the packet of the tick, the answer on that
-- registry to a request that normalizes to `get` and the decimal digits of the sensor's id is the
-- details of the sensor with that message as its last telemetry.
pub process_request-tick :
    (sub : ℕ → ℕ → ℕ) (send : Bytes → Result (Unit {0})) (draw sent_at now : ℕ) (s : Sensor)
    (message : TelemetryMessage) (g after : Gateway) (logs : Logs) (show : ℕ → Bytes) (v : Views)
    (request : Bytes)
    → IsSensor s
    → (collect_data sub draw s).1 < 2 ^ 64
    → sent_at < 2 ^ 64
    → (tick sub send draw sent_at s).outcome ≡ ok message
    → handle_packet now (tick sub send draw sent_at s).packet g ≡ ok (after, logs)
    → v.sensors ≡ after.sensors
    → normalize request ≡ get_prefix ++ decimal (get_id s)
    → 0 < get_id s
    → get_id s ≤ int_max
    → (process_request show v request).response
      ≡ ok (details show (v.seen (get_id s)) (get_id s) (told now (get_id s) message g))
unfolding sensor_details
process_request-tick sub send draw sent_at now s message g after logs show v request h lt time gave
      handled seen text positive fits =
    let id : ℕ = get_id s in
    let packet = (tick sub send draw sent_at s).packet in
    let (delivered, own, _, _, outcome) =
      handle_packet-tick sub send draw sent_at now s g h lt time in
    let given : reading sent_at (collect_data sub draw s).0 ≡ message =
      returned (send packet) (sym outcome ∙ gave) in
    let same : update_sensor_info now message g ≡ after =
      ap (λ m. update_sensor_info now m g) (sym given)
      ∙ ap (λ p. p.0) (ok-injective (sym delivered ∙ handled)) in
    let here : find id v.sensors ≡ some (told now id message g) =
      ap (find id) seen
      ∙ ap (λ t. find id t.sensors) (sym same)
      ∙ find-update_own now id message g (ap (λ m. m.header.sensor_id) (sym given) ∙ own) in
    (process_request-get show v request id text positive fits).0
    ∙ ap (λ o. ok (details_of show (v.seen id) id o)) here
