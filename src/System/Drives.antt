-- ===== src/System/Drives.antt =====
-- The threads of the demo, each led on by its own steps.
use smart_sensor_network.Prelude.{
  ℕ, zero, suc, ◌+◌, ◌≡◌, refl, sym, subst, ap, ◌∙◌, true, false, none, some, inl, inr, [], Bytes,
  arith, Bool-cases, Option-cases, if◌then◌else◌,
}
use smart_sensor_network.Node.{tick, udp_send, send_heartbeat}
use smart_sensor_network.Tcp.{views_at}
use smart_sensor_network.Tcp.Session.{Exchange}
use smart_sensor_network.Gateway.{empty_gateway}
use smart_sensor_network.Udp.{receive_packet}
use smart_sensor_network.System.World.{
  World, get_elem?, remove, keep_result, receive_at, receive_next, tick_sensor, tick_node,
  beat_sensor, beat_node,
}
use smart_sensor_network.System.Packets.{IsSent}
use smart_sensor_network.System.Deliveries.{receive_packet-Accepts}
use smart_sensor_network.System.Invariant.{IsWorld, get_elem?-All}
use smart_sensor_network.System.Script.{Thread}
use smart_sensor_network.System.State.{
  testing, working, of, System, Action, tick_next, beat_next, place, next_place, is_working,
}
use smart_sensor_network.System.Steps.{is_skipped, allowed, apply, fire, Reach, here, next}
use smart_sensor_network.System.Runs.{both, Reach-trans}

tick_node-thrown :
    (sub : ℕ → ℕ → ℕ) (k draw : ℕ) (w : World) → (tick_node sub k draw false w).thrown ≡ w.thrown
unfolding tick_node tick_sensor tick udp_send
tick_node-thrown sub k draw w = elim (Option-cases (get_elem? w.sensors k)) [
  | inl none_there ↦ rw none_there refl
  | inr (s, here_is) ↦ ap (λ o. (tick_sensor sub k draw false o w).thrown) here_is
]

pub beat_node-thrown : (k : ℕ) (w : World) → (beat_node k false w).thrown ≡ w.thrown
unfolding beat_node beat_sensor send_heartbeat udp_send
beat_node-thrown k w = elim (Option-cases (get_elem? w.sensors k)) [
  | inl none_there ↦ rw none_there refl
  | inr (s, here_is) ↦ ap (λ o. (beat_sensor false o w).thrown) here_is
]

-- No datagram of the demo makes the receiver throw.
pub receive_next-thrown : (i : ℕ) (w : World) → IsWorld w → (receive_next i w).thrown ≡ w.thrown
unfolding receive_next receive_packet
receive_next-thrown i w h = elim (Option-cases (get_elem? w.network i)) [
  | inl none_there ↦ rw none_there refl
  | inr (b, here_is) ↦
      let sent : IsSent b = get_elem?-All IsSent w.network i b h.sent here_is in
      let (g, logs, accepted, _) =
        receive_packet-Accepts w.clock b w.gateway h.time sent h.registry_ok in
      subst (λ o. (receive_at i o w).thrown ≡ w.thrown) (sym here_is)
        (subst (λ r. (keep_result r (record w { network = remove w.network i })).thrown ≡ w.thrown)
          (sym accepted) refl)
]

-- The client closes the connection.
abbrev pub hang_up : Exchange
hang_up = record { chunk = []; views = views_at 0 empty_gateway; writes = [] }

module _ (sub : ℕ → ℕ → ℕ) (show : ℕ → Bytes) where
  -- From `s` to `v` by steps in which nothing is thrown and `main` stands.
  pub record Gone (s v : System) : Type 0 where
    pub reach : Reach sub show s v
    pub quiet : v.world.thrown ≡ none
    pub stays : v.todo ≡ s.todo

  abbrev pub Leads : System → (System → Type 0) → Type 0
  Leads s P = (v : System) × Gone s v × P v

  pub Gone-trans : {s u v : System} → Gone s u → Gone u v → Gone s v
  Gone-trans g h = record {
    reach = Reach-trans sub show g.reach h.reach;
    quiet = h.quiet;
    stays = h.stays ∙ g.stays;
  }

  pub Gone-here : (s : System) → s.world.thrown ≡ none → Gone s s
  Gone-here s quiet = record { reach = here; quiet = quiet; stays = refl }

  pub fires :
      (a : Action) (s : System)
      → s.world.thrown ≡ none
      → allowed sub show a s ≡ true
      → fire sub show a s ≡ some (apply sub show a s)
  unfolding fire
  fires a s quiet possible =
      ap (λ b. if b then some (apply sub show a s) else none)
        (both s.world.thrown (allowed sub show a s) quiet possible)

  pub acts :
      (a : Action) (s : System)
      → s.world.thrown ≡ none
      → allowed sub show a s ≡ true
      → (apply sub show a s).world.thrown ≡ none
      → (apply sub show a s).todo ≡ s.todo
      → Gone s (apply sub show a s)
  acts a s quiet possible calm stays = record {
    reach = next here a (fires a s quiet possible);
    quiet = calm;
    stays = stays;
  }

  pub ticks :
      (k : ℕ) (s : System)
      → s.world.thrown ≡ none
      → s.phases.telemetry ≡ working k
      → (v : System) × Gone s v × (v.phases.telemetry ≡ next_place k)
  unfolding apply allowed
  ticks k s quiet at =
      let a : Action = tick_next 0 false in
      (
        apply sub show a s,
        acts a s quiet (rw at refl)
            (tick_node-thrown sub (place s.phases.telemetry) 0 s.world ∙ quiet) refl,
        ap (λ p. next_place (place p)) at,
      )

  pub beats :
      (k : ℕ) (s : System)
      → s.world.thrown ≡ none
      → s.phases.heartbeat ≡ working k
      → (v : System) × Gone s v × (v.phases.heartbeat ≡ next_place k)
  unfolding apply allowed
  beats k s quiet at =
      let a : Action = beat_next false in
      let j : ℕ = place s.phases.heartbeat in
      let calm : (if is_skipped j s then s.world else beat_node j false s.world).thrown ≡ none =
        elim (Bool-cases (is_skipped j s)) [
          | inl skips ↦
              ap (λ b. (if b then s.world else beat_node j false s.world).thrown) skips ∙ quiet
          | inr goes ↦
              ap (λ b. (if b then s.world else beat_node j false s.world).thrown) goes
              ∙ beat_node-thrown j s.world
              ∙ quiet
        ] in
      (
        apply sub show a s,
        acts a s quiet (ap is_working at) calm refl,
        ap (λ p. next_place (place p)) at,
      )

  -- A loop over the seven nodes comes to its end.
  pub seven :
      (t : Thread)
      → ((k : ℕ) (s : System)
          → s.world.thrown ≡ none
          → of t s.phases ≡ working k
          → (v : System) × Gone s v × (of t v.phases ≡ next_place k))
      → (n k : ℕ) (s : System) → k + n ≡ 6
      → s.world.thrown ≡ none
      → of t s.phases ≡ working k
      → Leads s (λ v. of t v.phases ≡ testing)
  seven t once zero k s e quiet at =
      let last : k ≡ 6 = omega arith in
      let (v, gone, moved) = once k s quiet at in (v, gone, moved ∙ ap next_place last)
  seven t once (suc n) k s e quiet at =
      let (u, gone, moved) = once k s quiet at in
      let on : next_place k ≡ working (k + 1) = ground arith in
      let (v, more, ends) = seven t once n (k + 1) u (omega arith) gone.quiet (moved ∙ on) in
      (v, Gone-trans gone more, ends)
