-- ===== src/System/Receives.antt =====
-- The receiver's rounds in the demo, against its loop as a whole.
use smart_sensor_network.Prelude.{
  ◌&&◌, ℕ, ◌≡◌, refl, sym, ap, ◌∙◌, subst, true, none, some, List, [], ◌∷◌, ◌++◌, append_assoc,
  append-nil, map, Bytes, if◌then◌else◌, Result, ok, throw, Exception, ◌>>=◌,
}
use smart_sensor_network.Gateway.{Gateway, Logs}
use smart_sensor_network.Udp.{datagram, receive_packet, receive_all}
use smart_sensor_network.System.World.{get_elem?, keep_result, receive_at, receive_next}
use smart_sensor_network.System.Script.{udp_thread}
use smart_sensor_network.System.State.{System, Action, test, receive, put, testing}
use smart_sensor_network.System.Steps.{is_none, allowed, apply, fire}
use smart_sensor_network.System.Runs.{go, or_stay, go-apply, go_nil}

-- A round of the loop for each datagram under way, in their order.
abbrev take_rounds : List Bytes → List Action
take_rounds [] = []
take_rounds (b ∷ bs) = test udp_thread ∷ receive 0 ∷ take_rounds bs

-- What the loop came to, from the state `s`.
abbrev Received : Result (Gateway × Logs) → System → System → Type 0
Received (ok (g, more)) s v =
    (v.world ≡ record s.world { network = []; gateway = g; logs = s.world.logs ++ more })
    × (v.phases.udp ≡ testing)
Received (throw e) s v = v.world.thrown ≡ some e

-- The receiver is at the test of its flag, which is set, in a process that goes on.
abbrev IsReceiving : System → Type 0
IsReceiving s = (s.world.thrown ≡ none) × (s.running.udp ≡ true) × (s.phases.udp ≡ testing)

module _ (sub : ℕ → ℕ → ℕ) (show : ℕ → Bytes) where
  go-thrown :
      (actions : List Action) (s : System) {e : Exception}
      → s.world.thrown ≡ some e
      → go sub show actions s ≡ s
  unfolding go fire
  go-thrown [] s h = refl
  go-thrown (a ∷ as') s h =
      let stays : or_stay sub show (fire sub show a s) s ≡ s =
        ap
          (λ o.
            or_stay sub show
              (if is_none o && allowed sub show a s then some (apply sub show a s) else none) s)
          h in
      ap (go sub show as') stays ∙ go-thrown as' s h

  -- A state behind one round.
  abbrev behind : Result (Gateway × Logs) → List Bytes → System → System
  behind r bs s = record s {
    world = keep_result r (record s.world { network = bs });
    phases = put udp_thread testing s.phases;
  }

  one_round :
      (b : Bytes) (bs : List Bytes) (actions : List Action) (s : System)
      → s.world.network ≡ b ∷ bs
      → s.world.thrown ≡ none
      → s.running.udp ≡ true
      → s.phases.udp ≡ testing
      → go sub show (test udp_thread ∷ receive 0 ∷ actions) s
        ≡ go sub show actions
            (behind (receive_packet (datagram s.world.clock b) s.world.gateway) bs s)
  unfolding allowed apply receive_next receive_at
  one_round b bs actions s net quiet set at =
      let s₁ : System = apply sub show (test udp_thread) s in
      go-apply sub show (test udp_thread) (receive 0 ∷ actions) s quiet (rw at refl)
      ∙ go-apply sub show (receive 0) actions s₁ quiet (rw set refl)
      ∙ ap
          (λ n. go sub show actions (record s {
            world = receive_at 0 (get_elem? n 0) (record s.world { network = n });
            phases = put udp_thread testing s.phases;
          }))
          net

  further :
      (l : Logs) (m : Result (Gateway × Logs)) (g : Gateway) (bs : List Bytes) (s v : System)
      → Received m (behind (ok (g, l)) bs s) v
      → Received (m >>= λ (g', more). ok (g', l ++ more)) s v
  further l (throw e) g bs s v h = h
  further l (ok (g', more)) g bs s v (world, at) = (
    world
        ∙ ap (λ logs. record s.world { network = []; gateway = g'; logs = logs })
            (append_assoc s.world.logs l more),
    at,
  )

  abbrev Takes : List Bytes → Type 0
  Takes bs =
      (s : System)
      → s.world.network ≡ bs
      → IsReceiving s
      → Received (receive_all (map (datagram s.world.clock) bs) s.world.gateway) s
          (go sub show (take_rounds bs) s)

  after_round :
      (r : Result (Gateway × Logs)) (bs : List Bytes) (s : System)
      → IsReceiving s
      → Takes bs
      → Received
          (r >>= λ (g, l).
            receive_all (map (datagram s.world.clock) bs) g >>= λ (g', more). ok (g', l ++ more))
          s
          (go sub show (take_rounds bs) (behind r bs s))
  after_round (ok (g, l)) bs s (quiet, set, at) rest =
      further l (receive_all (map (datagram s.world.clock) bs) g) g bs s
        (go sub show (take_rounds bs) (behind (ok (g, l)) bs s))
        (rest (behind (ok (g, l)) bs s) refl (quiet, set, refl))
  after_round (throw e) bs s receiving rest =
      ap (λ v. v.world.thrown) (go-thrown (take_rounds bs) (behind (throw e) bs s) refl)

  takes : (bs : List Bytes) → Takes bs
  unfolding receive_all
  takes [] s net (quiet, set, at) = (
    ap (λ v. v.world) (go_nil sub show s)
        ∙ (let longer : s.world.logs ≡ s.world.logs ++ [] = sym (append-nil s.world.logs) in
            λ i. record s.world { network = net i; logs = longer i }),
    ap (λ v. v.phases.udp) (go_nil sub show s) ∙ at,
  )
  takes (b ∷ bs) s net (quiet, set, at) =
      let r : Result (Gateway × Logs) = receive_packet (datagram s.world.clock b) s.world.gateway in
      subst
        (Received
          (r >>= λ (g, l).
            receive_all (map (datagram s.world.clock) bs) g >>= λ (g', more). ok (g', l ++ more))
          s)
        (sym (one_round b bs (take_rounds bs) s net quiet set at))
        (after_round r bs s (quiet, set, at) (takes bs))

  -- The receiver's thread by itself: from any state in which no exception was thrown, the receiver is
  -- at the test of its flag and the flag is set, a round for each datagram under way, in their order
  -- and with the clock standing, does what the loop does on these arrivals: the gateway and the new
  -- logs are the same, nothing is under way and the thread is back at the test; or the same exception
  -- is thrown.
  go-receive_all :
      (s : System)
      → IsReceiving s
      → Received
          (receive_all (map (datagram s.world.clock) s.world.network) s.world.gateway)
          s
          (go sub show (take_rounds s.world.network) s)
  go-receive_all s receiving = takes s.world.network s refl receiving
