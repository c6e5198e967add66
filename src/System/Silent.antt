-- ===== src/System/Silent.antt =====
-- Sensor 3 in the demo: its heartbeats are those that `main` sends itself.
use smart_sensor_network.Prelude.{
  ℕ, ◌+◌, ◌≤◌, ◌<◌, ◌^◌, ◌≡◌, refl, ◌∙◌, subst, true, false, some, Bytes, arith,
}
use smart_sensor_network.Registry.{find}
use smart_sensor_network.Gateway.Invariant.{IsTime}
use smart_sensor_network.Tcp.Server.{Server}
use smart_sensor_network.Udp.{Receiver}
use smart_sensor_network.System.State.{System, Action, initial}
use smart_sensor_network.System.Steps.{fire, fire-eq-some, Reach, here, next}
use smart_sensor_network.System.Invariant.{IsWorld}
use smart_sensor_network.System.Reachable.{Reach-IsWorld, apply-IsWorld}
use smart_sensor_network.System.Heard.{beats, is_down, entry, load}
use smart_sensor_network.System.Still.{left, Still, apply-Still}

module _ (sub : ℕ → ℕ → ℕ) (show : ℕ → Bytes) (sub_lt : (a b : ℕ) → sub a b < 2 ^ 64) where
  record Quiet (s : System) : Type 0 where
    world_ok : IsWorld s.world
    off : s.sensor3_enabled ≡ false
    few : left s.todo + load s.world ≤ 1

  fire-Quiet :
      (a : Action) {s t : System}
      → fire sub show a s ≡ some t
      → Quiet s
      → Quiet t × (is_down (entry s.world) ≡ true → is_down (entry t.world) ≡ true)
  fire-Quiet a {s} {t} e h =
      let (_, possible, same) = fire-eq-some sub show a s e in
      let still : Still s t =
        subst (Still s) same (apply-Still sub show sub_lt a s possible h.off h.world_ok) in
      (
        record {
          world_ok =
              subst (λ v. IsWorld v.world) same
                (apply-IsWorld sub show sub_lt a s possible h.world_ok);
          off = still.disabled ∙ h.off;
          few = let less = still.total_le in let before = h.few in omega arith;
        },
        λ d. still.stays d (let before = h.few in omega arith),
      )

  Reach-Quiet :
      (receiver : Receiver) (server : Server) (clock : ℕ) {s : System}
      → IsTime clock
      → Reach sub show (initial receiver server clock) s
      → Quiet s
  unfolding beats find
  Reach-Quiet receiver server clock time here = record {
    world_ok = Reach-IsWorld sub show sub_lt receiver server clock time here;
    off = refl;
    few = omega arith;
  }
  Reach-Quiet receiver server clock time (next r a e) =
      (fire-Quiet a e (Reach-Quiet receiver server clock time r)).0

  stays_down :
      {s t : System}
      → Quiet s
      → is_down (entry s.world) ≡ true
      → Reach sub show s t
      → Quiet t × (is_down (entry t.world) ≡ true)
  stays_down h d here = (h, d)
  stays_down h d (next r a e) =
      let (before, down) = stays_down h d r in
      let (after, kept) = fire-Quiet a e before in (after, kept down)

  -- Once the gateway has sensor 3 OFFLINE in a state that the demo can come to, from a start at a time
  -- behind the epoch and within 64 bits and with differences of doubles that are patterns of 64 bits,
  -- it has it OFFLINE in every later state, whatever the schedule.
  pub Reach-is_down :
      (receiver : Receiver) (server : Server) (clock : ℕ) {s t : System}
      → IsTime clock
      → Reach sub show (initial receiver server clock) s
      → is_down (find 3 s.world.gateway.sensors) ≡ true
      → Reach sub show s t
      → is_down (find 3 t.world.gateway.sensors) ≡ true
  Reach-is_down receiver server clock time r d later =
      (stays_down (Reach-Quiet receiver server clock time r) d later).1
