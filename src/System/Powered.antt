-- ===== src/System/Powered.antt =====
-- A service's flag is set only where it has a socket.
use smart_sensor_network.Prelude.{
  ℕ, ◌≡◌, refl, subst, Bool, true, false, List, [], ◌∷◌, Bytes, if◌then◌else◌,
}
use smart_sensor_network.Tcp.Server.{Server}
use smart_sensor_network.Udp.{Receiver}
use smart_sensor_network.System.Serving.{converse_once_cases}
use smart_sensor_network.System.Script.{Thread, udp_thread, tcp_thread, Statement, clear}
use smart_sensor_network.System.State.{
  PerThread, of, put, System, Action, proceed, open_thread, enter, accept_next, converse, initial,
}
use smart_sensor_network.System.Steps.{
  execute, perform, run_opening, run_entering, apply, fire-eq-some, Reach, here, next,
}
use smart_sensor_network.System.Live.{socket_of}
use smart_sensor_network.System.Ordered.{is_service, put-both}

abbrev IsPowered : PerThread Bool → Bool → Bool → Type 0
IsPowered running a b =
    (t : Thread) → is_service t ≡ true → of t running ≡ true → socket_of t a b ≡ true

pub record Powered (s : System) : Type 0 where
  pub powered : IsPowered s.running s.udp_socket s.tcp_socket

clear-IsPowered :
    (u : Thread) (running : PerThread Bool) (a b : Bool)
    → IsPowered running a b
    → IsPowered (put u false running) a b
clear-IsPowered u running a b h t =
    put-both (λ v f. is_service v ≡ true → f ≡ true → socket_of v a b ≡ true) t u false running
      (λ e f. cc) λ other. h t

set-IsPowered :
    (u : Thread) (running : PerThread Bool) (a b : Bool)
    → socket_of u a b ≡ true
    → IsPowered running a b
    → IsPowered (put u true running) a b
set-IsPowered u running a b on h t =
    put-both (λ v f. is_service v ≡ true → f ≡ true → socket_of v a b ≡ true) t u true running
      (λ e f. on) λ other. h t

perform-Powered :
    (failed : Bool) (todo : List Statement) (s : System)
    → Powered s
    → Powered (perform failed todo s)
unfolding execute
perform-Powered failed [] s h = h
perform-Powered failed (clear u ∷ rest) s h = record {
  powered = clear-IsPowered u s.running s.udp_socket s.tcp_socket h.powered;
}
perform-Powered failed (_ ∷ rest) s h = record { powered = h.powered }

if-Powered :
    (b : Bool) (s v : System) → (b ≡ true → Powered s) → Powered v → Powered (if b then s else v)
if-Powered true s v h k = h refl
if-Powered false s v h k = k

run_entering-Powered : (t : Thread) (s : System) → Powered s → Powered (run_entering t s)
unfolding run_entering
run_entering-Powered udp_thread s h =
    if-Powered s.udp_socket _ _
      (λ on. record {
        powered = set-IsPowered udp_thread s.running s.udp_socket s.tcp_socket on h.powered;
      })
      (record { powered = h.powered })
run_entering-Powered tcp_thread s h =
    if-Powered s.tcp_socket _ _
      (λ on. record {
        powered = set-IsPowered tcp_thread s.running s.udp_socket s.tcp_socket on h.powered;
      })
      (record { powered = h.powered })
run_entering-Powered _ s h = record { powered = h.powered }

run_opening-Powered : (t : Thread) (s : System) → Powered s → Powered (run_opening t s)
unfolding run_opening
run_opening-Powered udp_thread s h = record { powered = h.powered }
run_opening-Powered _ s h = record { powered = h.powered }

module _ (sub : ℕ → ℕ → ℕ) (show : ℕ → Bytes) where
  apply-Powered : (a : Action) (s : System) → Powered s → Powered (apply sub show a s)
  unfolding apply
  apply-Powered (proceed failed) s h = perform-Powered failed s.todo s h
  apply-Powered (open_thread t) s h = record { powered = (run_opening-Powered t s h).powered }
  apply-Powered (enter t) s h = run_entering-Powered t s h
  apply-Powered (accept_next true) s h = record { powered = h.powered }
  apply-Powered (accept_next false) s h = record { powered = h.powered }
  apply-Powered (converse x) s h =
      converse_once_cases Powered show x s (record { powered = h.powered })
        (λ t. record { powered = h.powered }) λ t. record { powered = h.powered }
  apply-Powered _ s h = record { powered = h.powered }

  initial-IsPowered :
      (receiver : Receiver) (server : Server) (clock : ℕ) (t : Thread)
      → let s = initial receiver server clock in
        is_service t ≡ true → of t s.running ≡ true → socket_of t s.udp_socket s.tcp_socket ≡ true
  initial-IsPowered receiver server clock udp_thread e f = cc
  initial-IsPowered receiver server clock _ e f = cc

  pub Reach-Powered :
      (receiver : Receiver) (server : Server) (clock : ℕ) {s : System}
      → Reach sub show (initial receiver server clock) s
      → Powered s
  Reach-Powered receiver server clock here = record {
    powered = initial-IsPowered receiver server clock;
  }
  Reach-Powered receiver server clock (next {t = u} r a e) =
      let (_, _, same) = fire-eq-some sub show a u e in
      subst Powered same (apply-Powered a u (Reach-Powered receiver server clock r))
