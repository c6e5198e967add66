-- ===== src/System/Serving.antt =====
-- The TCP server's thread in the demo: `accept`, and the rounds of `handleClient` one by one, between
-- which the other threads go on.
use smart_sensor_network.Prelude.{
  ℕ, sym, subst, Bool, true, false, some, [], ◌++◌, Bytes, length, ◌==◌, if◌then◌else◌, Result, ok,
  throw,
}
use smart_sensor_network.Tcp.Session.{Exchange, Session, exchange, exchange_total}
use smart_sensor_network.Tcp.Session.{connected_log, disconnected_log}
use smart_sensor_network.System.World.{note}
use smart_sensor_network.System.Script.{tcp_thread}
use smart_sensor_network.System.State.{System, put, testing, working}

-- `accept` finds a client, or nobody, or fails.
abbrev pub accept_client : Bool → System → System
accept_client true s = record s {
  world = note connected_log s.world;
  server = record s.server { client_connected = true };
  phases = put tcp_thread (working 1) s.phases;
}
accept_client false s = record s { phases = put tcp_thread testing s.phases }

abbrev pub end_client : System → System
end_client s = record s {
  world = note disconnected_log s.world;
  server = record s.server { client_connected = false };
  phases = put tcp_thread testing s.phases;
}

abbrev pub open_session : System → Session
open_session s = record { last_command = s.server.last_command; logs = []; transcript = [] }

abbrev pub keep_session : Session → System → System
keep_session t s = record s {
  world = record s.world { logs = s.world.logs ++ t.logs };
  server = record s.server { last_command = t.last_command };
}

abbrev pub keep_exchange : Result (Session × Bool) → System → System
keep_exchange (ok (t, more)) s = if more then keep_session t s else end_client (keep_session t s)
keep_exchange (throw e) s = record s { world = record s.world { thrown = some e } }

-- One round: what `read` returns, and what then becomes of it.
unfoldable pub converse_once : (ℕ → Bytes) → Exchange → System → System
converse_once show x s =
    if length x.chunk == 0 then end_client s else keep_exchange (exchange show x (open_session s)) s

-- What holds behind the end of a session, and behind a reply, holds behind a round.
pub converse_once_cases {κ} :
    (P : System → Type κ) (show : ℕ → Bytes) (x : Exchange) (s : System)
    → P (end_client s)
    → ((t : Session) → P (keep_session t s))
    → ((t : Session) → P (end_client (keep_session t s)))
    → P (converse_once show x s)
unfolding converse_once
converse_once_cases P show x s ended kept both =
    let ((t, more), e) = exchange_total show x (open_session s) in
    choose (length x.chunk == 0) _ _ ended
      (subst (λ r. P (keep_exchange r s)) (sym e) (choose more _ _ (kept t) (both t)))
  where
    choose : (b : Bool) (u v : System) → P u → P v → P (if b then u else v)
    choose true u v p q = p
    choose false u v p q = q
