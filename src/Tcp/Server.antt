-- ===== src/Tcp/Server.antt =====
-- The constructor of `TcpServer` and `run`: one client after the other, until `stop()`.
use mathlib.Core.Path.{◌≡◌, refl, ap, sym, ◌∙◌, subst}
use smart_sensor_network.Prelude.{
  ℕ, suc, Bool, true, false, Option, none, some, List, [], ◌∷◌, ◌++◌, All, append_assoc, append-nil,
  Bytes, codes, if◌then◌else◌, Result, ok, throw, runtime_error, ◌>>=◌,
}
use smart_sensor_network.Gateway.{Logs}
use smart_sensor_network.Tcp.Session.{
  Exchange, Session, handle_client, connected_log, disconnected_log,
}
use smart_sensor_network.Tcp.Lines.{IsInner, handle_client-Ends}

-- The socket, if there is one, the logs of the server, the last command, and whether a client is being
-- served.
pub record Server : Type 0 where
  pub server_socket : Option ℕ
  pub client_connected : Bool
  pub last_command : Bytes
  pub logs : Logs

-- The constructor, for the descriptor that `socket` gives, if any, and the success of `bind` and of
-- `listen`.
unfoldable pub new_server : Option ℕ → Bool → Bool → Result Server
new_server none bound listening = throw (runtime_error (codes "Failed to create TCP socket"))
new_server (some fd) bound listening = ok (record {
  server_socket = if bound then (if listening then some fd else none) else none;
  client_connected = false;
  last_command = [];
  logs = [];
})

-- `isClientConnected`.
abbrev pub is_client_connected : Server → Bool
is_client_connected s = s.client_connected

-- What `accept` finds: nobody yet, an error, or a client with what the session then meets.
pub data Accepted : Type 0 where
  nobody accept_failed : Accepted
  client : List Exchange → Accepted

abbrev pub not_initialized_log : Bytes
not_initialized_log = codes "[TCP] Server not initialized"

abbrev pub server_started_log : Bytes
server_started_log = codes "[TCP] Server started"

abbrev pub connect : Server → Server
connect s = record s { client_connected = true; logs = s.logs ++ (connected_log ∷ []) }

abbrev pub session_of : Server → Session
session_of s = record { last_command = s.last_command; logs = s.logs; transcript = [] }

-- The server after the session.
abbrev pub disconnect : Server → Session → Server
disconnect s t = record s {
  client_connected = false;
  last_command = t.last_command;
  logs = t.logs ++ (disconnected_log ∷ []);
}

unfoldable pub serve : (ℕ → Bytes) → Accepted → Server → Result Server
serve show nobody s = ok s
serve show accept_failed s = ok s
serve show (client xs) s = do
  t ← handle_client show xs (session_of (connect s))
  ok (disconnect (connect s) t)

-- The rounds of the loop until `stop()`.
unfoldable pub serve_all : (ℕ → Bytes) → List Accepted → Server → Result Server
unfolding serve
serve_all show [] s = ok s
serve_all show (a ∷ as') s = do t ← serve show a s; serve_all show as' t

unfoldable pub run_with : (ℕ → Bytes) → Option ℕ → List Accepted → Server → Result Server
unfolding serve_all
run_with show none accepts s = ok (record s { logs = s.logs ++ (not_initialized_log ∷ []) })
run_with show (some fd) accepts s =
    serve_all show accepts (record s { logs = s.logs ++ (server_started_log ∷ []) })

unfoldable pub run_server : (ℕ → Bytes) → List Accepted → Server → Result Server
unfolding run_with
run_server show accepts s = run_with show s.server_socket accepts s

-- The logs of a number of sessions, one after the other: in each, the two lines of a client's coming and
-- going stand at its ends and nowhere between.
pub data Sessions : ℕ → Logs → Type 0 where
  no_sessions : Sessions 0 []
  session :
      (k : ℕ) (mid rest : Logs)
      → All IsInner mid
      → Sessions k rest
      → Sessions (suc k) (connected_log ∷ (mid ++ (disconnected_log ∷ rest)))

abbrev pub count_clients : List Accepted → ℕ
count_clients [] = 0
count_clients (nobody ∷ as') = count_clients as'
count_clients (accept_failed ∷ as') = count_clients as'
count_clients (client xs ∷ as') = suc (count_clients as')

-- A server that serves nobody, behind the logs of so many sessions.
abbrev pub Served : Logs → ℕ → Result Server → Type 0
Served l k r =
    (t : Server) × (more : Logs) × (r ≡ ok t)
    × (is_client_connected t ≡ false)
    × (t.logs ≡ l ++ more)
    × Sessions k more

serve_all-Served :
    (show : ℕ → Bytes) (as' : List Accepted) (s : Server)
    → s.client_connected ≡ false
    → Served s.logs (count_clients as') (serve_all show as' s)
unfolding serve_all
serve_all-Served show [] s idle = (s, [], refl, idle, sym (append-nil s.logs), no_sessions)
serve_all-Served show (nobody ∷ as') s idle = serve_all-Served show as' s idle
serve_all-Served show (accept_failed ∷ as') s idle = serve_all-Served show as' s idle
serve_all-Served show (client xs ∷ as') s idle =
    let (t, e, (mid, grown, inner)) = handle_client-Ends show xs (session_of (connect s)) in
    let (u, more, f, clear, logs, sessions) =
      serve_all-Served show as' (disconnect (connect s) t) refl in
    (
      u,
      connected_log ∷ (mid ++ (disconnected_log ∷ more)),
      rw (e, f) refl,
      clear,
      logs ∙ ap (λ l. (l ++ (disconnected_log ∷ [])) ++ more) grown ∙ simp append_assoc,
      session (count_clients as') mid more inner sessions,
    )

-- A server with a socket that serves nobody: whatever `accept` finds, whatever the clients send and
-- whichever reads and writes return an error, `run` throws nothing and ends with nobody served; behind
-- the line of its start the logs are those of as many sessions as clients came, each with the line of
-- its client's coming first, that of its going last, and neither of the two in between.
pub run_server_sessions :
    (show : ℕ → Bytes) (fd : ℕ) (accepts : List Accepted) (s : Server)
    → s.server_socket ≡ some fd
    → s.client_connected ≡ false
    → Served
        (s.logs ++ (server_started_log ∷ []))
        (count_clients accepts)
        (run_server show accepts s)
unfolding run_server run_with
run_server_sessions show fd accepts s socket idle =
    subst
      (λ o.
        Served (s.logs ++ (server_started_log ∷ [])) (count_clients accepts)
          (run_with show o accepts s))
      (sym socket)
      (serve_all-Served show accepts (record s { logs = s.logs ++ (server_started_log ∷ []) }) idle)
