-- ===== src/Tcp.antt =====
-- src/network/TcpServer.cpp: the monitoring server. `parseId` and `processRequest` on any request; the
-- session with a client is in the child Session.
pub mod Answers
pub mod Lines
pub mod Requests
pub mod Server
pub mod Session
use smart_sensor_network.Prelude.{
  ℕ, ◌+◌, Bool, true, false, ◌&&◌, ◌||◌, List, [], ◌∷◌, ◌++◌, Bytes, codes, length, drop, reverse,
  ltb, ◌==◌, if◌then◌else◌, Result, ok, throw, Exception, invalid_argument, out_of_range, ◌>>=◌,
}
use smart_sensor_network.Prelude.Decimal.{decimal}
use smart_sensor_network.Prelude.Int.{ℤ, pos, negsuc, stoi}
use smart_sensor_network.Gateway.{
  Gateway, Sensors, Logs, get_sensors, get_telemetry_packets_received,
  get_heartbeat_packets_received,
}
use smart_sensor_network.Monitor.{
  Moment, SystemStats, help, sensor_list, health_summary, stats, get_stats, sensor_details,
}

abbrev pub is_newline : ℕ → Bool
is_newline c = c == b'\n' || c == b'\r'

-- The loop of `pop_back`, on the request read from its back.
unfoldable pub pop_newlines : Bytes → Bytes
pop_newlines [] = []
pop_newlines (c ∷ s) = let rest = pop_newlines s in if is_newline c then rest else c ∷ s

unfoldable pub normalize : Bytes → Bytes
unfolding pop_newlines
normalize request = reverse (pop_newlines (reverse request))

-- `==` and `rfind(prefix, 0) == 0`.
unfoldable pub same_text : Bytes → Bytes → Bool
same_text [] [] = true
same_text (a ∷ s) (b ∷ t) = a == b && same_text s t
same_text _ _ = false

unfoldable pub starts_with : Bytes → Bytes → Bool
starts_with [] s = true
starts_with (a ∷ prefix) [] = false
starts_with (a ∷ prefix) (b ∷ s) = a == b && starts_with prefix s

abbrev pub prefix_length : ℕ
prefix_length = 4

-- `request.substr(prefixLength)`.
abbrev pub substr : Bytes → Result Bytes
substr request =
    if ltb (length request) prefix_length
    then throw (out_of_range (codes "basic_string::substr"))
    else ok (drop prefix_length request)

abbrev pub check_id : ℤ → Result ℕ
check_id (pos n) = if n == 0 then throw (invalid_argument (codes "Invalid sensor id")) else ok n
check_id (negsuc n) = throw (invalid_argument (codes "Invalid sensor id"))

unfoldable pub parse_id : Bytes → Result ℕ
parse_id request = do text ← substr request; id ← stoi text; check_id id

-- What the calls of the gateway in one request give, in the order of the calls: the size of the registry
-- for `get`, the registry that the report is made of, the one that is counted, the counters, and the
-- moments at which ages are asked for.
pub record Views : Type 0 where
  pub sized : Sensors
  pub sensors : Sensors
  pub counted : Sensors
  pub telemetry_packets : ℕ
  pub heartbeat_packets : ℕ
  pub seen : ℕ → Moment

-- The calls of a request that nothing comes between.
abbrev pub views_at : ℕ → Gateway → Views
views_at now g = record {
  sized = get_sensors g;
  sensors = get_sensors g;
  counted = get_sensors g;
  telemetry_packets = get_telemetry_packets_received g;
  heartbeat_packets = get_heartbeat_packets_received g;
  seen = λ id. record { gateway = g; now = now };
}

-- The new `lastCommand`, what is logged, and the response.
pub record Reply : Type 0 where
  pub last_command : Bytes
  pub logs : Logs
  pub response : Result Bytes

abbrev pub command_log : Bytes → Bytes
command_log req = codes "[TCP] Command: " ++ req

abbrev pub not_found_log : ℕ → Bytes
not_found_log id = codes "[TCP] Sensor " ++ (decimal id ++ codes " not found")

abbrev pub invalid_log : Bytes
invalid_log = codes "[TCP] Invalid sensor id"

abbrev pub unknown_log : Bytes → Bytes
unknown_log req = codes "[TCP] Unknown command: " ++ req

abbrev pub invalid_response : Bytes
invalid_response = codes "invalid sensor id\n\n"

abbrev pub unknown_response : Bytes
unknown_response = codes "unknown command\n\n"

abbrev pub get_prefix : Bytes
get_prefix = codes "get "

module _ (show : ℕ → Bytes) (v : Views) where
  -- The `try` block of `get` and its handler: the logs and the response.
  abbrev pub get_reply : Result ℕ → Logs × Bytes
  get_reply (ok id) = (
    if ltb (length v.sized) id then not_found_log id ∷ [] else [],
    sensor_details show (v.seen id) v.sensors id,
  )
  get_reply (throw e) = (invalid_log ∷ [], invalid_response)

  -- The chain of commands on the normalized request: what is logged after the command, and the response.
  unfoldable pub answer : Bytes → Logs × Result Bytes
  unfolding same_text starts_with parse_id
  answer req =
      if same_text req (codes "help")
      then ([], ok help)
      else if same_text req (codes "list")
      then ([], sensor_list v.seen v.sensors)
      else if same_text req (codes "health")
      then ([], ok (health_summary v.sensors v.counted))
      else if same_text req (codes "stats")
      then ([], ok (stats (get_stats v.sensors v.counted v.telemetry_packets v.heartbeat_packets)))
      else if starts_with get_prefix req
      then (let (logs, text) = get_reply (parse_id req) in (logs, ok text))
      else (unknown_log req ∷ [], ok unknown_response)

  unfoldable pub reply_to : Bytes → Reply
  reply_to req =
      let (logs, response) = answer req in
      record { last_command = req; logs = command_log req ∷ logs; response = response }

  unfoldable pub process_request : Bytes → Reply
  process_request request = reply_to (normalize request)

-- `getLastCommand`.
abbrev pub get_last_command : Bytes → Bytes
get_last_command [] = codes "None"
get_last_command (c ∷ s) = c ∷ s
