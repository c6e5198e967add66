-- ===== src/Tcp/Requests.antt =====
-- What the server answers.
use mathlib.Core.List.{reverse-append, reverse-cons}
use smart_sensor_network.Prelude.{
  ℕ, ◌<◌, ◌≤◌, ◌≡◌, refl, ap, ◌∙◌, Bool, true, false, some, List, [], ◌∷◌, ◌++◌, Bytes, codes,
  length, reverse, All, All-append, arith, ltb, ge→ltb, lt→ltb, if◌then◌else◌, Result, ok, throw,
  ◌>>=◌, Exception,
}
use smart_sensor_network.Prelude.Decimal.{decimal}
use smart_sensor_network.Prelude.Int.{stoi, int_max}
use smart_sensor_network.Prelude.RoundTrip.{stoi-decimal}
use smart_sensor_network.Registry.{find}
use smart_sensor_network.Gateway.{SensorInfo, Logs}
use smart_sensor_network.Monitor.{sensor_details, details, details_of}
use smart_sensor_network.Monitor.Order.{sensor_list_total}
use smart_sensor_network.Tcp.{
  is_newline, pop_newlines, normalize, same_text, starts_with, get_prefix, parse_id, Views,
  get_reply, check_id, answer, reply_to, process_request, command_log, not_found_log, invalid_log,
  invalid_response,
}

pop_newlines-append :
    (s t : Bytes) → All (λ c. is_newline c ≡ true) s → pop_newlines (s ++ t) ≡ pop_newlines t
unfolding pop_newlines
pop_newlines-append [] t h = refl
pop_newlines-append (c ∷ s) t h = rw h.0 (pop_newlines-append s t h.1)

All-reverse : (P : ℕ → Type 0) (s : Bytes) → All P s → All P (reverse s)
All-reverse P [] h = tt
All-reverse P (c ∷ s) h =
    rw (reverse-cons c s) (All-append P (reverse s) (c ∷ []) (All-reverse P s h.1) (h.0, tt))

-- Newlines and carriage returns behind a request change nothing of the reply.
process_request-newlines :
    (show : ℕ → Bytes) (v : Views) (request ending : Bytes)
    → All (λ c. is_newline c ≡ true) ending
    → process_request show v (request ++ ending) ≡ process_request show v request
unfolding process_request normalize
process_request-newlines show v request ending h = ap (reply_to show v) (
    ap (λ s. reverse (pop_newlines s)) (reverse-append request ending)
    ∙ ap reverse (
        pop_newlines-append (reverse ending) (reverse request)
          (All-reverse (λ c. is_newline c ≡ true) ending h)))

parse_id-get : (s : Bytes) → parse_id (get_prefix ++ s) ≡ (stoi s >>= check_id)
unfolding parse_id
parse_id-get s = rw (ge→ltb (length (get_prefix ++ s)) 4 (omega arith))

parse_id-decimal : (id : ℕ) → 0 < id → id ≤ int_max → parse_id (get_prefix ++ decimal id) ≡ ok id
parse_id-decimal id positive fits =
    parse_id-get (decimal id) ∙ ap (λ r. r >>= check_id) (stoi-decimal id fits) ∙ ground arith

answer-get :
    (show : ℕ → Bytes) (v : Views) (s : Bytes)
    → let r = get_reply show v (parse_id (get_prefix ++ s)) in
      answer show v (get_prefix ++ s) ≡ (r.0, ok r.1)
unfolding answer
answer-get show v s = refl

-- `get` with the decimal digits of a positive `int` answers with the details of that sensor, or that it
-- is not found, and logs the command; it logs that the sensor is not found exactly when the
-- id is larger than the number of sensors.
pub process_request-get :
    (show : ℕ → Bytes) (v : Views) (request : Bytes) (id : ℕ)
    → normalize request ≡ get_prefix ++ decimal id
    → 0 < id
    → id ≤ int_max
    → let reply = process_request show v request in
      (reply.response ≡ ok (sensor_details show (v.seen id) v.sensors id))
      × (reply.logs
          ≡ command_log (get_prefix ++ decimal id)
            ∷ (if ltb (length v.sized) id then not_found_log id ∷ [] else []))
unfolding process_request reply_to
process_request-get show v request id same positive fits =
    rw (same, answer-get show v (decimal id), parse_id-decimal id positive fits) (refl, refl)

-- The log contradicts the answer: to a request that normalizes to `get` and the decimal digits of the id of a
-- registered sensor, where the id is a positive `int` and larger than the number of sensors, the
-- details are sent, and the log says after the command that the sensor is not found.
pub process_request-get_misreported :
    (show : ℕ → Bytes) (v : Views) (request : Bytes) (id : ℕ) (info : SensorInfo)
    → normalize request ≡ get_prefix ++ decimal id
    → 0 < id
    → id ≤ int_max
    → find id v.sensors ≡ some info
    → length v.sized < id
    → let reply = process_request show v request in
      (reply.response ≡ ok (details show (v.seen id) id info))
      × (reply.logs ≡ command_log (get_prefix ++ decimal id) ∷ not_found_log id ∷ [])
unfolding sensor_details
process_request-get_misreported show v request id info same positive fits here large =
    let (text, logged) = process_request-get show v request id same positive fits in
    (
      text ∙ ap (λ o. ok (details_of show (v.seen id) id o)) here,
      logged
          ∙ ap
              (λ b.
                command_log (get_prefix ++ decimal id) ∷ (if b then not_found_log id ∷ [] else []))
              (lt→ltb _ _ large),
    )

-- `get` with a text that is no positive `int` in front is refused, and that is logged.
process_request-invalid :
    (show : ℕ → Bytes) (v : Views) (request text : Bytes) (e : Exception)
    → normalize request ≡ get_prefix ++ text
    → (stoi text >>= check_id) ≡ throw e
    → let reply = process_request show v request in
      (reply.response ≡ ok invalid_response)
      × (reply.logs ≡ command_log (get_prefix ++ text) ∷ invalid_log ∷ [])
unfolding process_request reply_to
process_request-invalid show v request text e same thrown =
    rw (same, answer-get show v text, parse_id-get text, thrown) (refl, refl)

-- A reply that is a text.
abbrev Answers : Logs × Result Bytes → Type 0
Answers r = (text : Bytes) × (r.1 ≡ ok text)

if-Answers :
    (b : Bool) (x y : Logs × Result Bytes) → Answers x → Answers y → Answers (if b then x else y)
if-Answers true x y p q = p
if-Answers false x y p q = q

answer_total : (show : ℕ → Bytes) (v : Views) (req : Bytes) → Answers (answer show v req)
unfolding answer
answer_total show v req =
    if-Answers (same_text req (codes "help")) _ _ (_, refl)
      (if-Answers (same_text req (codes "list")) _ _ (sensor_list_total v.seen v.sensors) (
        if-Answers (same_text req (codes "health")) _ _ (_, refl)
          (if-Answers (same_text req (codes "stats")) _ _ (_, refl)
            (if-Answers (starts_with get_prefix req) _ _ (_, refl) (_, refl)))))

-- Every request is answered with a text: no exception leaves `processRequest`. The normalized request is
-- kept as the last command, and logged first.
pub process_request_total :
    (show : ℕ → Bytes) (v : Views) (request : Bytes)
    → let reply = process_request show v request in
      ((text : Bytes) × (reply.response ≡ ok text))
      × (reply.last_command ≡ normalize request)
      × ((more : List Bytes) × (reply.logs ≡ command_log (normalize request) ∷ more))
unfolding process_request reply_to
process_request_total show v request =
    (answer_total show v (normalize request), refl, ((answer show v (normalize request)).0, refl))
