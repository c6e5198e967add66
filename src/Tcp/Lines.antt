-- ===== src/Tcp/Lines.antt =====
-- What a session logs, beside the lines of its client's coming and going.
use smart_sensor_network.Prelude.{
  ℕ, ◌+◌, ◌*◌, ◌≡◌, ◌≢◌, refl, ap, sym, ◌∙◌, subst, Bool, true, false, List, [], ◌∷◌, ◌++◌,
  append_assoc, append-nil, All, All-append, Bytes, codes, length, ltb, ◌==◌, if◌then◌else◌, Result,
  ok, throw, arith, ◌>>=◌,
}
use smart_sensor_network.Gateway.{Logs}
use smart_sensor_network.Tcp.{
  Reply, Views, process_request, answer, reply_to, get_reply, parse_id, normalize, command_log,
  not_found_log, invalid_log, unknown_log, same_text, starts_with, get_prefix,
}
use smart_sensor_network.Tcp.Requests.{process_request_total}
use smart_sensor_network.Tcp.Session.{
  Exchange, Session, exchange, after_send, Sending, sent_all, failed, unfinished, send_loop,
  handle_client, send_failed_log, connected_log, disconnected_log,
}

-- Neither the line of a client's coming nor that of its going.
abbrev pub IsInner : Bytes → Type 0
IsInner l = (l ≢ connected_log) × (l ≢ disconnected_log)

-- The first two characters behind "[TCP] ".
abbrev mark : Bytes → ℕ
mark (_ ∷ _ ∷ _ ∷ _ ∷ _ ∷ _ ∷ a ∷ b ∷ _) = 256 * a + b
mark _ = 0

other-IsInner : (l : Bytes) → mark l ≢ mark connected_log → IsInner l
other-IsInner l h = (λ e. h (ap mark e), λ e. h (ap mark e))

if-All : (b : Bool) (x y : Logs) → All IsInner x → All IsInner y → All IsInner (if b then x else y)
if-All true x y p q = p
if-All false x y p q = q

get_reply-IsInner :
    (show : ℕ → Bytes) (v : Views) (r : Result ℕ) → All IsInner (get_reply show v r).0
get_reply-IsInner show v (ok id) =
    if-All (ltb (length v.sized) id) (not_found_log id ∷ []) []
      (other-IsInner (not_found_log id) (omega arith), tt) tt
get_reply-IsInner show v (throw e) = (other-IsInner invalid_log (omega arith), tt)

-- The logs of an answer.
abbrev Inner : Logs × Result Bytes → Type 0
Inner r = All IsInner r.0

if-Inner : (b : Bool) (x y : Logs × Result Bytes) → Inner x → Inner y → Inner (if b then x else y)
if-Inner true x y p q = p
if-Inner false x y p q = q

answer-Inner : (show : ℕ → Bytes) (v : Views) (req : Bytes) → Inner (answer show v req)
unfolding answer
answer-Inner show v req = if-Inner (same_text req (codes "help")) _ _ tt (
    if-Inner (same_text req (codes "list")) _ _ tt (
      if-Inner (same_text req (codes "health")) _ _ tt (
        if-Inner (same_text req (codes "stats")) _ _ tt (
          if-Inner (starts_with get_prefix req) _ _ (get_reply-IsInner show v (parse_id req))
            (other-IsInner (unknown_log req) (omega arith), tt)))))

process_request-IsInner :
    (show : ℕ → Bytes) (v : Views) (request : Bytes)
    → All IsInner (process_request show v request).logs
unfolding process_request reply_to
process_request-IsInner show v request = (
  other-IsInner (command_log (normalize request)) (omega arith),
  answer-Inner show v (normalize request),
)

-- The second logs are the first and more behind them, none of them of a client's coming or going.
abbrev Extends : Logs → Logs → Type 0
Extends l m = (more : Logs) × (m ≡ l ++ more) × All IsInner more

Extends-refl : (l : Logs) → Extends l l
Extends-refl l = ([], sym (append-nil l), tt)

Extends-trans : (l m n : Logs) → Extends l m → Extends m n → Extends l n
Extends-trans l m n (a, p, inner) (b, q, inner') =
    (a ++ b, q ∙ ap (λ t. t ++ b) p ∙ append_assoc l a b, All-append IsInner a b inner inner')

-- What a session makes: some end of it, behind whose start the logs only grew.
abbrev Ends : Session → Result Session → Type 0
Ends s r = (t : Session) × (r ≡ ok t) × Extends s.logs t.logs

after_send-Extends :
    (reply : Reply) (s : Session) (sent : Sending)
    → All IsInner reply.logs
    → Extends s.logs (after_send reply s sent).0.logs
unfolding after_send
after_send-Extends reply s (sent_all got) inner = (reply.logs, refl, inner)
after_send-Extends reply s (failed got) inner = (
  reply.logs ++ (send_failed_log ∷ []),
  refl,
  All-append IsInner reply.logs (send_failed_log ∷ []) inner
      (other-IsInner send_failed_log (omega arith), tt),
)
after_send-Extends reply s (unfinished got) inner = (reply.logs, refl, inner)

exchange-Extends :
    (show : ℕ → Bytes) (x : Exchange) (s : Session)
    → (r : Session × Bool) × (exchange show x s ≡ ok r) × Extends s.logs r.0.logs
unfolding exchange
exchange-Extends show x s =
    let reply = process_request show x.views x.chunk in
    let (text, e) = (process_request_total show x.views x.chunk).0 in
    let sent = send_loop [] text x.writes in
    (
      after_send reply s sent,
      rw e refl,
      after_send-Extends reply s sent (process_request-IsInner show x.views x.chunk),
    )

if-Ends :
    (b : Bool) (s : Session) (x y : Result Session)
    → Ends s x
    → Ends s y
    → Ends s (if b then x else y)
if-Ends true s x y p q = p
if-Ends false s x y p q = q

pub handle_client-Ends :
    (show : ℕ → Bytes) (xs : List Exchange) (s : Session) → Ends s (handle_client show xs s)
unfolding handle_client
handle_client-Ends show [] s = (s, refl, Extends-refl s.logs)
handle_client-Ends show (x ∷ xs) s =
    let (r, e, grown) = exchange-Extends show x s in
    let (t, f, later) = handle_client-Ends show xs r.0 in
    if-Ends (length x.chunk == 0) s _ _ (s, refl, Extends-refl s.logs)
      (subst (λ m. Ends s (m >>= λ (t', more). if more then handle_client show xs t' else ok t'))
        (sym e)
        (if-Ends r.1 s _ _ (t, f, Extends-trans s.logs r.0.logs t.logs grown later)
          (r.0, refl, grown)))
