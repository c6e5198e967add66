-- ===== src/Tcp/Session.antt =====
-- `handleClient`: a session with one client.
-- `read` and `write` are system calls: what they return is part of the input.
use smart_sensor_network.Prelude.{
  ℕ, zero, suc, ◌-◌, ◌≤◌, ◌<◌, ◌≡◌, refl, Bool, true, false, List, [], ◌∷◌, ◌++◌, Bytes, codes,
  length, subst, take, drop, take-append-drop, append_assoc, append-nil, ap, sym, ◌∙◌, All,
  Bool-cases, inl, inr, ◌>>=◌, arith, ◌==◌, if◌then◌else◌, Result, ok,
}
use smart_sensor_network.Gateway.{Logs}
use smart_sensor_network.Tcp.{Views, Reply, process_request}
use smart_sensor_network.Tcp.Requests.{process_request_total}

abbrev pub send_failed_log : Bytes
send_failed_log = codes "[TCP] Failed to send response"

abbrev pub connected_log : Bytes
connected_log = codes "[TCP] Client connected"

abbrev pub disconnected_log : Bytes
disconnected_log = codes "[TCP] Client disconnected"

-- What a client has received of a response, and whether a `write` failed, or the writes that are given
-- ran out, where the program would go on writing.
pub data Sending : Type 0 where
  sent_all : Bytes → Sending
  failed : Bytes → Sending
  unfinished : Bytes → Sending

-- The loop `while (total < response.size())` on what is left of the response. Each number is what one
-- `write` returns, 0 for an error or a disconnect; it takes no more than it was given. A write to a closed
-- connection is such an error: the signal SIGPIPE, which by default ends the process, is left out.
unfoldable pub send_loop : Bytes → Bytes → List ℕ → Sending
send_loop got [] writes = sent_all got
send_loop got (c ∷ rest) [] = unfinished got
send_loop got (c ∷ rest) (n ∷ writes) =
    let go = send_loop (got ++ take n (c ∷ rest)) (drop n (c ∷ rest)) writes in
    if n == 0 then failed got else go

abbrev pub received : Sending → Bytes
received (sent_all s) = s
received (failed s) = s
received (unfinished s) = s

-- What is left behind what is received is a rest of the response.
send_loop-prefix :
    (got left : Bytes) (writes : List ℕ)
    → (rest : Bytes) × (received (send_loop got left writes) ++ rest ≡ got ++ left)
unfolding send_loop
send_loop-prefix got [] writes = ([], refl)
send_loop-prefix got (c ∷ left) [] = (c ∷ left, refl)
send_loop-prefix got (c ∷ left) (n ∷ writes) = elim (Bool-cases (n == 0)) [
  | inl error ↦ rw error (c ∷ left, refl)
  | inr some_sent ↦
      let (rest, e) = send_loop-prefix (got ++ take n (c ∷ left)) (drop n (c ∷ left)) writes in
      rw some_sent (
        rest,
        e
            ∙ append_assoc got (take n (c ∷ left)) (drop n (c ∷ left))
            ∙ ap (λ t. got ++ t) (take-append-drop n (c ∷ left)),
      )
]

-- However the writes go, the client has a prefix of the response.
send_loop_sound :
    (response : Bytes) (writes : List ℕ)
    → (rest : Bytes) × (received (send_loop [] response writes) ++ rest ≡ response)
send_loop_sound response writes = send_loop-prefix [] response writes

length-drop_le : (n : ℕ) (s : Bytes) → 0 < n → length (drop n s) ≤ length s - 1
length-drop_le zero s h = absurd (omega arith)
length-drop_le (suc n) [] h = omega arith
length-drop_le (suc zero) (c ∷ s) h = omega arith
length-drop_le (suc (suc n)) (c ∷ s) h = omega (arith, length-drop_le (suc n) s (omega arith))

send_loop-total :
    (got left : Bytes) (writes : List ℕ)
    → All (λ n. 0 < n) writes
    → length left ≤ length writes
    → send_loop got left writes ≡ sent_all (got ++ left)
unfolding send_loop
send_loop-total got [] writes h enough = ap sent_all (sym (append-nil got))
send_loop-total got (c ∷ left) [] h enough = absurd (omega arith)
send_loop-total got (c ∷ left) (n ∷ writes) h enough =
    let shorter = length-drop_le n (c ∷ left) h.0 in
    rw (ne-zero n h.0) (
      send_loop-total (got ++ take n (c ∷ left)) (drop n (c ∷ left)) writes h.1 (omega arith)
      ∙ ap sent_all (
          append_assoc got (take n (c ∷ left)) (drop n (c ∷ left))
          ∙ ap (λ t. got ++ t) (take-append-drop n (c ∷ left))))
  where
    ne-zero : (n : ℕ) → 0 < n → (n == 0) ≡ false
    ne-zero n h = ground arith

-- If every write makes progress, the loop ends within as many writes as the response has bytes, and the
-- client has the whole response.
pub send_loop_complete :
    (response : Bytes) (writes : List ℕ)
    → All (λ n. 0 < n) writes
    → length response ≤ length writes
    → send_loop [] response writes ≡ sent_all response
send_loop_complete response writes h enough = send_loop-total [] response writes h enough

-- One round of `handleClient`: what `read` returns, what the gateway shows, what the writes return.
pub record Exchange : Type 0 where
  pub chunk : Bytes
  pub views : Views
  pub writes : List ℕ

-- The last command, the logs, and the bytes that the client has received.
pub record Session : Type 0 where
  pub last_command : Bytes
  pub logs : Logs
  pub transcript : Bytes

-- The session after a reply was sent, and whether it goes on: a failed write ends it.
unfoldable pub after_send : Reply → Session → Sending → Session × Bool
after_send reply s (sent_all got) = (
  record {
    last_command = reply.last_command;
    logs = s.logs ++ reply.logs;
    transcript = s.transcript ++ got;
  },
  true,
)
after_send reply s (failed got) = (
  record {
    last_command = reply.last_command;
    logs = s.logs ++ (reply.logs ++ (send_failed_log ∷ []));
    transcript = s.transcript ++ got;
  },
  false,
)
after_send reply s (unfinished got) = (
  record {
    last_command = reply.last_command;
    logs = s.logs ++ reply.logs;
    transcript = s.transcript ++ got;
  },
  false,
)

unfoldable pub exchange : (ℕ → Bytes) → Exchange → Session → Result (Session × Bool)
unfolding after_send
exchange show x s =
    let reply = process_request show x.views x.chunk in
    reply.response >>= λ response. ok (after_send reply s (send_loop [] response x.writes))

-- The rounds up to the first empty chunk, which is an error or the client's end, or the first failed
-- write.
unfoldable pub handle_client : (ℕ → Bytes) → List Exchange → Session → Result Session
unfolding exchange
handle_client show [] s = ok s
handle_client show (x ∷ xs) s =
    if length x.chunk == 0
    then ok s
    else (exchange show x s >>= λ (t, more). if more then handle_client show xs t else ok t)

pub exchange_total :
    (show : ℕ → Bytes) (x : Exchange) (s : Session)
    → (r : Session × Bool) × (exchange show x s ≡ ok r)
unfolding exchange
exchange_total show x s =
    let reply = process_request show x.views x.chunk in
    let (text, e) = (process_request_total show x.views x.chunk).0 in
    (after_send reply s (send_loop [] text x.writes), rw e)

if-Total :
    (b : Bool) (x y : Result Session)
    → ((t : Session) × (x ≡ ok t))
    → ((t : Session) × (y ≡ ok t))
    → (t : Session) × ((if b then x else y) ≡ ok t)
if-Total true x y p q = p
if-Total false x y p q = q

-- Nothing that a client sends, and no failure of a read or a write, makes a session throw.
handle_client_total :
    (show : ℕ → Bytes) (xs : List Exchange) (s : Session)
    → (t : Session) × (handle_client show xs s ≡ ok t)
unfolding handle_client
handle_client_total show [] s = (s, refl)
handle_client_total show (x ∷ xs) s =
    let (r, e) = exchange_total show x s in
    if-Total (length x.chunk == 0) _ _ (s, refl)
      (subst
        (λ m.
          (t : Session) × ((m >>= λ (t', more). if more then handle_client show xs t' else ok t')
            ≡ ok t))
        (sym e) (if-Total r.1 _ _ (handle_client_total show xs r.0) (r.0, refl)))
