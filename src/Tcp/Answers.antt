-- ===== src/Tcp/Answers.antt =====
-- What a client receives in a session, and what the session logs.
use smart_sensor_network.Prelude.{
  ℕ, ◌<◌, ◌≤◌, ◌≡◌, refl, ap, sym, ◌∙◌, subst, Bool, true, false, List, [], ◌∷◌, ◌++◌, append_assoc,
  append-nil, All, Bytes, length, ◌==◌, if◌then◌else◌, Result, ok, throw,
}
use smart_sensor_network.Gateway.{Logs}
use smart_sensor_network.Tcp.{process_request, normalize}
use smart_sensor_network.Tcp.Requests.{process_request_total}
use smart_sensor_network.Tcp.Session.{
  Exchange, Session, exchange, after_send, send_loop, send_loop_complete, handle_client, sent_all,
}

abbrev text_of : Result Bytes → Bytes
text_of (ok text) = text
text_of (throw e) = []

module _ (show : ℕ → Bytes) where
  -- The response to an exchange's chunk.
  abbrev pub response_to : Exchange → Bytes
  response_to x = text_of (process_request show x.views x.chunk).response

  -- Every write makes progress, and there are as many as the response has bytes.
  abbrev pub IsSent : Exchange → Type 0
  IsSent x = All (λ n. 0 < n) x.writes × (length (response_to x) ≤ length x.writes)

  -- The exchanges up to the first empty chunk.
  abbrev pub heard : List Exchange → List Exchange
  heard [] = []
  heard (x ∷ xs) = if length x.chunk == 0 then [] else x ∷ heard xs

  -- Their responses, one behind the other; their logs; and the last command, which is `old` if there is
  -- none.
  abbrev pub responses : List Exchange → Bytes
  responses [] = []
  responses (x ∷ xs) = response_to x ++ responses xs

  abbrev pub logged : List Exchange → Logs
  logged [] = []
  logged (x ∷ xs) = (process_request show x.views x.chunk).logs ++ logged xs

  abbrev pub last_request : Bytes → List Exchange → Bytes
  last_request old [] = old
  last_request old (x ∷ xs) = last_request (normalize x.chunk) xs

  abbrev Answered : Session → List Exchange → Result Session → Type 0
  Answered s xs r =
      (t : Session) × (r ≡ ok t)
      × (t.transcript ≡ s.transcript ++ responses xs)
      × (t.logs ≡ s.logs ++ logged xs)
      × (t.last_command ≡ last_request s.last_command xs)

  -- The session behind an exchange whose response is sent.
  abbrev answered : Exchange → Session → Session
  answered x s = record {
    last_command = normalize x.chunk;
    logs = s.logs ++ (process_request show x.views x.chunk).logs;
    transcript = s.transcript ++ response_to x;
  }

  exchange-answered :
      (x : Exchange) (s : Session) → IsSent x → exchange show x s ≡ ok (answered x s, true)
  unfolding exchange after_send
  exchange-answered x s (progress, enough) =
      let reply = process_request show x.views x.chunk in
      let ((text, e), command, _) = process_request_total show x.views x.chunk in
      let whole : response_to x ≡ text = ap text_of e in
      let sent : send_loop [] text x.writes ≡ sent_all text =
        send_loop_complete text x.writes progress
          (subst (λ t. length t ≤ length x.writes) whole enough) in
      rw (e, sent, command) refl

  if-Answered :
      (b : Bool) (s : Session) (x : Exchange) (xs : List Exchange) (y : Result Session)
      → (All IsSent (x ∷ xs) → Answered s (x ∷ xs) y)
      → All IsSent (if b then [] else x ∷ xs)
      → Answered s (if b then [] else x ∷ xs) (if b then ok s else y)
  if-Answered true s x xs y f h = (s, refl, sym (append-nil _), sym (append-nil _), refl)
  if-Answered false s x xs y f h = f h

  -- If for each chunk up to the first empty one every write makes progress, and there are as many writes as
  -- its response has bytes, then a session throws nothing, the client has received the responses to
  -- these chunks, whole and in their order, the logs are those of the same requests in the same order,
  -- and the last command is the last of them, normalized, or the old one if there is none.
  pub handle_client-responses :
      (xs : List Exchange) (s : Session)
      → All IsSent (heard xs)
      → (t : Session) × (handle_client show xs s ≡ ok t)
        × (t.transcript ≡ s.transcript ++ responses (heard xs))
        × (t.logs ≡ s.logs ++ logged (heard xs))
        × (t.last_command ≡ last_request s.last_command (heard xs))
  unfolding handle_client
  handle_client-responses [] s h = (s, refl, sym (append-nil _), sym (append-nil _), refl)
  handle_client-responses (x ∷ xs) s h =
      if-Answered (length x.chunk == 0) s x (heard xs) _
        (λ (sent, more).
          let (t, e, text, logs, last) = handle_client-responses xs (answered x s) more in
          (
            t,
            rw (exchange-answered x s sent) e,
            text ∙ append_assoc s.transcript (response_to x) (responses (heard xs)),
            logs ∙ append_assoc s.logs _ (logged (heard xs)),
            last,
          ))
        h
