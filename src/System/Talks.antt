-- ===== src/System/Talks.antt =====
-- The rounds of a session, step by step, against `handleClient` as a whole.
use smart_sensor_network.Prelude.{
  ◌==◌, ℕ, ◌≡◌, refl, sym, ap, ◌∙◌, Bool, List, [], ◌∷◌, ◌++◌, append_assoc, append-nil, map,
  Bool-cases, inl, inr, none, length, if◌then◌else◌, Bytes, ok,
}
use smart_sensor_network.Tcp.{Reply, process_request}
use smart_sensor_network.Tcp.Requests.{process_request_total}
use smart_sensor_network.Tcp.Session.{
  Exchange, Session, exchange, after_send, Sending, sent_all, failed, unfinished, send_loop,
  handle_client,
}
use smart_sensor_network.System.Serving.{end_client, open_session, keep_session, converse_once}
use smart_sensor_network.System.State.{System, Action, converse, testing, working}
use smart_sensor_network.System.Steps.{is_none, allowed, apply, fire}
use smart_sensor_network.System.Runs.{go, or_stay}

-- The session `t`, that began with nothing, behind the session `s`.
abbrev behind : Session → Session → Session
behind s t = record {
  last_command = t.last_command;
  logs = s.logs ++ t.logs;
  transcript = s.transcript ++ t.transcript;
}

after_send-behind :
    (reply : Reply) (c : Bytes) (s : Session) (sent : Sending)
    → let fresh : Session = record { last_command = c; logs = []; transcript = [] } in
      let (t, more) = after_send reply fresh sent in after_send reply s sent ≡ (behind s t, more)
unfolding after_send
after_send-behind reply c s (sent_all got) = refl
after_send-behind reply c s (failed got) = refl
after_send-behind reply c s (unfinished got) = refl

-- A round does to a session what it does to a fresh one, behind it.
exchange-behind :
    (show : ℕ → Bytes) (x : Exchange) (c : Bytes) (s : Session)
    → (t : Session) × (more : Bool) × (exchange show x
          (record { last_command = c; logs = []; transcript = [] })
        ≡ ok (t, more))
      × (exchange show x s ≡ ok (behind s t, more))
unfolding exchange
exchange-behind show x c s =
    let reply = process_request show x.views x.chunk in
    let (text, e) = (process_request_total show x.views x.chunk).0 in
    let sent = send_loop [] text x.writes in
    let fresh : Session = record { last_command = c; logs = []; transcript = [] } in
    let (t, more) = after_send reply fresh sent in
    (t, more, rw e refl, rw e (ap ok (after_send-behind reply c s sent)))

keep_session-behind :
    (s t : Session) (u : System) → keep_session t (keep_session s u) ≡ keep_session (behind s t) u
keep_session-behind s t u =
    ap
      (λ l. record u {
        world = record u.world { logs = l };
        server = record u.server { last_command = t.last_command };
      })
      (append_assoc u.world.logs s.logs t.logs)

module _ (sub : ℕ → ℕ → ℕ) (show : ℕ → Bytes) where
  passed :
      (x : Exchange) (s : System)
      → s.phases.tcp ≡ testing
      → or_stay sub show (fire sub show (converse x) s) s ≡ s
  unfolding fire allowed
  passed x s e = elim (Bool-cases (is_none s.world.thrown)) [
    | inl runs ↦ rw (runs, e) refl
    | inr ended ↦ rw ended refl
  ]

  taken :
      (x : Exchange) (s : System)
      → s.world.thrown ≡ none
      → s.phases.tcp ≡ working 1
      → or_stay sub show (fire sub show (converse x) s) s ≡ converse_once show x s
  unfolding fire allowed apply
  taken x s e f = rw (e, f) refl

  -- Behind its end, there are no rounds of a session.
  go_ended :
      (xs : List Exchange) (s : System)
      → s.phases.tcp ≡ testing
      → go sub show (map converse xs) s ≡ s
  unfolding go
  go_ended [] s e = refl
  go_ended (x ∷ xs) s e = ap (go sub show (map converse xs)) (passed x s e) ∙ go_ended xs s e

  -- The rounds of a session that has come to `r`, behind a start in `u`.
  module _ (bye : Exchange) (hangs_up : length bye.chunk ≡ 0) where
    abbrev conversation : List Exchange → List Action
    conversation xs = map converse (xs ++ (bye ∷ []))

    go-conversation :
        (xs : List Exchange) (r : Session) (u : System)
        → u.world.thrown ≡ none
        → u.phases.tcp ≡ working 1
        → (t : Session) × (handle_client show xs r ≡ ok t)
          × (go sub show (conversation xs) (keep_session r u) ≡ end_client (keep_session t u))
    unfolding go handle_client converse_once
    go-conversation [] r u e f = (r, refl, taken bye (keep_session r u) e f ∙ rw hangs_up refl)
    go-conversation (x ∷ xs) r u e f =
        let rest = λ (v : System). go sub show (conversation xs) v in
        elim (Bool-cases (length x.chunk == 0)) [
          | inl ends ↦ (
            r,
            rw ends refl,
            ap rest (taken x (keep_session r u) e f ∙ rw ends refl)
                ∙ go_ended (xs ++ (bye ∷ [])) (end_client (keep_session r u)) refl,
          )
          | inr goes_on ↦
              let (t, more, alone, here) = exchange-behind show x r.last_command r in
              let moved : or_stay sub show (fire sub show (converse x) (keep_session r u))
                    (keep_session r u)
                  ≡ (if more
                      then keep_session t (keep_session r u)
                      else end_client (keep_session t (keep_session r u))) =
                taken x (keep_session r u) e f ∙ rw (goes_on, alone) refl in
              elim (Bool-cases more) [
                | inl again ↦
                    let (last, done, same) = go-conversation xs (behind r t) u e f in
                    (
                      last,
                      rw (goes_on, here, again) done,
                      ap rest (moved ∙ rw again (keep_session-behind r t u)) ∙ same,
                    )
                | inr broken ↦ (
                  behind r t,
                  rw (goes_on, here, broken) refl,
                  ap rest (moved ∙ rw broken (ap end_client (keep_session-behind r t u)))
                      ∙ go_ended (xs ++ (bye ∷ [])) (end_client (keep_session (behind r t) u)) refl,
                )
              ]
        ]

  -- The server's thread by itself in a session: from a state in which it is in a session and no
  -- exception was thrown, its rounds, and the client's end behind them, leave the state that
  -- `handleClient` as a whole leaves, with the client's going logged and nobody connected.
  go-handle_client :
      (bye : Exchange) (xs : List Exchange) (s : System)
      → length bye.chunk ≡ 0
      → s.world.thrown ≡ none
      → s.phases.tcp ≡ working 1
      → (t : Session) × (handle_client show xs (open_session s) ≡ ok t)
        × (go sub show (map converse (xs ++ (bye ∷ []))) s ≡ end_client (keep_session t s))
  go-handle_client bye xs s hangs_up e f =
      let (t, done, same) = go-conversation bye hangs_up xs (open_session s) s e f in
      let start : keep_session (open_session s) s ≡ s =
        ap (λ l. record s { world = record s.world { logs = l } }) (append-nil s.world.logs) in
      (t, done, ap (go sub show (map converse (xs ++ (bye ∷ [])))) (sym start) ∙ same)
