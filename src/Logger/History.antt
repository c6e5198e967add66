-- ===== src/Logger/History.antt =====
-- The history against all that was ever logged.
use smart_sensor_network.Prelude.{
  ℕ, zero, suc, ◌+◌, ◌-◌, ◌≤◌, ◌<◌, ◌≡◌, refl, sym, ap, ◌∙◌, List, [], ◌∷◌, ◌++◌, append_assoc,
  append-nil, Bytes, length, length-append, drop, arith, ltb, if◌then◌else◌, Bool-cases, inl, inr,
  ltb→lt, ltb→ge,
}
use smart_sensor_network.Logger.{
  Logger, new_logger, max_history, line, erase_front, log, drain, get_recent_logs,
}

-- A call of `log`, or a round of the worker.
pub data Event : Type 0 where
  logged : Bytes → Bytes → Event
  drained : Event

unfoldable pub step : Event → Logger → Logger
unfolding log drain
step (logged stamp msg) l = log stamp msg l
step drained l = drain l

unfoldable pub run : List Event → Logger → Logger
unfolding step
run [] l = l
run (e ∷ es) l = run es (step e l)

-- Every line that was logged, the oldest first.
abbrev pub lines : List Event → List Bytes
lines [] = []
lines (logged stamp msg ∷ es) = line stamp msg ∷ lines es
lines (drained ∷ es) = lines es

-- The last `n` of a list.
abbrev pub last_of : ℕ → List Bytes → List Bytes
last_of n xs = drop (length xs - n) xs

-- What `log` makes of a history.
abbrev keep : List Bytes → Bytes → List Bytes
keep h x =
    let longer = h ++ (x ∷ []) in
    if ltb max_history (length longer) then erase_front longer else longer

drop-append : (k : ℕ) (xs ys : List Bytes) → k ≤ length xs → drop k (xs ++ ys) ≡ drop k xs ++ ys
drop-append zero xs ys h = refl
drop-append (suc k) [] ys h = absurd (omega arith)
drop-append (suc k) (x ∷ xs) ys h = drop-append k xs ys (omega arith)

erase_front-drop : (k : ℕ) (xs : List Bytes) → erase_front (drop k xs) ≡ drop (suc k) xs
erase_front-drop zero [] = refl
erase_front-drop zero (x ∷ xs) = refl
erase_front-drop (suc k) [] = refl
erase_front-drop (suc k) (x ∷ xs) = erase_front-drop k xs

length-drop : (k : ℕ) (xs : List Bytes) → length (drop k xs) ≡ length xs - k
length-drop zero xs = omega arith
length-drop (suc k) [] = omega arith
length-drop (suc k) (x ∷ xs) = omega (arith, length-drop k xs)

keep-last_of :
    (xs : List Bytes) (x : Bytes)
    → keep (last_of max_history xs) x ≡ last_of max_history (xs ++ (x ∷ []))
keep-last_of xs x =
    let k : ℕ = length xs - max_history in
    let longer : List Bytes = drop k xs ++ (x ∷ []) in
    let size : length longer ≡ length xs - k + 1 =
      omega (arith, length-append (drop k xs) (x ∷ []), length-drop k xs) in
    let whole : length (xs ++ (x ∷ [])) ≡ length xs + 1 = length-append xs (x ∷ []) in
    let joined : drop k (xs ++ (x ∷ [])) ≡ longer = drop-append k xs (x ∷ []) (omega arith) in
    elim (Bool-cases (ltb max_history (length longer))) [
      | inl full ↦
          let many : max_history < length longer = ltb→lt max_history (length longer) full in
          let next : length (xs ++ (x ∷ [])) - max_history ≡ suc k = omega (arith, many) in
          rw full (
            ap erase_front (sym joined)
            ∙ erase_front-drop k (xs ++ (x ∷ []))
            ∙ ap (λ t. drop t (xs ++ (x ∷ []))) (sym next))
      | inr room ↦
          let few : length longer ≤ max_history = ltb→ge max_history (length longer) room in
          let same : length (xs ++ (x ∷ [])) - max_history ≡ k = omega (arith, few) in
          rw room (sym joined ∙ ap (λ t. drop t (xs ++ (x ∷ []))) (sym same))
    ]

run-history :
    (es : List Event) (xs : List Bytes) (l : Logger)
    → l.history ≡ last_of max_history xs
    → (run es l).history ≡ last_of max_history (xs ++ lines es)
unfolding run log drain
run-history [] xs l h = h ∙ ap (last_of max_history) (sym (append-nil xs))
run-history (logged stamp msg ∷ es) xs l h =
    run-history es (xs ++ (line stamp msg ∷ [])) (log stamp msg l)
      (ap (λ t. keep t (line stamp msg)) h ∙ keep-last_of xs (line stamp msg))
    ∙ ap (last_of max_history) (append_assoc xs (line stamp msg ∷ []) (lines es))
run-history (drained ∷ es) xs l h = run-history es xs (drain l) h

-- After any calls of `log` and rounds of the worker, the recent logs are the last 15 lines of all that
-- were logged, each once and in their order: nothing that the worker does is seen in them.
pub get_recent_logs-run :
    (es : List Event) → get_recent_logs (run es new_logger) ≡ last_of max_history (lines es)
unfolding get_recent_logs
get_recent_logs-run es = run-history es [] new_logger refl
