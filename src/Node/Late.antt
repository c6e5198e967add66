-- ===== src/Node/Late.antt =====
-- A node's thread behind `stop()`.
use smart_sensor_network.Prelude.{
  ℕ, ◌+◌, ◌≤◌, ◌≡◌, ◌≢◌, refl, sym, ap, ◌∙◌, subst, false, Option, none, some, List, [], ◌∷◌, ◌++◌,
  append-nil, Bytes, length, length-append, arith, if◌then◌else◌, Result, Exception,
}
use smart_sensor_network.Node.{Readings}
use smart_sensor_network.Node.Stop.{
  Place, called, testing, working, left, SensorNode, Event, enter, test, body, stop, stop_node,
  enter_node, after_body, body_node, fire_at, fire, reads, Steps, here, next,
}

-- How many rounds a thread there can still come to the end of.
abbrev pub rounds_left : Place → ℕ
rounds_left working = 1
rounds_left _ = 0

abbrev or_same : Option SensorNode → SensorNode → SensorNode
or_same none n = n
or_same (some m) n = m

module _ (sub : ℕ → ℕ → ℕ) (send : Bytes → Result (Unit {0})) where
  record Late (limit : ℕ) (rs : List Readings) (n : SensorNode) : Type 0 where
    cleared : n.running ≡ false
    on : n.place ≢ called
    few : length rs + rounds_left n.place ≤ limit

  after_left : (o : Option Exception) → (rounds_left (after_body o) ≡ 0) × (after_body o ≢ called)
  after_left none = (refl, λ e. cc)
  after_left (some x) = (refl, λ e. cc)

  fired-Late :
      (e : Event) (p : Place) (limit : ℕ) (rs : List Readings) {n k : SensorNode}
      → n.place ≡ p
      → fire_at sub send p e n ≡ some k
      → Late limit rs n
      → Late limit (rs ++ reads sub send e) k
  unfolding fire_at enter_node body_node stop_node
  fired-Late stop p limit rs {n} {k} at e h =
      let same : stop_node n ≡ k = cc in
      subst (Late limit (rs ++ [])) same
        (record { cleared = refl; on = h.on; few = rw (append-nil rs) h.few })
  fired-Late (enter ts hs) called limit rs at e h = absurd (h.on at)
  fired-Late test testing limit rs {n} {k} at e h =
      let m : SensorNode = record n { place = if n.running then working else left } in
      let same : m ≡ k = cc in
      let out : m.place ≡ left = rw h.cleared refl in
      let before : length rs + rounds_left n.place ≤ limit = h.few in
      subst (Late limit (rs ++ [])) same (record {
        cleared = h.cleared;
        on = λ f. let never : left ≡ called = sym out ∙ f in cc;
        few = rw (append-nil rs, out) (omega arith);
      })
  fired-Late (body r) working limit rs {n} {k} at e h =
      let m : SensorNode = body_node sub send r n in
      let same : m ≡ k = cc in
      let (none_left, entered) = after_left m.loop.thrown in
      let one : rounds_left n.place ≡ 1 = ap rounds_left at in
      let before : length rs + rounds_left n.place ≤ limit = h.few in
      let more : length (rs ++ (r ∷ [])) ≡ length rs + 1 = length-append rs (r ∷ []) in
      subst (Late limit (rs ++ (r ∷ []))) same
        (record { cleared = h.cleared; on = entered; few = omega arith })
  fired-Late _ _ limit rs at e h = cc

  Steps-Late :
      (m : SensorNode) {rs : List Readings} {n : SensorNode}
      → m.place ≢ called
      → Steps sub send (stop_node m) rs n
      → Late (rounds_left m.place) rs n
  unfolding fire stop_node
  Steps-Late m on here = record { cleared = refl; on = on; few = omega arith }
  Steps-Late m on (next {rs} {m = n} r e f) =
      fired-Late e n.place (rounds_left m.place) rs refl f (Steps-Late m on r)

  -- The round in progress, if there is one, and the test of the flag.
  unfoldable pub round_off : Readings → SensorNode → SensorNode
  unfolding fire
  round_off r n = let m = or_same (fire sub send (body r) n) n in or_same (fire sub send test m) m

  tests_off :
      (o : Option Exception) (n : SensorNode)
      → n.running ≡ false
      → n.place ≡ after_body o
      → (or_same (fire sub send test n) n).place ≡ left
  unfolding fire fire_at
  tests_off none n cleared at = rw (at, cleared) refl
  tests_off (some x) n cleared at = rw at refl

  settles :
      (p : Place) (r : Readings) (n : SensorNode)
      → n.running ≡ false
      → p ≢ called
      → n.place ≡ p
      → (round_off r n).place ≡ left
  unfolding round_off fire fire_at body_node
  settles called r n cleared on at = absurd (on refl)
  settles testing r n cleared on at = rw (at, cleared) refl
  settles left r n cleared on at = rw at refl
  settles working r n cleared on at =
      let m : SensorNode = body_node sub send r n in
      let same : or_same (fire sub send (body r) n) n ≡ m =
        ap (λ q. or_same (fire_at sub send q (body r) n) n) at in
      ap (λ v. (or_same (fire sub send test v) v).place) same
      ∙ tests_off m.loop.thrown m cleared refl

  -- A `stop()` of a node whose thread has entered `run()`: whatever comes after it, the flag stays
  -- cleared, and no round comes to its end but the one that was in progress; and then the round in
  -- progress, if there is one, whatever it reads and whether or not it throws, and one test of the
  -- flag bring the thread behind `run()`.
  pub Steps-stop_node :
      (m : SensorNode) (r : Readings) {rs : List Readings} {n : SensorNode}
      → m.place ≢ called
      → Steps sub send (stop_node m) rs n
      → (n.running ≡ false) × (length rs ≤ rounds_left m.place) × ((round_off r n).place ≡ left)
  Steps-stop_node m r {rs} {n} on steps =
      let late : Late (rounds_left m.place) rs n = Steps-Late m on steps in
      let few : length rs + rounds_left n.place ≤ rounds_left m.place = late.few in
      (late.cleared, omega arith, settles n.place r n late.cleared late.on refl)
