-- ===== src/Monitor/Order.antt =====
-- The list of sensors and the order in which the hash table is iterated.
use smart_sensor_network.Prelude.{
  ℕ, ◌≡◌, refl, ap, ◌∙◌, [], ◌∷◌, ◌++◌, List, some, Bytes, codes, arith, leb, ◌==◌, All, ok,
  Bool-cases, inl, inr,
}
use smart_sensor_network.Registry.{find, keys, IsUnique}
use smart_sensor_network.Registry.Reordered.{Reordered, nothing, keep, swap, then_, find-Reordered}
use smart_sensor_network.Gateway.{SensorInfo, Sensors}
use smart_sensor_network.Monitor.{
  Moment, insert_id, sort_ids, list_rows, list_row, age_at, sensor_list, list_heading, list_columns,
}

insert_id_comm : (a b : ℕ) (l : List ℕ) → insert_id a (insert_id b l) ≡ insert_id b (insert_id a l)
unfolding insert_id
insert_id_comm a b [] = ground arith
insert_id_comm a b (c ∷ l) = ground (arith, insert_id_comm a b l)

sort_ids-Reordered : {m n : Sensors} → Reordered m n → sort_ids (keys m) ≡ sort_ids (keys n)
unfolding sort_ids
sort_ids-Reordered nothing = refl
sort_ids-Reordered (keep (id, info) r) = ap (insert_id id) (sort_ids-Reordered r)
sort_ids-Reordered (swap (id, info) (id', info') m) = insert_id_comm id id' (sort_ids (keys m))
sort_ids-Reordered (then_ r s) = sort_ids-Reordered r ∙ sort_ids-Reordered s

list_rows-found :
    (seen : ℕ → Moment) (m n : Sensors) (ids : List ℕ)
    → ((id : ℕ) → find id m ≡ find id n)
    → list_rows seen m ids ≡ list_rows seen n ids
unfolding list_rows
list_rows-found seen m n [] same = refl
list_rows-found seen m n (id ∷ ids) same = rw (same id, list_rows-found seen m n ids same)

-- Two registries with the same entries, one for a key, in whatever order they are iterated, give the same
-- list of sensors.
pub sensor_list-Reordered :
    (seen : ℕ → Moment) {m n : Sensors}
    → Reordered m n
    → IsUnique m
    → sensor_list seen m ≡ sensor_list seen n
unfolding sensor_list
sensor_list-Reordered seen {m} {n} r u =
    let rows : list_rows seen m (sort_ids (keys m)) ≡ list_rows seen n (sort_ids (keys n)) =
      list_rows-found seen m n (sort_ids (keys m)) (λ id. find-Reordered id r u)
      ∙ ap (list_rows seen n) (sort_ids-Reordered r) in
    rw rows

abbrev Found : Sensors → ℕ → Type 0
Found m id = (info : SensorInfo) × (find id m ≡ some info)

Found-cons :
    (key id : ℕ) (info : SensorInfo) (m : Sensors) → Found m id → Found ((key, info) ∷ m) id
unfolding find
Found-cons key id info m h = elim (Bool-cases (key == id)) [
  | inl same ↦ (info, rw same)
  | inr other ↦ (h.0, rw other h.1)
]

All-map {κ} : (P Q : ℕ → Type κ) (ids : List ℕ) → ((id : ℕ) → P id → Q id) → All P ids → All Q ids
All-map P Q [] f h = tt
All-map P Q (id ∷ ids) f h = (f id h.0, All-map P Q ids f h.1)

keys-Found : (m : Sensors) → All (Found m) (keys m)
unfolding find
keys-Found [] = tt
keys-Found ((key, info) ∷ m) = (
  (info, ground arith),
  All-map (Found m) (Found ((key, info) ∷ m)) (keys m) (λ id. Found-cons key id info m)
      (keys-Found m),
)

insert_id-All {κ} : (P : ℕ → Type κ) (a : ℕ) (l : List ℕ) → P a → All P l → All P (insert_id a l)
unfolding insert_id
insert_id-All P a [] p h = (p, tt)
insert_id-All P a (b ∷ l) p h = elim (Bool-cases (leb a b)) [
  | inl first ↦ rw first (p, (h.0, h.1))
  | inr later ↦ rw later (h.0, insert_id-All P a l p h.1)
]

sort_ids-All {κ} : (P : ℕ → Type κ) (l : List ℕ) → All P l → All P (sort_ids l)
unfolding sort_ids
sort_ids-All P [] h = tt
sort_ids-All P (a ∷ l) h = insert_id-All P a (sort_ids l) h.0 (sort_ids-All P l h.1)

list_rows_total :
    (seen : ℕ → Moment) (m : Sensors) (ids : List ℕ)
    → All (Found m) ids
    → (rows : Bytes) × (list_rows seen m ids ≡ ok rows)
unfolding list_rows
list_rows_total seen m [] h = ([], refl)
list_rows_total seen m (id ∷ ids) h =
    let (info, here) = h.0 in
    let (rows, rest) = list_rows_total seen m ids h.1 in
    (list_row id info (age_at (seen id) id) ++ rows, rw (here, rest))

-- `sensors.at` never throws: the list of sensors is made of every registry, whatever the gateway does
-- while it is written.
pub sensor_list_total :
    (seen : ℕ → Moment) (m : Sensors) → (text : Bytes) × (sensor_list seen m ≡ ok text)
unfolding sensor_list
sensor_list_total seen m =
    let (rows, e) =
      list_rows_total seen m (sort_ids (keys m)) (sort_ids-All (Found m) (keys m) (keys-Found m)) in
    (list_heading ++ (list_columns ++ (rows ++ codes "\n\n\n")), rw e)
