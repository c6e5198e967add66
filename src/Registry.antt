-- ===== src/Registry.antt =====
-- `std::unordered_map<uint32_t, V>` as src/gateway/Gateway.cpp uses it: an association list in the
-- order of iteration. A new key may enter anywhere in that order; here it enters at the end.
pub mod Reordered
use mathlib.Core.Path.{subst₂}
use smart_sensor_network.Prelude.{
  ℕ, ◌≡◌, ◌≢◌, refl, true, Option, none, some, List, [], ◌∷◌, arith, ◌==◌, ==_iff, if◌then◌else◌,
  All, Bool-cases, inl, inr,
}

module _ {ℓ} {V : Type ℓ} where
  -- `sensors.find(id)`.
  unfoldable pub find : ℕ → List (ℕ × V) → Option V
  find id [] = none
  find id ((key, v) ∷ rest) = if key == id then some v else find id rest

  -- `f(sensors[id])` for an `f` that changes the value in place: `operator[]` enters `initial` for a
  -- missing key.
  unfoldable pub modify : ℕ → V → (V → V) → List (ℕ × V) → List (ℕ × V)
  modify id initial f [] = (id, f initial) ∷ []
  modify id initial f ((key, v) ∷ rest) =
      if key == id then (key, f v) ∷ rest else (key, v) ∷ modify id initial f rest

  abbrev pub or_initial : V → Option V → V
  or_initial initial none = initial
  or_initial initial (some v) = v

  abbrev pub keys : List (ℕ × V) → List ℕ
  keys [] = []
  keys ((key, v) ∷ rest) = key ∷ keys rest

  -- The keys are pairwise different.
  abbrev pub IsUnique : List (ℕ × V) → Type 0
  IsUnique [] = Unit
  IsUnique ((key, v) ∷ rest) = All (λ k. k ≢ key) (keys rest) × IsUnique rest

  -- Every entry satisfies a predicate on its key and value.
  abbrev pub AllEntries {κ} : (ℕ → V → Type κ) → List (ℕ × V) → Type κ
  AllEntries P [] = Unit
  AllEntries P ((key, v) ∷ rest) = P key v × AllEntries P rest

module _ {ℓ} {V : Type ℓ} where
  -- The map law of a changed entry: at its key the changed value, elsewhere what was there.
  pub find-modify :
      (id key : ℕ) (initial : V) (f : V → V) (m : List (ℕ × V))
      → find key (modify id initial f m)
        ≡ (if id == key then some (f (or_initial initial (find id m))) else find key m)
  unfolding find modify
  find-modify id key initial f [] = refl
  find-modify id key initial f ((k, v) ∷ m) = ground (arith, find-modify id key initial f m)

  keys-modify-All {κ} :
      (P : ℕ → Type κ) (id : ℕ) (initial : V) (f : V → V) (m : List (ℕ × V))
      → P id
      → All P (keys m)
      → All P (keys (modify id initial f m))
  unfolding modify
  keys-modify-All P id initial f [] p h = (p, tt)
  keys-modify-All P id initial f ((k, v) ∷ m) p h = elim (Bool-cases (k == id)) [
    | inl same ↦ rw same h
    | inr other ↦ rw other (h.0, keys-modify-All P id initial f m p h.1)
  ]

  pub modify-IsUnique :
      (id : ℕ) (initial : V) (f : V → V) (m : List (ℕ × V))
      → IsUnique m
      → IsUnique (modify id initial f m)
  unfolding modify
  modify-IsUnique id initial f [] u = (tt, tt)
  modify-IsUnique id initial f ((k, v) ∷ m) u = elim (Bool-cases (k == id)) [
    | inl same ↦ rw same u
    | inr other ↦ rw other (
      keys-modify-All (λ j. j ≢ k) id initial f m
          (λ e. let same : (k == id) ≡ true = (==_iff k id).1 (ground arith) in cc) u.0,
      modify-IsUnique id initial f m u.1,
    )
  ]

  pub modify-AllEntries {κ} :
      (P : ℕ → V → Type κ) (id : ℕ) (initial : V) (f : V → V) (m : List (ℕ × V))
      → P id (f initial)
      → ((v : V) → P id v → P id (f v))
      → AllEntries P m
      → AllEntries P (modify id initial f m)
  unfolding modify
  modify-AllEntries P id initial f [] new old h = (new, tt)
  modify-AllEntries P id initial f ((k, v) ∷ m) new old h = elim (Bool-cases (k == id)) [
    | inl same ↦ let e : k ≡ id = (==_iff k id).0 same in rw same (rw e (old v (rw e at h.0)), h.1)
    | inr other ↦ rw other (h.0, modify-AllEntries P id initial f m new old h.1)
  ]

  pub find-AllEntries {κ} :
      (P : ℕ → V → Type κ) (id : ℕ) (m : List (ℕ × V)) {v : V}
      → AllEntries P m
      → find id m ≡ some v
      → P id v
  unfolding find
  find-AllEntries P id [] h e = cc
  find-AllEntries P id ((k, w) ∷ m) {v} h e = elim (Bool-cases (k == id)) [
    | inl same ↦
        let key : k ≡ id = (==_iff k id).0 same in
        let here : some w ≡ some v = rw same at e in
        let found : w ≡ v = cc in subst₂ P key found h.0
    | inr other ↦ find-AllEntries P id m h.1 (rw other at e)
  ]
