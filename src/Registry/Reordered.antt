-- ===== src/Registry/Reordered.antt =====
-- The order in which the hash table is iterated.
use smart_sensor_network.Prelude.{
  ℕ, ◌≡◌, ◌≢◌, refl, sym, ap, ◌∙◌, some, List, [], ◌∷◌, arith, ◌==◌, ==_iff, if◌then◌else◌, true,
  false, All, Bool-cases, inl, inr,
}
use smart_sensor_network.Registry.{find, modify, keys, IsUnique}

-- The same entries in another order.
pub data Reordered {ℓ} {V : Type ℓ} : List (ℕ × V) → List (ℕ × V) → Type ℓ where
  nothing : Reordered [] []
  keep : (e : ℕ × V) {m n : List (ℕ × V)} → Reordered m n → Reordered (e ∷ m) (e ∷ n)
  swap : (e f : ℕ × V) (m : List (ℕ × V)) → Reordered (e ∷ f ∷ m) (f ∷ e ∷ m)
  then_ : {l m n : List (ℕ × V)} → Reordered l m → Reordered m n → Reordered l n

same_key : (k id : ℕ) → (k == id) ≡ true → k ≡ id
same_key k id e = (==_iff k id).0 e

ne-eq : (a b : ℕ) → a ≢ b → (a == b) ≡ false
ne-eq a b h = ground (arith, h)

module _ {ℓ} {V : Type ℓ} where
  Reordered-refl : (m : List (ℕ × V)) → Reordered m m
  Reordered-refl [] = nothing
  Reordered-refl (e ∷ m) = keep e (Reordered-refl m)

  All-keys-Reordered {κ} :
      (P : ℕ → Type κ) {m n : List (ℕ × V)} → Reordered m n → All P (keys m) → All P (keys n)
  All-keys-Reordered P nothing h = tt
  All-keys-Reordered P (keep (id, v) r) h = (h.0, All-keys-Reordered P r h.1)
  All-keys-Reordered P (swap (id, v) (id', v') m) h = (h.1.0, (h.0, h.1.1))
  All-keys-Reordered P (then_ r s) h = All-keys-Reordered P s (All-keys-Reordered P r h)

  IsUnique-Reordered : {m n : List (ℕ × V)} → Reordered m n → IsUnique m → IsUnique n
  IsUnique-Reordered nothing u = tt
  IsUnique-Reordered (keep (id, v) r) u =
      (All-keys-Reordered (λ k. k ≢ id) r u.0, IsUnique-Reordered r u.1)
  IsUnique-Reordered (swap (id, v) (id', v') m) u = (((λ e. u.0.0 (sym e)), u.1.0), (u.0.1, u.1.1))
  IsUnique-Reordered (then_ r s) u = IsUnique-Reordered s (IsUnique-Reordered r u)

  pub find-Reordered :
      {m n : List (ℕ × V)} (id : ℕ) → Reordered m n → IsUnique m → find id m ≡ find id n
  unfolding find
  find-Reordered id nothing u = refl
  find-Reordered id (keep (k, v) r) u =
      ap (λ t. if k == id then some v else t) (find-Reordered id r u.1)
  find-Reordered id (swap (k, v) (k', v') m) u = ground (arith, u.0.0)
  find-Reordered id (then_ r s) u =
      find-Reordered id r u ∙ find-Reordered id s (IsUnique-Reordered r u)

  -- A change of one entry is a change of the same entry in another order.
  pub modify-Reordered :
      (id : ℕ) (initial : V) (f : V → V) {m n : List (ℕ × V)}
      → Reordered m n
      → IsUnique m
      → Reordered (modify id initial f m) (modify id initial f n)
  unfolding modify
  modify-Reordered id initial f nothing u = Reordered-refl ((id, f initial) ∷ [])
  modify-Reordered id initial f (keep (k, v) r) u = elim (Bool-cases (k == id)) [
    | inl same ↦ rw same (keep (k, f v) r)
    | inr other ↦ rw other (keep (k, v) (modify-Reordered id initial f r u.1))
  ]
  modify-Reordered id initial f (swap (k, v) (k', v') m) u = elim (Bool-cases (k == id)) [
    | inl same ↦ elim (Bool-cases (k' == id)) [
      | inl both ↦ absurd (u.0.0 (same_key k' id both ∙ sym (same_key k id same)))
      | inr other ↦ rw (same, other) (swap (k, f v) (k', v') m)
    ]
    | inr first ↦ elim (Bool-cases (k' == id)) [
      | inl same ↦ rw (first, same) (swap (k, v) (k', f v') m)
      | inr other ↦ rw (first, other) (swap (k, v) (k', v') (modify id initial f m))
    ]
  ]
  modify-Reordered id initial f (then_ r s) u =
      then_ (modify-Reordered id initial f r u)
        (modify-Reordered id initial f s (IsUnique-Reordered r u))

  -- Changes of two different entries can be made in either order.
  pub modify_comm :
      (a b : ℕ) (initial : V) (f g : V → V) (m : List (ℕ × V))
      → a ≢ b
      → Reordered
          (modify a initial f (modify b initial g m))
          (modify b initial g (modify a initial f m))
  unfolding modify
  modify_comm a b initial f g [] differ =
      rw (ne-eq a b differ, ne-eq b a (λ e. differ (sym e))) (swap (b, g initial) (a, f initial) [])
  modify_comm a b initial f g ((k, v) ∷ m) differ = elim (Bool-cases (k == a)) [
    | inl at_a ↦ elim (Bool-cases (k == b)) [
      | inl at_b ↦ absurd (differ (sym (same_key k a at_a) ∙ same_key k b at_b))
      | inr off ↦ rw (off, at_a, off) (Reordered-refl ((k, f v) ∷ modify b initial g m))
    ]
    | inr off_a ↦ elim (Bool-cases (k == b)) [
      | inl at_b ↦ rw (at_b, off_a, at_b) (Reordered-refl ((k, g v) ∷ modify a initial f m))
      | inr off_b ↦ rw (off_b, off_a, off_b) (keep (k, v) (modify_comm a b initial f g m differ))
    ]
  ]
