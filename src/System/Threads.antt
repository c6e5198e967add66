-- ===== src/System/Threads.antt =====
-- One thread's entry in what is kept per thread.
use smart_sensor_network.Prelude.{
  ◌≡◌, refl, sym, ◌∙◌, subst, Bool, true, false, inl, inr, Bool-cases, if◌then◌else◌,
}
use smart_sensor_network.System.Script.{
  Thread, udp_thread, tcp_thread, dashboard_thread, watchdog_thread, telemetry_thread,
  heartbeat_thread,
}
use smart_sensor_network.System.State.{PerThread, of, put}

abbrev pub same_thread : Thread → Thread → Bool
same_thread udp_thread udp_thread = true
same_thread tcp_thread tcp_thread = true
same_thread dashboard_thread dashboard_thread = true
same_thread watchdog_thread watchdog_thread = true
same_thread telemetry_thread telemetry_thread = true
same_thread heartbeat_thread heartbeat_thread = true
same_thread _ _ = false

pub same_thread_eq : (t u : Thread) → same_thread t u ≡ true → t ≡ u
same_thread_eq udp_thread udp_thread e = refl
same_thread_eq tcp_thread tcp_thread e = refl
same_thread_eq dashboard_thread dashboard_thread e = refl
same_thread_eq watchdog_thread watchdog_thread e = refl
same_thread_eq telemetry_thread telemetry_thread e = refl
same_thread_eq heartbeat_thread heartbeat_thread e = refl
same_thread_eq _ _ e = cc

module _ {ℓ} {A : Type ℓ} where
  of-put :
      (t u : Thread) (x : A) (p : PerThread A)
      → of t (put u x p) ≡ (if same_thread t u then x else of t p)
  of-put udp_thread udp_thread x p = refl
  of-put tcp_thread tcp_thread x p = refl
  of-put dashboard_thread dashboard_thread x p = refl
  of-put watchdog_thread watchdog_thread x p = refl
  of-put telemetry_thread telemetry_thread x p = refl
  of-put heartbeat_thread heartbeat_thread x p = refl
  of-put _ _ x p = refl

  -- What holds of a thread's entry holds behind a change of one entry, if the change keeps it.
  pub put-keeps {κ} :
      (P : A → Type κ) (t u : Thread) (x : A) (p : PerThread A)
      → (P (of u p) → P x)
      → P (of t p)
      → P (of t (put u x p))
  put-keeps P t u x p keep h = subst P (sym (of-put t u x p)) (elim (Bool-cases (same_thread t u)) [
    | inl same ↦ rw same (keep (subst (λ v. P (of v p)) (same_thread_eq t u same) h))
    | inr other ↦ rw other h
  ])

  -- Another thread's change is not seen.
  pub put-other :
      (t u : Thread) (x : A) (p : PerThread A) → same_thread t u ≡ false → of t (put u x p) ≡ of t p
  put-other t u x p other = of-put t u x p ∙ rw other refl

  pub of-put-same : (t : Thread) (x : A) (p : PerThread A) → of t (put t x p) ≡ x
  of-put-same udp_thread x p = refl
  of-put-same tcp_thread x p = refl
  of-put-same dashboard_thread x p = refl
  of-put-same watchdog_thread x p = refl
  of-put-same telemetry_thread x p = refl
  of-put-same heartbeat_thread x p = refl
