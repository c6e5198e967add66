-- ===== src/System/Runs.antt =====
-- Schedules of the demo as lists of actions.
use mathlib.Core.Path.{sym, subst}
use smart_sensor_network.Prelude.{
  ◌++◌, ◌≡◌, refl, ap, Bool, true, ◌&&◌, Exception, if◌then◌else◌, ℕ, Bytes, Option, none, some,
  List, [], ◌∷◌, Option-cases, inl, inr,
}
use smart_sensor_network.System.State.{System, Action}
use smart_sensor_network.System.Steps.{is_none, allowed, apply, fire, Reach, here, next}

pub both : (o : Option Exception) (b : Bool) → o ≡ none → b ≡ true → is_none o && b ≡ true
both o b e f = rw (e, f) refl

module _ (sub : ℕ → ℕ → ℕ) (show : ℕ → Bytes) where
  abbrev pub or_stay : Option System → System → System
  or_stay none s = s
  or_stay (some t) s = t

  -- The actions in their order; one that is not possible is passed over.
  unfoldable pub go : List Action → System → System
  unfolding fire
  go [] s = s
  go (a ∷ as') s = go as' (or_stay (fire sub show a s) s)

  pub Reach-trans : {s t u : System} → Reach sub show s t → Reach sub show t u → Reach sub show s u
  Reach-trans r here = r
  Reach-trans r (next q a e) = next (Reach-trans r q) a e

  Reach-or_stay : (a : Action) (s : System) → Reach sub show s (or_stay (fire sub show a s) s)
  Reach-or_stay a s = elim (Option-cases (fire sub show a s)) [
    | inl stays ↦ subst (λ o. Reach sub show s (or_stay o s)) (sym stays) here
    | inr (t, e) ↦ subst (λ o. Reach sub show s (or_stay o s)) (sym e) (next here a e)
  ]

  pub Reach-go : (actions : List Action) (s : System) → Reach sub show s (go actions s)
  unfolding go
  Reach-go [] s = here
  Reach-go (a ∷ as') s =
      Reach-trans (Reach-or_stay a s) (Reach-go as' (or_stay (fire sub show a s) s))

  pub go_nil : (s : System) → go [] s ≡ s
  unfolding go
  go_nil s = refl

  -- A possible action happens, while nothing was thrown.
  pub go-apply :
      (a : Action) (as' : List Action) (s : System)
      → s.world.thrown ≡ none
      → allowed sub show a s ≡ true
      → go (a ∷ as') s ≡ go as' (apply sub show a s)
  unfolding go fire
  go-apply a as' s quiet possible =
      ap (λ b. go as' (or_stay (if b then some (apply sub show a s) else none) s))
        (both s.world.thrown (allowed sub show a s) quiet possible)

  pub go-append :
      (before after : List Action) (s : System) → go (before ++ after) s ≡ go after (go before s)
  unfolding go
  go-append [] after s = refl
  go-append (a ∷ before) after s = go-append before after (or_stay (fire sub show a s) s)
