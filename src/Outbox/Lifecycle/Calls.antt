-- ===== src/Outbox/Lifecycle/Calls.antt =====
-- internal/outbox/reader.go: a call of `Start` or `Close` that is not interrupted, step by step.
use cliros.Prelude.{◌≤◌, ◌≡◌, refl, subst, true, false, List, [], ◌∷◌, Bool-cases, inl, inr}
use cliros.Outbox.Lifecycle.{
  Lifecycle, StartCall, load_closed, start_done, start_step, start, CloseCall, swap_closed,
  cancel_ctx, close_done, close_step, shut, System, Step, start_runs, close_runs, Reaches, here,
  next, is_started, is_closed,
}
use cliros.Outbox.Lifecycle.Shutdown.{returns}

Reaches-trans : {s t u : System} → Reaches s t → Reaches t u → Reaches s u
Reaches-trans first here = first
Reaches-trans first (next later st) = next (Reaches-trans first later) st

module _ (starts : List StartCall) (closes : List CloseCall) where
  -- A call of `Start` in front of the others.
  abbrev pub starting : StartCall × Lifecycle → System
  starting (at, l) = record { lifecycle = l; starts = at ∷ starts; closes = closes }

  -- The last of the three steps is the end.
  start_ends :
      (l : Lifecycle)
      → let (at₁, l₁) = start_step load_closed l in
        let (at₂, l₂) = start_step at₁ l₁ in (start_step at₂ l₂).0 ≡ start_done
  unfolding start_step is_started is_closed
  start_ends l = elim (Bool-cases l.closed) [
    | inl off ↦ simp off refl
    | inr opened ↦ elim (Bool-cases l.started) [
      | inl given ↦ simp (opened, given) refl
      | inr free ↦ simp (opened, free) refl
    ]
  ]

  -- `Start` is three steps of its call, of which the last ones may have nothing left to do.
  pub start-Reaches :
      (l : Lifecycle) → Reaches (starting (load_closed, l)) (starting (start_done, start l))
  unfolding start
  start-Reaches l =
      let (at₁, l₁) = start_step load_closed l in
      let (at₂, l₂) = start_step at₁ l₁ in
      subst (λ (at : StartCall). Reaches (starting (load_closed, l)) (starting (at, start l)))
        (start_ends l)
        (next
          (next (next here (start_runs l [] starts load_closed closes))
            (start_runs l₁ [] starts at₁ closes))
          (start_runs l₂ [] starts at₂ closes))

  abbrev pub shutting : CloseCall × Lifecycle → System
  shutting (at, l) = record { lifecycle = l; starts = starts; closes = at ∷ closes }

  swap_succeeds :
      (l : Lifecycle)
      → l.closed ≡ false
      → close_step swap_closed l ≡ (cancel_ctx, record l { closed = true })
  unfolding close_step is_closed
  swap_succeeds l opened = simp opened refl

  -- `Close` of an open reader reaches what it returns with.
  pub shut-Reaches :
      (l : Lifecycle)
      → l.closed ≡ false
      → l.running ≤ 1
      → Reaches (shutting (swap_closed, l)) (shutting (close_done, shut l))
  unfolding shut is_closed close_step
  shut-Reaches l opened le =
      let k = record l { closed = true } in
      let waiting = record k { cancelled = true } in
      let swapped =
        subst (λ (out : CloseCall × Lifecycle). Step (shutting (swap_closed, l)) (shutting out))
          (swap_succeeds l opened) (close_runs l [] closes swap_closed starts) in
      simp opened (
        Reaches-trans (next (next here swapped) (close_runs k [] closes cancel_ctx starts))
          (returns starts [] closes waiting l.running refl le refl))
