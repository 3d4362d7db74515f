-- ===== src/Store/Atomic.antt =====
-- Rules for a whole transaction: what it leaves committed, after success and after an error.
use cliros.Prelude.{◌≡◌, sym, subst, ◌∙◌, ◌⊎◌, inl, inr}
use cliros.Errors.{Error}
use cliros.Effect.{Result, ok, err, Io, pure, ◌>>=◌, ◌>>◌, wrapping, deferring}
use cliros.Effect.Rules.{Result-cases, Ends-bind, Ends-deferring, on_error-ok, on_error-err}
use cliros.Env.{Env}
use cliros.Store.{Store, Postgres}
use cliros.Store.Within.{Within, Inside}

module _ {env : Env} (pg : Postgres env) where
  open env use {World, Ctx, Tx, Uuid, Bytes, begin_tx, commit, rollback}
  open pg use {Other, committed, pending}

  -- `H a t` says that `t` is what the tables become when the answer is `a`.
  abbrev pub Settled :
      {A : Type 0}
      → Store Uuid Bytes Other
      → (A → Store Uuid Bytes Other → Type 0)
      → Result A
      → World
      → Type 0
  Settled s H (ok a) w = H a (committed w)
  Settled {A} s H (err e) w = (committed w ≡ s) ⊎ ((a : A) × H a (committed w))

  pub record Atomic {A : Type 0} (s : Store Uuid Bytes Other)
      (H : A → Store Uuid Bytes Other → Type 0) (m : Io World A) (w : World) : Type 0 where
    pub ends : Settled s H (m w).0 (m w).1

  -- Steps inside the transaction come before its end.
  pub Atomic-bind :
      {A B : Type 0} {s : Store Uuid Bytes Other} {tx : Tx}
      {G : A → Store Uuid Bytes Other → Type 0} {H : B → Store Uuid Bytes Other → Type 0}
      {m : Io World A} {f : A → Io World B} {w : World}
      → Within pg s tx G m w
      → ((a : A) (w' : World) → committed w' ≡ s → G a (pending tx w') → Atomic s H (f a) w')
      → Atomic s H (m >>= f) w
  Atomic-bind {s} {tx} {G} {H} {m} {f} {w} h rest = record {
    ends =
        Ends-bind (Settled s H) m f w
          (λ a e.
            let (still, left) : Inside pg s tx G (ok a) (m w).1 = rw e at h.ends in
            (rest a (m w).1 still left).ends)
          (λ x e. let still : Inside pg s tx G (err x) (m w).1 = rw e at h.ends in inl still);
  }

  -- What does not touch the committed tables may run after the end.
  pub Settled-moved :
      {A : Type 0} (s : Store Uuid Bytes Other) (H : A → Store Uuid Bytes Other → Type 0)
      (r : Result A) {w w' : World}
      → committed w' ≡ committed w
      → Settled s H r w
      → Settled s H r w'
  Settled-moved s H (ok a) same h = subst (H a) (sym same) h
  Settled-moved s H (err e) same (inl still) = inl (same ∙ still)
  Settled-moved s H (err e) same (inr (a, h)) = inr (a, subst (H a) (sym same) h)

  -- The commit makes what is pending the effect.
  pub Atomic-commit :
      {A : Type 0} {s : Store Uuid Bytes Other} {H : A → Store Uuid Bytes Other → Type 0} (tx : Tx)
      (g : Error → Error) (a : A) {w : World}
      → committed w ≡ s
      → H a (pending tx w)
      → Atomic s H (wrapping g (commit tx) >> pure a) w
  unfolding wrapping
  Atomic-commit {s} {H} tx g a {w} h good = record {
    ends =
        Ends-bind (Settled s H) (wrapping g (commit tx)) (λ _. pure a) w
          (λ u e. subst (H a) (sym (pg.commit_ok tx w (on_error-ok g (commit tx w).0 e))) good)
          (λ x e.
            let (y, failed) = on_error-err g (commit tx w).0 e in
            elim (pg.commit_err tx w y failed) [
              | inl same ↦ inl (same ∙ h)
              | inr made ↦ inr (a, subst (H a) (sym made) good)
            ]);
  }

  -- The commit as the last call.
  pub Atomic-last_commit :
      {s : Store Uuid Bytes Other} {H : Unit {0} → Store Uuid Bytes Other → Type 0} (tx : Tx)
      (g : Error → Error) {w : World}
      → committed w ≡ s
      → H tt (pending tx w)
      → Atomic s H (wrapping g (commit tx)) w
  unfolding wrapping
  Atomic-last_commit {s} {H} tx g {w} h good = record {
    ends = elim (Result-cases (commit tx w).0) [
      | inl (u, done) ↦ rw done (subst (H tt) (sym (pg.commit_ok tx w done)) good)
      | inr (x, failed) ↦ rw failed (elim (pg.commit_err tx w x failed) [
        | inl same ↦ inl (same ∙ h)
        | inr made ↦ inr (tt, subst (H tt) (sym made) good)
      ])
    ];
  }

  pub Atomic-begin :
      {A : Type 0} {s : Store Uuid Bytes Other} {H : A → Store Uuid Bytes Other → Type 0}
      (ctx : Ctx) (g : Error → Error) {f : Tx → Io World A} {w : World}
      → committed w ≡ s
      → ((tx : Tx) (w' : World) → committed w' ≡ s → pending tx w' ≡ s → Atomic s H (f tx) w')
      → Atomic s H (wrapping g (begin_tx ctx) >>= λ tx. deferring (rollback tx) (f tx)) w
  unfolding wrapping
  Atomic-begin {s} {H} ctx g {f} {w} h rest = record {
    ends =
        Ends-bind (Settled s H) (wrapping g (begin_tx ctx)) _ w
          (λ tx e.
            let w₁ = (begin_tx ctx w).1 in
            let started = on_error-ok g (begin_tx ctx w).0 e in
            let inside =
              rest tx w₁ (pg.begin_committed ctx w ∙ h) (pg.begin_pending ctx w tx started ∙ h) in
            Ends-deferring (Settled s H) (rollback tx) (f tx) w₁
              (Settled-moved s H (f tx w₁).0 (pg.rollback_committed tx (f tx w₁).1) inside.ends))
          (λ x e. inl (pg.begin_committed ctx w ∙ h));
  }
