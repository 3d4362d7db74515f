-- ===== src/Store/Within.antt =====
-- Rules for calls inside a transaction: what is committed, and what is pending from call to call.
use mathlib.Core.List.{append_assoc}
use cliros.Prelude.{◌≡◌, refl, ap, ◌++◌, List}
use cliros.Errors.{Error}
use cliros.Effect.{Result, ok, err, Io, ◌>>=◌, wrapping}
use cliros.Effect.Rules.{Ends-bind, Ends-wrapping}
use cliros.Env.{Env}
use cliros.Store.{OutboxRow, Store, with_rows, Postgres}

pub with_rows-with_rows :
    {U B D : Type 0} (xs ys : List (OutboxRow U B)) (s : Store U B D)
    → with_rows ys (with_rows xs s) ≡ with_rows (xs ++ ys) s
with_rows-with_rows xs ys s = ap (λ rows. record s { outbox = rows }) (append_assoc s.outbox xs ys)

module _ {env : Env} (pg : Postgres env) where
  open env use {World, Ctx, Tx, Uuid, Bytes, Any}
  open pg use {Other, committed, pending}

  -- Inside a transaction nothing is committed; what a success leaves pending is `good`.
  abbrev pub Inside :
      {A : Type 0}
      → Store Uuid Bytes Other
      → Tx
      → (A → Store Uuid Bytes Other → Type 0)
      → Result A
      → World
      → Type 0
  Inside s tx good (ok a) w = (committed w ≡ s) × good a (pending tx w)
  Inside s tx good (err e) w = committed w ≡ s

  -- `m` run from `w` ends so.
  pub record Within {A : Type 0} (s : Store Uuid Bytes Other) (tx : Tx)
      (G : A → Store Uuid Bytes Other → Type 0) (m : Io World A) (w : World) : Type 0 where
    pub ends : Inside s tx G (m w).0 (m w).1

  split_call :
      {A : Type 0} (s : Store Uuid Bytes Other) (tx : Tx) (G : A → Store Uuid Bytes Other → Type 0)
      (r : Result A) (w : World)
      → committed w ≡ s
      → ((a : A) → r ≡ ok a → G a (pending tx w))
      → Inside s tx G r w
  split_call s tx G (ok a) w h good = (h, good a refl)
  split_call s tx G (err e) w h good = h

  -- A single call that commits nothing.
  pub Within-call :
      {A : Type 0} {s : Store Uuid Bytes Other} {tx : Tx} {G : A → Store Uuid Bytes Other → Type 0}
      {m : Io World A} {w : World}
      → committed (m w).1 ≡ s
      → ((a : A) → (m w).0 ≡ ok a → G a (pending tx (m w).1))
      → Within s tx G m w
  Within-call {s} {tx} {G} {m} {w} h good = record {
    ends = split_call s tx G (m w).0 (m w).1 h good;
  }

  -- A weaker conclusion.
  pub Within-mono :
      {A : Type 0} {s : Store Uuid Bytes Other} {tx : Tx}
      {G H : A → Store Uuid Bytes Other → Type 0} {m : Io World A} {w : World}
      → ((a : A) (p : Store Uuid Bytes Other) → G a p → H a p)
      → Within s tx G m w
      → Within s tx H m w
  Within-mono {A} {s} {tx} {G} {H} {m} {w} weaker h = record {
    ends = split_mono (m w).0 (m w).1 h.ends;
  }
    where
      split_mono : (r : Result A) (w' : World) → Inside s tx G r w' → Inside s tx H r w'
      split_mono (ok a) w' (still, good) = (still, weaker a (pending tx w') good)
      split_mono (err e) w' still = still

  pub Within-wrapping :
      {A : Type 0} {s : Store Uuid Bytes Other} {tx : Tx} {G : A → Store Uuid Bytes Other → Type 0}
      (f : Error → Error) {m : Io World A} {w : World}
      → Within s tx G m w
      → Within s tx G (wrapping f m) w
  Within-wrapping {s} {tx} {G} f {m} {w} h = record {
    ends = Ends-wrapping (Inside s tx G) f m w (λ a e. rw e at h.ends) (λ x e. rw e at h.ends);
  }

  -- A step of a transaction: what it leaves is what the rest starts from.
  pub Within-bind :
      {A B : Type 0} {s : Store Uuid Bytes Other} {tx : Tx}
      {G : A → Store Uuid Bytes Other → Type 0} {H : B → Store Uuid Bytes Other → Type 0}
      {m : Io World A} {f : A → Io World B} {w : World}
      → Within s tx G m w
      → ((a : A) (w' : World) → committed w' ≡ s → G a (pending tx w') → Within s tx H (f a) w')
      → Within s tx H (m >>= f) w
  Within-bind {s} {tx} {G} {H} {m} {f} {w} h rest = record {
    ends =
        Ends-bind (Inside s tx H) m f w
          (λ a e. let (still, left) = rw e at h.ends in (rest a (m w).1 still left).ends)
          (λ x e. rw e at h.ends);
  }
