-- ===== src/Executor/Tries.antt =====
-- internal/executor/executor.go: a callback with its error handler, as a relation on the tables.
use cliros.Prelude.{String, ◌≡◌, subst, Option, some, List, ◌⊎◌, inl, inr}
use cliros.Errors.{Error}
use cliros.Message.{Message, MessageType}
use cliros.Env.{Env, Action, ErrorHandler}
use cliros.Outbox.{SagaType}
use cliros.Store.{Store, Postgres}
use cliros.Executor.Atomicity.{Handled}
use cliros.Executor.Handler.{recovery}
use cliros.Executor.Once.{Handled-IsClaimed, not-IsClaimed}

module _ {env : Env} (pg : Postgres env) where
  open env use {Uuid, Bytes, Any}
  open pg use {Other}

  -- `H a out s t` is the effect of the callback `a` that answers `out`.
  module _
      (H : Action env
        → Message Any
        → Store Uuid Bytes Other
        → Store Uuid Bytes Other
        → Type 0) where
    -- After one callback has had its effect, no other one has.
    abbrev pub IsExclusive : Type 0
    IsExclusive =
        (a b : Action env) (out next : Message Any) (s t u : Store Uuid Bytes Other)
        → H a out s t
        → ¬ H b next t u

    module _ (action : Action env) (o : Option (ErrorHandler env)) where
      -- The error handler had its effect, once.
      abbrev pub ByHandlerOf :
          Message Any → Store Uuid Bytes Other → Store Uuid Bytes Other → Type 0
      ByHandlerOf out s t =
          (h : ErrorHandler env) × (x : Error) × (o ≡ some h) × H (recovery env h x) out s t

      -- One of the two callbacks had its effect, or nothing happened.
      pub data TriedOf (s t : Store Uuid Bytes Other) : Type 0 where
        unchanged : t ≡ s → TriedOf s t
        by_action : (out : Message Any) → H action out s t → TriedOf s t
        by_handler : (out : Message Any) → ByHandlerOf out s t → TriedOf s t

      -- The handler's effect, from the tables that the failed callback left.
      pub effect-later :
          (h : ErrorHandler env) (x : Error) (out : Message Any) (s u t : Store Uuid Bytes Other)
          → IsExclusive
          → (u ≡ s) ⊎ ((a : Message Any) × H action a s u)
          → H (recovery env h x) out u t
          → H (recovery env h x) out s t
      effect-later h x out s u t alone (inl same) there =
          subst (λ v. H (recovery env h x) out v t) same there
      effect-later h x out s u t alone (inr (a, first)) there =
          absurd (alone action (recovery env h x) a out s u t first there)

      pub ByHandlerOf-later :
          (h : ErrorHandler env) (x : Error) (out : Message Any) (s u t : Store Uuid Bytes Other)
          → IsExclusive
          → o ≡ some h
          → (u ≡ s) ⊎ ((a : Message Any) × H action a s u)
          → H (recovery env h x) out u t
          → ByHandlerOf out s t
      ByHandlerOf-later h x out s u t alone is before there =
          (h, x, is, effect-later h x out s u t alone before there)

      pub TriedOf-before :
          (s u : Store Uuid Bytes Other)
          → (u ≡ s) ⊎ ((a : Message Any) × H action a s u)
          → TriedOf s u
      TriedOf-before s u (inl same) = unchanged same
      TriedOf-before s u (inr (a, first)) = by_action a first

  -- The effects on a message that is claimed.
  module _ (name : String) (m : Message Any) (event : MessageType) (topics : List String)
      (phase : SagaType) where
    abbrev pub Handling :
        Action env → Message Any → Store Uuid Bytes Other → Store Uuid Bytes Other → Type 0
    Handling a out s t = Handled pg a name m event topics phase out s t

    pub Handling-IsExclusive : IsExclusive Handling
    Handling-IsExclusive a b out next s t u first second =
        not-IsClaimed pg second (Handled-IsClaimed pg first)

  module _ (name : String) (m : Message Any) (action : Action env) (o : Option (ErrorHandler env))
      (event : MessageType) (topics : List String) (phase : SagaType) where
    -- The callback handled the message, once.
    abbrev pub ByAction : Message Any → Store Uuid Bytes Other → Store Uuid Bytes Other → Type 0
    ByAction = Handling name m event topics phase action

    -- The error handler handled the message, once.
    abbrev pub ByHandler : Message Any → Store Uuid Bytes Other → Store Uuid Bytes Other → Type 0
    ByHandler = ByHandlerOf (Handling name m event topics phase) action o

    -- One of the two handled the message, or nothing happened.
    abbrev pub Tried : Store Uuid Bytes Other → Store Uuid Bytes Other → Type 0
    Tried = TriedOf (Handling name m event topics phase) action o

    pub ByHandler-later :
        (h : ErrorHandler env) (x : Error) (out : Message Any) (s u t : Store Uuid Bytes Other)
        → o ≡ some h
        → (u ≡ s) ⊎ ((a : Message Any) × ByAction a s u)
        → Handled pg (recovery env h x) name m event topics phase out u t
        → ByHandler out s t
    ByHandler-later h x out s u t is before there =
        ByHandlerOf-later (Handling name m event topics phase) action o h x out s u t
          (Handling-IsExclusive name m event topics phase) is before there

    pub Tried-before :
        (s u : Store Uuid Bytes Other) → (u ≡ s) ⊎ ((a : Message Any) × ByAction a s u) → Tried s u
    Tried-before = TriedOf-before (Handling name m event topics phase) action o
