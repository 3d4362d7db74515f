-- ===== src/Executor/Opening.antt =====
-- internal/executor/executor.go, `atomicRun`: a message that comes from no step, with which a saga
-- starts, and for which nothing is claimed.
use cliros.Prelude.{
  String, ◌≡◌, ◌≢◌, refl, sym, ◌∙◌, subst, Option, none, some, List, [], ◌++◌, true, arith, str_eq,
  str_eq_iff,
}
use cliros.Message.{Message, MessageType, with_saga_id}
use cliros.Database.{SqlDialect, postgres}
use cliros.Env.{Env, Action}
use cliros.Retry.{Retrier}
use cliros.Outbox.{SagaType}
use cliros.Outbox.Rows.{AreRowsOf, AreFresh}
use cliros.Outbox.Transaction.{rows_once}
use cliros.Store.{OutboxRow, Store, Postgres}
use cliros.Store.Within.{Within}
use cliros.Store.Atomic.{Settled, Atomic, Atomic-bind, Atomic-commit, Atomic-begin}
use cliros.Step.{Step}
use cliros.Executor.{StepExecutor}
use cliros.Executor.Attempt.{claim_if_needed, attempt_in_tx, atomic_run}
use cliros.Executor.Atomicity.{IsContained, send-Within, act-Within}
use cliros.Executor.Once.{IsQuiet?, exclusive-Repeatable, user_run-Settled}
use cliros.Executor.Runs.{run_with_user_retry}

module _ {env : Env} (pg : Postgres env) where
  open env use {World, Ctx, Tx, Uuid, Bytes, Any}
  open pg use {Other, committed, pending}

  -- `t` is `s` after the action has run once on the message, with the answer `out`: no key is
  -- claimed, what the action did to its own tables is there, and one row for each topic.
  pub record Opened (action : Action env) (name : String) (m : Message Any) (event : MessageType)
      (topics : List String) (phase : SagaType) (out : Message Any) (s t : Store Uuid Bytes Other)
      : Type 0 where
    pub ctx : Ctx
    pub tx : Tx
    pub before : World
    pub from_start : pending tx before ≡ s
    pub reply : Message Any
    pub replied : (action ctx tx m before).0 ≡ (reply, none)
    pub own : t.other ≡ (pending tx (action ctx tx m before).1).other
    pub same_inbox : t.inbox ≡ s.inbox
    pub rows : List (OutboxRow Uuid Bytes)
    pub are_rows : AreRowsOf env out name phase topics rows
    pub sent : t.outbox ≡ s.outbox ++ rows
    pub new_keys : AreFresh rows s.outbox
    pub same_saga : out.saga_id ≡ m.saga_id
    pub same_payload : out.payload ≡ reply.payload
    pub typed : topics ≢ [] → (out.message_type ≡ event) × (out.from_step ≡ name)

  module _ (name : String) (m : Message Any) (event : MessageType) (topics : List String)
      (phase : SagaType) where
    -- The primary key of the outbox keeps a second callback from having its effect.
    pub Opened-once :
        (action action' : Action env) (a b : Message Any) (s t u : Store Uuid Bytes Other)
        → topics ≢ []
        → Opened action name m event topics phase a s t
        → ¬ Opened action' name m event topics phase b t u
    Opened-once action action' a b s t u some_topic first second =
        rows_once pg a b topics name phase s.outbox first.rows second.rows
          (second.same_saga ∙ sym first.same_saga) some_topic first.are_rows second.are_rows
          (subst (AreFresh second.rows) first.sent second.new_keys)

  no_claim-Within :
      (inbox : Option SqlDialect) (ctx : Ctx) (tx : Tx) (m : Message Any)
      (s : Store Uuid Bytes Other) (w : World)
      → m.from_step ≡ ""
      → committed w ≡ s
      → Within pg s tx (λ _ q. q ≡ pending tx w) (claim_if_needed env inbox ctx tx m) w
  unfolding claim_if_needed
  no_claim-Within none ctx tx m s w start h = record { ends = (h, refl) }
  no_claim-Within (some d) ctx tx m s w start h =
      let skips : str_eq m.from_step "" ≡ true = (str_eq_iff m.from_step "").1 start in
      rw (claim_if_needed, skips) (record { ends = (h, refl) })

  module _ (e : StepExecutor env) (stp : Step env) (m : Message Any) (action : Action env)
      (event : MessageType) (topics : List String) (phase : SagaType) (writes : e.writer ≡ postgres)
      (start : m.from_step ≡ "") (contained : IsContained pg action) where
    abbrev Opens : Store Uuid Bytes Other → Message Any → Store Uuid Bytes Other → Type 0
    Opens s out t = Opened action stp.name m event topics phase out s t

    pub attempt-Opens :
        (text : String) (ctx : Ctx) (tx : Tx) (s : Store Uuid Bytes Other) (w : World)
        → committed w ≡ s
        → pending tx w ≡ s
        → Atomic pg s (Opens s) (attempt_in_tx env text e ctx tx stp m action event topics phase) w
    unfolding attempt_in_tx
    attempt-Opens text ctx tx s w h begun =
        Atomic-bind pg (no_claim-Within e.inbox ctx tx m s w start h) λ _ w₁ h₁ same.
          Atomic-bind pg (act-Within pg action ctx tx m s w₁ contained h₁)
            λ reply w₂ h₂ (replied, acts).
              Atomic-bind pg
                (send-Within pg e ctx tx stp.name event topics phase (with_saga_id m.saga_id reply)
                  s w₂ writes h₂)
                λ out w₃ h₃ sent. Atomic-commit pg tx _ out h₃ (record {
                  ctx = ctx;
                  tx = tx;
                  before = w₁;
                  from_start = same ∙ begun;
                  reply = reply;
                  replied = replied;
                  own = ground arith;
                  same_inbox = ground (arith, contained.keeps_inbox ctx tx m w₁);
                  rows = sent.rows;
                  are_rows = sent.are_rows;
                  sent = ground (arith, contained.keeps_outbox ctx tx m w₁);
                  new_keys =
                      subst (λ o. AreFresh sent.rows o)
                        (ground (arith, contained.keeps_outbox ctx tx m w₁)) sent.new_keys;
                  same_saga = sent.same_saga;
                  same_payload = sent.same_payload;
                  typed = sent.typed;
                })

    atomic_run-Opens :
        (ctx : Ctx) (s : Store Uuid Bytes Other) (w : World)
        → committed w ≡ s
        → Atomic pg s (Opens s) (atomic_run env e ctx stp m action event topics phase) w
    unfolding atomic_run
    atomic_run-Opens ctx s w h =
        Atomic-begin pg ctx _ h λ tx w₁ h₁ begun. attempt-Opens "commit tx" ctx tx s w₁ h₁ begun

    -- Through both retry loops of `runWithUserRetry` on a message that comes from no step, with at
    -- least one topic: after success the action had its effect exactly once (its changes and one
    -- outbox row for each topic, in one commit); after an error the committed tables are as before,
    -- or it had this effect once although an error came back. Nothing is claimed in the inbox: it
    -- is the primary key of the outbox that refuses a second effect.
    pub user_run-Opens :
        (ctx : Ctx) (r : Option (Retrier env)) (w : World)
        → topics ≢ []
        → IsQuiet? pg e.infra_retrier
        → IsQuiet? pg r
        → let (result, w') = run_with_user_retry env e ctx stp m action event topics phase r w in
          Settled pg (committed w) (Opens (committed w)) result w'
    user_run-Opens ctx r w some_topic infra user =
        (user_run-Settled pg e stp m action event topics phase (committed w) (Opens (committed w))
          (λ inner.
            exclusive-Repeatable pg Opens (committed w)
              (atomic_run env e inner stp m action event topics phase)
              (λ a b t u first second.
                Opened-once stp.name m event topics phase action action a b (committed w) t u
                  some_topic first second)
              (λ s' w' h. (atomic_run-Opens inner s' w' h).ends))
          r ctx w infra user refl).ends
