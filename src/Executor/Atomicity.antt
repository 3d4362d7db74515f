-- ===== src/Executor/Atomicity.antt =====
-- internal/executor/executor.go, `atomicRun`: what an attempt commits.
use cliros.Prelude.{
  String, ◌≡◌, ◌≢◌, refl, ◌∙◌, ap, subst, none, some, List, [], ◌∷◌, ◌++◌, Among, arith, str_eq,
  str_eq_iff, Bool-cases, inl, inr,
}
use mathlib.Core.List.{append-nil}
use cliros.Effect.{ok}
use cliros.Message.{Message, MessageType, with_saga_id, with_origin}
use cliros.Database.{postgres}
use cliros.Env.{Env, Action}
use cliros.Tracing.Carrier.{inject_trace_context-SameContent}
use cliros.Inbox.Claims.{Claims, claim-Within}
use cliros.Outbox.{SagaType}
use cliros.Outbox.Rows.{AreRowsOf, AreFresh, write_messages-Within}
use cliros.Store.{OutboxRow, Store, with_rows, with_claim, Postgres}
use cliros.Store.Within.{Within, Within-call, Within-wrapping, Within-bind}
use cliros.Store.Atomic.{Atomic, Atomic-bind, Atomic-commit, Atomic-begin}
use cliros.Step.{Step}
use cliros.Executor.{StepExecutor}
use cliros.Executor.Attempt.{
  acted, claim_if_needed, addressed, send_if_routed, attempt_in_tx, atomic_run,
}

module _ {env : Env} (pg : Postgres env) where
  open env use {World, Ctx, Tx, Uuid, Bytes, Any, parse_uuid}
  open pg use {Other, committed, pending}

  -- A callback of the user works on its own tables, inside the transaction that it is given.
  pub record IsContained (action : Action env) : Type 0 where
    pub commits_nothing :
        (ctx : Ctx) (tx : Tx) (m : Message Any) (w : World)
        → committed (action ctx tx m w).1 ≡ committed w
    pub keeps_inbox :
        (ctx : Ctx) (tx : Tx) (m : Message Any) (w : World)
        → (pending tx (action ctx tx m w).1).inbox ≡ (pending tx w).inbox
    pub keeps_outbox :
        (ctx : Ctx) (tx : Tx) (m : Message Any) (w : World)
        → (pending tx (action ctx tx m w).1).outbox ≡ (pending tx w).outbox

  -- The executor works with PostgreSQL and claims the messages that come from a step.
  pub record IsDeduplicating (e : StepExecutor env) (m : Message Any) : Type 0 where
    pub writes_postgres : e.writer ≡ postgres
    pub claims_postgres : e.inbox ≡ some postgres
    pub from_a_step : m.from_step ≢ ""

  -- `t` is `s` after one delivery of `m` to the step has been handled, with the answer `out`: the
  -- key of `m` is claimed, the action ran once after the claim, what it did to its own tables is
  -- there, and there is one row for each topic.
  pub record Handled (action : Action env) (name : String) (m : Message Any) (event : MessageType)
      (topics : List String) (phase : SagaType) (out : Message Any) (s t : Store Uuid Bytes Other)
      : Type 0 where
    pub id : Uuid
    pub parsed : parse_uuid m.saga_id ≡ ok id
    pub fresh : ¬ Among (id, m.from_step) s.inbox
    pub claimed : t.inbox ≡ (id, m.from_step) ∷ s.inbox
    pub ctx : Ctx
    pub tx : Tx
    pub before : World
    pub from_claim : pending tx before ≡ with_claim (id, m.from_step) s
    pub reply : Message Any
    pub replied : (action ctx tx m before).0 ≡ (reply, none)
    pub own : t.other ≡ (pending tx (action ctx tx m before).1).other
    pub rows : List (OutboxRow Uuid Bytes)
    pub are_rows : AreRowsOf env out name phase topics rows
    pub sent : t.outbox ≡ s.outbox ++ rows
    pub new_keys : AreFresh rows s.outbox
    pub same_saga : out.saga_id ≡ m.saga_id
    pub same_payload : out.payload ≡ reply.payload
    pub typed : topics ≢ [] → (out.message_type ≡ event) × (out.from_step ≡ name)

  -- The rows and the answer that `send_if_routed` makes of the message `m`.
  pub record Sent (name : String) (m : Message Any) (event : MessageType) (topics : List String)
      (phase : SagaType) (out : Message Any) (p q : Store Uuid Bytes Other) : Type 0 where
    pub rows : List (OutboxRow Uuid Bytes)
    pub are_rows : AreRowsOf env out name phase topics rows
    pub added : q ≡ with_rows rows p
    pub new_keys : AreFresh rows p.outbox
    pub same_saga : out.saga_id ≡ m.saga_id
    pub same_payload : out.payload ≡ m.payload
    pub typed : topics ≢ [] → (out.message_type ≡ event) × (out.from_step ≡ name)

  addressed_fields :
      (e : StepExecutor env) (ctx : Ctx) (name : String) (event : MessageType) (m : Message Any)
      → let out = addressed env e ctx name event m in
        (out.saga_id ≡ m.saga_id)
        × (out.payload ≡ m.payload)
        × (out.message_type ≡ event)
        × (out.from_step ≡ name)
  unfolding addressed
  addressed_fields e ctx name event m =
      ground (arith, inject_trace_context-SameContent env ctx (with_origin event name m))

  pub send-Within :
      (e : StepExecutor env) (ctx : Ctx) (tx : Tx) (name : String) (event : MessageType)
      (topics : List String) (phase : SagaType) (m : Message Any) (s : Store Uuid Bytes Other)
      (w : World)
      → e.writer ≡ postgres
      → committed w ≡ s
      → Within pg s tx
          (λ out q. Sent name m event topics phase out (pending tx w) q)
          (send_if_routed env e ctx tx name event topics phase m)
          w
  unfolding send_if_routed
  send-Within e ctx tx name event [] phase m s w hd h = record {
    ends = (
      h,
      record {
        rows = [];
        are_rows = tt;
        added = rw append-nil;
        new_keys = tt;
        same_saga = refl;
        same_payload = refl;
        typed = λ ne. absurd (ne refl);
      },
    );
  }
  send-Within e ctx tx name event (t ∷ ts) phase m s w hd h =
      let out = addressed env e ctx name event m in
      let (saga, payload, type, step) = addressed_fields e ctx name event m in
      Within-bind pg
        (Within-wrapping pg _
          (write_messages-Within pg e.writer ctx out tx (t ∷ ts) name phase s w hd h))
        λ _ w₁ h₁ (rows, are_rows, fresh, added). record {
          ends = (
            h₁,
            record {
              rows = rows;
              are_rows = are_rows;
              added = added;
              new_keys = fresh;
              same_saga = saga;
              same_payload = payload;
              typed = λ _. (type, step);
            },
          );
        }

  pub claim_if_needed-Within :
      (e : StepExecutor env) (ctx : Ctx) (tx : Tx) (m : Message Any) (s : Store Uuid Bytes Other)
      (w : World)
      → IsDeduplicating e m
      → committed w ≡ s
      → Within pg s tx
          (λ _ q. Claims pg m (pending tx w) q)
          (claim_if_needed env e.inbox ctx tx m)
          w
  unfolding claim_if_needed
  claim_if_needed-Within e ctx tx m s w dedup h = elim (Bool-cases (str_eq m.from_step "")) [
    | inl none_there ↦ absurd (dedup.from_a_step ((str_eq_iff m.from_step "").0 none_there))
    | inr step ↦
        rw (dedup.claims_postgres, claim_if_needed, step)
          (claim-Within pg postgres ctx tx m s w refl h)
  ]

  pub act-Within :
      (action : Action env) (ctx : Ctx) (tx : Tx) (m : Message Any) (s : Store Uuid Bytes Other)
      (w : World)
      → IsContained action
      → committed w ≡ s
      → Within pg s tx
          (λ reply q.
            ((action ctx tx m w).0 ≡ (reply, none)) × (q ≡ pending tx (action ctx tx m w).1))
          (λ w₀. acted env (action ctx tx m w₀))
          w
  act-Within action ctx tx m s w contained h =
      Within-call pg (ground (arith, contained.commits_nothing ctx tx m w))
        (λ reply e. ground arith)

  pub attempt-Atomic :
      (text : String) (e : StepExecutor env) (ctx : Ctx) (tx : Tx) (stp : Step env)
      (m : Message Any) (action : Action env) (event : MessageType) (topics : List String)
      (phase : SagaType) (s : Store Uuid Bytes Other) (w : World)
      → IsDeduplicating e m
      → IsContained action
      → committed w ≡ s
      → pending tx w ≡ s
      → Atomic pg s
          (λ out t. Handled action stp.name m event topics phase out s t)
          (attempt_in_tx env text e ctx tx stp m action event topics phase)
          w
  unfolding attempt_in_tx
  attempt-Atomic text e ctx tx stp m action event topics phase s w dedup contained h start =
      Atomic-bind pg (claim_if_needed-Within e ctx tx m s w dedup h) λ _ w₁ h₁ claims.
        Atomic-bind pg (act-Within action ctx tx m s w₁ contained h₁) λ reply w₂ h₂ (replied, acts).
          Atomic-bind pg
            (send-Within e ctx tx stp.name event topics phase (with_saga_id m.saga_id reply) s w₂
              dedup.writes_postgres h₂)
            λ out w₃ h₃ sent. Atomic-commit pg tx _ out h₃ (record {
              id = claims.id;
              parsed = claims.parsed;
              fresh = rw start at claims.fresh;
              claimed = ground (arith, contained.keeps_inbox ctx tx m w₁);
              ctx = ctx;
              tx = tx;
              before = w₁;
              from_claim = claims.added ∙ ap (with_claim (claims.id, m.from_step)) start;
              reply = reply;
              replied = replied;
              own = ground arith;
              rows = sent.rows;
              are_rows = sent.are_rows;
              sent = ground (arith, contained.keeps_outbox ctx tx m w₁);
              new_keys =
                  subst (λ o. AreFresh sent.rows o)
                    (ground (arith, contained.keeps_outbox ctx tx m w₁)) sent.new_keys;
              same_saga = sent.same_saga;
              same_payload = sent.same_payload;
              typed = sent.typed;
            })

  -- `atomicRun` is atomic: after success the committed tables have the claim, the action's
  -- changes and the outbox rows of the answer, all of them; after an error they are as before, or
  -- the commit had this effect and reported an error. The executor's writer and inbox speak
  -- PostgreSQL, the message names the step it comes from, the action commits nothing by itself
  -- and leaves the two tables alone.
  pub atomic_run-Atomic :
      (e : StepExecutor env) (ctx : Ctx) (stp : Step env) (m : Message Any) (action : Action env)
      (event : MessageType) (topics : List String) (phase : SagaType) (s : Store Uuid Bytes Other)
      (w : World)
      → IsDeduplicating e m
      → IsContained action
      → committed w ≡ s
      → Atomic pg s
          (λ out t. Handled action stp.name m event topics phase out s t)
          (atomic_run env e ctx stp m action event topics phase)
          w
  unfolding atomic_run
  atomic_run-Atomic e ctx stp m action event topics phase s w dedup contained h =
      Atomic-begin pg ctx _ h λ tx w₁ h₁ start.
        attempt-Atomic "commit tx" e ctx tx stp m action event topics phase s w₁ dedup contained h₁
          start
