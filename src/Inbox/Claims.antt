-- ===== src/Inbox/Claims.antt =====
-- What a claim does to the inbox table, under PostgreSQL and under MySQL.
use cliros.Prelude.{ℕ, ◌≤◌, String, ◌≡◌, ◌≢◌, ◌∙◌, refl, List, Among, arith, inl, inr}
use cliros.Errors.{duplicate}
use cliros.Effect.{ok, err, ◌>>=◌, wrapping}
use cliros.Effect.Rules.{Result-cases}
use cliros.Message.{Message}
use cliros.Database.{SqlDialect, postgres, mysql}
use cliros.Env.{Env}
use cliros.Inbox.{postgres_claim, mysql_claim, postgres_error, claim_postgres, claim}
use cliros.Store.{Store, with_claim, Postgres}
use cliros.Store.Within.{Within, Within-call, Within-wrapping, Within-bind}

module _ {env : Env} (pg : Postgres env) where
  open env use {World, Ctx, Tx, Uuid, Bytes, Any, parse_uuid, query_row}
  open pg use {Other, committed, pending}

  -- The key of a message was new to `p`, and `q` is `p` with it.
  pub record Claims (m : Message Any) (p q : Store Uuid Bytes Other) : Type 0 where
    pub id : Uuid
    pub parsed : parse_uuid m.saga_id ≡ ok id
    pub fresh : ¬ Among (id, m.from_step) p.inbox
    pub added : q ≡ with_claim (id, m.from_step) p

  claim_postgres-Within :
      (ctx : Ctx) (tx : Tx) (id : Uuid) (m : Message Any) (s : Store Uuid Bytes Other) (w : World)
      → committed w ≡ s
      → parse_uuid m.saga_id ≡ ok id
      → Within pg s tx
          (λ _ p. Claims m (pending tx w) p)
          (claim_postgres env postgres ctx tx id m.from_step)
          w
  unfolding claim_postgres
  claim_postgres-Within ctx tx id m s w h parsed =
      Within-bind pg
        (Within-wrapping pg postgres_error (
          Within-call pg {G = λ _ p. Claims m (pending tx w) p}
            (pg.query_row_committed ctx tx _ w ∙ h)
            λ v e. record {
              id = id;
              parsed = parsed;
              fresh = pg.claim_ok ctx tx id m.from_step w v e;
              added = pg.claim_pending ctx tx id m.from_step w v e;
            }))
        λ _ w₁ h₁ claims. record { ends = (h₁, claims) }

  -- `Claim` inside a PostgreSQL transaction commits nothing, and where it succeeds the key (saga
  -- id, origin step) was not in the pending inbox and has been added to it, and nothing else has
  -- changed.
  pub claim-Within :
      (d : SqlDialect) (ctx : Ctx) (tx : Tx) (m : Message Any) (s : Store Uuid Bytes Other)
      (w : World)
      → d ≡ postgres
      → committed w ≡ s
      → Within pg s tx (λ _ p. Claims m (pending tx w) p) (claim env d ctx tx m) w
  unfolding claim
  claim-Within d ctx tx m s w hd h = rw hd (
      Within-bind pg {G = λ id p. (parse_uuid m.saga_id ≡ ok id) × (p ≡ pending tx w)}
        (Within-wrapping pg _ (Within-call pg h λ id e. (e, refl)))
        λ id w₁ h₁ (parsed, same). rw (← same) (claim_postgres-Within ctx tx id m s w₁ h₁ parsed))

  -- On PostgreSQL `Claim` answers `ErrDuplicate` only where the saga id parses and the key (saga
  -- id, origin step) is in the inbox that the transaction sees.
  pub claim-duplicate :
      (ctx : Ctx) (tx : Tx) (m : Message Any) (w : World)
      → (claim env postgres ctx tx m w).0 ≡ err duplicate
      → (id : Uuid) × (parse_uuid m.saga_id ≡ ok id) × Among (id, m.from_step) (pending tx w).inbox
  unfolding claim postgres_error ◌>>=◌ wrapping
  claim-duplicate ctx tx m w e = elim (Result-cases (parse_uuid m.saga_id)) [
    | inr (x, bad) ↦ absurd (ground arith)
    | inl (id, parsed) ↦
        elim (Result-cases (query_row ctx tx (postgres_claim env postgres id m.from_step) w).0) [
          | inl (v, row) ↦ absurd (ground arith)
          | inr (x, no_row) ↦
              (id, parsed, pg.claim_no_rows ctx tx id m.from_step w x no_row (ground arith))
        ]
  ]

-- What MySQL says of the statement: a new row counts 1; a row that is there keeps its values, and
-- counts 0, or 1 under CLIENT_FOUND_ROWS.
pub record MysqlClaims (env : Env) : Type 0 where
  pub inbox : env.Tx → env.World → List (env.Uuid × String)
  pub new_key :
      (ctx : env.Ctx) (tx : env.Tx) (id : env.Uuid) (step : String) (w : env.World) (n : ℕ)
      → ¬ Among (id, step) (inbox tx w)
      → (env.exec ctx tx (mysql_claim env mysql id step) w).0 ≡ ok (ok n)
      → n ≡ 1
  pub old_key :
      (ctx : env.Ctx) (tx : env.Tx) (id : env.Uuid) (step : String) (w : env.World) (n : ℕ)
      → Among (id, step) (inbox tx w)
      → (env.exec ctx tx (mysql_claim env mysql id step) w).0 ≡ ok (ok n)
      → n ≤ 1

module _ {env : Env} (my : MysqlClaims env) where
  open env use {World, Ctx, Tx, Any, parse_uuid, exec}

  -- On MySQL `Claim` never answers `ErrDuplicate`, since an upsert that writes the value that is
  -- there counts no row, or one under CLIENT_FOUND_ROWS, and a new row counts one.
  pub claim-mysql_blind :
      (ctx : Ctx) (tx : Tx) (m : Message Any) (w : World)
      → (claim env mysql ctx tx m w).0 ≢ err duplicate
  unfolding claim ◌>>=◌ wrapping
  claim-mysql_blind ctx tx m w e = elim (Result-cases (parse_uuid m.saga_id)) [
    | inr (x, bad) ↦ ground arith
    | inl (id, parsed) ↦
        let q = mysql_claim env mysql id m.from_step in
        elim (Result-cases (exec ctx tx q w).0) [
          | inr (x, failed) ↦ ground arith
          | inl (err x, unknown) ↦ ground arith
          | inl (ok n, counted) ↦
              let two : n ≡ 2 = ground arith in
              let new : ¬ Among (id, m.from_step) (my.inbox tx w) =
                λ old. absurd (omega (arith, my.old_key ctx tx id m.from_step w n old counted)) in
              omega (arith, my.new_key ctx tx id m.from_step w n new counted)
        ]
  ]
