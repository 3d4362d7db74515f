-- ===== src/Controller/Made.antt =====
-- controller/controller.go: what `New` guarantees of the controller that it makes.
use cliros.Prelude.{
  ◌≡◌, ◌≢◌, refl, subst, ◌∙◌, Bool, true, false, ◌&&◌, Option, none, some, arith, length,
  Bool-cases, inl, inr, List,
}
use cliros.Prelude.Int.{ℤ, pos, ltb_ℤ}
use cliros.Effect.{Result, ok, err}
use cliros.Backoff.{Float64}
use cliros.Message.{Message}
use cliros.Database.{SqlDialect, postgres, DbContext}
use cliros.Env.{Env}
use cliros.Outbox.Writer.{Row}
use cliros.Outbox.Reader.{
  default_interval, default_max_attempts, positive_or, polling_interval, Reader, new_reader,
  polling, new_polling_settings, new_backoff_settings, PollingSettings, BackoffSettings,
}
use cliros.Outbox.Reader
use cliros.Outbox.Scan.{HasRoom, RespectsLimit, new_reader-HasRoom}
use cliros.Outbox.Polling.{polling-HasRoom}
use cliros.Store.{Postgres}
use cliros.Executor
use cliros.Executor.{StepExecutor}
use cliros.Executor.Atomicity.{IsDeduplicating}
use cliros.Controller.{Controller}
use cliros.Controller.Startup.{
  Config, or_default, default_poll_interval, default_batch_size, new, reader_of, executor_of,
  controller_of, with_context,
}

positive_or-IsPositive : (d n : ℤ) → ltb_ℤ (pos 0) d ≡ true → ltb_ℤ (pos 0) (positive_or d n) ≡ true
positive_or-IsPositive d n h = ground arith

unfoldable pub succeeds : {A : Type 0} → Result A → Bool
succeeds (ok _) = true
succeeds (err _) = false

module _ (env : Env) where
  open env use {World, Ctx}

  -- The configuration has all that `New` asks for.
  unfoldable pub is_complete : Option (Config env) → Bool
  is_complete none = false
  is_complete (some cfg) =
      cfg.subscriber
      && cfg.publisher
      && elim cfg.db as (λ _. Bool) [ none ↦ false | some db ↦ db.db ]

  succeeds-executor_of :
      (cfg : Config env) (db : DbContext) → succeeds (executor_of env cfg db) ≡ db.db
  unfolding executor_of Executor.new succeeds
  succeeds-executor_of cfg db = elim (Bool-cases db.db) [
    | inl e ↦ simp e refl
    | inr e ↦ simp e refl
  ]

  succeeds-controller_of :
      (fl : Float64) (blank : Row env) (cfg : Config env) (db : DbContext)
      (r : Result (StepExecutor env))
      → succeeds (controller_of env fl blank cfg db r) ≡ succeeds r
  unfolding succeeds
  succeeds-controller_of fl blank cfg db (ok e) = refl
  succeeds-controller_of fl blank cfg db (err x) = refl

  succeeds-with_context :
      (fl : Float64) (blank : Row env) (cfg : Config env) (o : Option DbContext)
      → succeeds (with_context env fl blank cfg o)
        ≡ elim o as (λ _. Bool) [ none ↦ false | some db ↦ db.db ]
  unfolding succeeds
  succeeds-with_context fl blank cfg none = refl
  succeeds-with_context fl blank cfg (some db) =
      succeeds-controller_of fl blank cfg db (executor_of env cfg db) ∙ succeeds-executor_of cfg db

  -- `New` makes a controller exactly where the configuration, its subscriber, its publisher, its
  -- context and the context's database are there, whatever its dialect and its settings are.
  pub succeeds-new :
      (fl : Float64) (blank : Row env) (o : Option (Config env))
      → succeeds (new env fl blank o) ≡ is_complete o
  unfolding new succeeds is_complete
  succeeds-new fl blank none = refl
  succeeds-new fl blank (some cfg) = elim (Bool-cases cfg.subscriber) [
    | inl s ↦ elim (Bool-cases cfg.publisher) [
      | inl p ↦ simp (s, p) (succeeds-with_context fl blank cfg cfg.db)
      | inr p ↦ simp (s, p) refl
    ]
    | inr s ↦ simp s refl
  ]

  -- What `New` puts into the controller.
  pub record IsMade (fl : Float64) (blank : Row env) (cfg : Config env) (db : DbContext)
      (c : Controller env) : Type 0 where
    pub writes : c.executor.writer ≡ db.dialect
    pub claims : c.executor.inbox ≡ some db.dialect
    pub retries : c.executor.infra_retrier ≡ cfg.infra_retry
    pub reads : c.reader ≡ reader_of env fl blank cfg db

  module _ (fl : Float64) (blank : Row env) (cfg : Config env) where
    IfMade : Option DbContext → Result (Controller env) → Type 0
    IfMade o (ok c) = (db : DbContext) × (o ≡ some db) × IsMade fl blank cfg db c
    IfMade o (err _) = Unit

    controller_of-IfMade :
        (db : DbContext)
        → IfMade (some db) (controller_of env fl blank cfg db (executor_of env cfg db))
    unfolding executor_of Executor.new IfMade
    controller_of-IfMade db = elim (Bool-cases db.db) [
      | inl e ↦
          simp e (db, refl, record { writes = refl; claims = refl; retries = refl; reads = refl })
      | inr e ↦ simp e tt
    ]

    with_context-IfMade : (o : Option DbContext) → IfMade o (with_context env fl blank cfg o)
    unfolding IfMade
    with_context-IfMade none = tt
    with_context-IfMade (some db) = controller_of-IfMade db

    new-IfMade : IfMade cfg.db (new env fl blank (some cfg))
    unfolding new IfMade
    new-IfMade = elim (Bool-cases cfg.subscriber) [
      | inl s ↦ elim (Bool-cases cfg.publisher) [
        | inl p ↦ simp (s, p) (with_context-IfMade cfg.db)
        | inr p ↦ simp (s, p) tt
      ]
      | inr s ↦ simp s tt
    ]

    pub new-IsMade :
        {c : Controller env}
        → new env fl blank (some cfg) ≡ ok c
        → (db : DbContext) × (cfg.db ≡ some db) × IsMade fl blank cfg db c
    unfolding IfMade
    new-IsMade e = subst (IfMade cfg.db) e new-IfMade

    -- What a reader's loop needs: a ticker's interval is positive, the limits of the SELECT too, and
    -- the buffer has a place for each row.
    pub record CanPoll (r : Reader env) : Type 0 where
      pub ticks : ltb_ℤ (pos 0) (polling_interval env r) ≡ true
      pub limit : ltb_ℤ (pos 0) (positive_or Reader.default_batch_size r.polling.batch_size) ≡ true
      pub attempts : ltb_ℤ (pos 0) (positive_or default_max_attempts r.polling.max_attempts) ≡ true
      pub room : HasRoom env r

    new_reader-CanPoll :
        (d : SqlDialect) (polling : PollingSettings) (backoff : BackoffSettings env)
        → CanPoll (new_reader env d polling backoff blank)
    unfolding polling_interval
    new_reader-CanPoll d polling backoff =
        let r = new_reader env d polling backoff blank in
        record {
          ticks = positive_or-IsPositive default_interval r.polling.interval refl;
          limit = positive_or-IsPositive Reader.default_batch_size r.polling.batch_size refl;
          attempts = positive_or-IsPositive default_max_attempts r.polling.max_attempts refl;
          room = new_reader-HasRoom env d polling backoff blank;
        }

    reader_of-CanPoll : (db : DbContext) → CanPoll (reader_of env fl blank cfg db)
    unfolding reader_of
    reader_of-CanPoll db =
        new_reader-CanPoll db.dialect
          (new_polling_settings (or_default default_poll_interval cfg.poll_interval)
            (or_default default_batch_size cfg.batch_size))
          _

    pub new-CanPoll : {c : Controller env} → new env fl blank (some cfg) ≡ ok c → CanPoll c.reader
    new-CanPoll e = let (db, _, made) = new-IsMade e in rw made.reads (reader_of-CanPoll db)

    -- The reader of a controller that `New` makes polls with a positive interval, whatever the
    -- configuration says, and however long its loop runs and whatever happens between its ticks
    -- it does not panic and its buffer keeps its size. The SELECT answers at most as many rows as
    -- its LIMIT.
    pub new-polling :
        (c : Controller env) (ctx : Ctx) (pauses : List (World → World)) (w : World)
        → new env fl blank (some cfg) ≡ ok c
        → ((r : Reader env) (w₁ : World) → RespectsLimit env r ctx w₁)
        → (ltb_ℤ (pos 0) (polling_interval env c.reader) ≡ true)
          × ((r : Reader env) × ((polling env c.reader ctx pauses w).0 ≡ some r)
              × (length r.buffer ≡ length c.reader.buffer))
    new-polling c ctx pauses w e limit =
        let h = new-CanPoll e in (h.ticks, polling-HasRoom env ctx limit pauses c.reader w h.room)

module _ {env : Env} (pg : Postgres env) where
  open env use {Any}

  -- A controller that `New` makes of a configuration whose context speaks PostgreSQL
  -- deduplicates: its executor's writer and inbox speak PostgreSQL, which is what the theorems on
  -- deliveries ask for, together with a message that names a step.
  pub new-IsDeduplicating :
      (fl : Float64) (blank : Row env) (cfg : Config env) (db : DbContext) (c : Controller env)
      (m : Message Any)
      → new env fl blank (some cfg) ≡ ok c
      → cfg.db ≡ some db
      → db.dialect ≡ postgres
      → m.from_step ≢ ""
      → IsDeduplicating pg c.executor m
  new-IsDeduplicating fl blank cfg db c m e there speaks named =
      let (k, same, made) = new-IsMade env fl blank cfg e in
      let w = made.writes in
      let i = made.claims in
      record { writes_postgres = cc; claims_postgres = cc; from_a_step = named }
