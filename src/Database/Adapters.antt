-- ===== src/Database/Adapters.antt =====
-- database/database.go: the interfaces of a database, and the adapters that give them database/sql.
use cliros.Prelude.{String, ◌≡◌, refl, ap, Option, List}
use cliros.Errors.{Error}
use cliros.Effect.{Result, ok, err}

-- The types of database/sql that the interfaces name, and its connection and transaction.
pub record SqlTypes : Type 1 where
  pub World : Type 0
  pub Ctx : Type 0
  pub TxOptions : Type 0
  -- an element of `args`
  pub Arg : Type 0
  pub SqlResult : Type 0
  pub SqlRows : Type 0
  pub SqlRow : Type 0
  pub SqlDb : Type 0
  pub SqlTx : Type 0

module _ (types : SqlTypes) where
  open types use {World, Ctx, TxOptions, Arg, SqlResult, SqlRows, SqlRow, SqlDb, SqlTx}

  -- `Queryer`
  pub record Queryer : Type 0 where
    pub exec_context : Ctx → String → List Arg → World → Result SqlResult × World
    pub query_context : Ctx → String → List Arg → World → Result SqlRows × World

  -- `Tx`, with the method of `TxQueryer`
  pub record Tx : Type 0 where
    pub queryer : Queryer
    pub open queryer use *
    pub query_row_context : Ctx → String → List Arg → World → SqlRow × World
    pub commit : World → Option Error × World
    pub rollback : World → Option Error × World

  -- `DB`; the interface is nil beside an error.
  pub record Db : Type 0 where
    pub queryer : Queryer
    pub open queryer use *
    pub begin_tx : Ctx → TxOptions → World → Result Tx × World

  -- The methods of `*sql.DB` and `*sql.Tx`.
  pub record Sql : Type 0 where
    pub db_exec : SqlDb → Ctx → String → List Arg → World → Result SqlResult × World
    pub db_query : SqlDb → Ctx → String → List Arg → World → Result SqlRows × World
    pub db_begin : SqlDb → Ctx → TxOptions → World → Result SqlTx × World
    pub tx_exec : SqlTx → Ctx → String → List Arg → World → Result SqlResult × World
    pub tx_query : SqlTx → Ctx → String → List Arg → World → Result SqlRows × World
    pub tx_query_row : SqlTx → Ctx → String → List Arg → World → SqlRow × World
    pub tx_commit : SqlTx → World → Option Error × World
    pub tx_rollback : SqlTx → World → Option Error × World

module _ {types : SqlTypes} (sql : Sql types) where
  open types use {World, Ctx, TxOptions, Arg, SqlResult, SqlRows, SqlRow, SqlDb, SqlTx}

  -- `txAdapter`
  unfoldable pub tx_adapter : SqlTx → Tx types
  tx_adapter tx = record {
    queryer = record { exec_context = sql.tx_exec tx; query_context = sql.tx_query tx };
    query_row_context = sql.tx_query_row tx;
    commit = sql.tx_commit tx;
    rollback = sql.tx_rollback tx;
  }

  -- `dbAdapter.BeginTx` after the call of `sql.DB.BeginTx`
  abbrev pub adapted : Result SqlTx × World → Result (Tx types) × World
  adapted (err x, w) = (err x, w)
  adapted (ok tx, w) = (ok (tx_adapter tx), w)

  -- `dbAdapter`
  unfoldable pub db_adapter : SqlDb → Db types
  db_adapter db = record {
    queryer = record { exec_context = sql.db_exec db; query_context = sql.db_query db };
    begin_tx = λ ctx opts w. adapted (sql.db_begin db ctx opts w);
  }

  -- A use of a transaction, which goes on by each answer until it gives an `A`.
  pub data TxUse (A : Type 0) : Type 0 where
    gives : A → TxUse A
    execs : Ctx → String → List Arg → (Result SqlResult → TxUse A) → TxUse A
    queries : Ctx → String → List Arg → (Result SqlRows → TxUse A) → TxUse A
    query_rows : Ctx → String → List Arg → (SqlRow → TxUse A) → TxUse A
    commits rolls_back : (Option Error → TxUse A) → TxUse A

  module _ {A : Type 0} where
    -- It is made through the interface, or on the transaction of database/sql itself.
    abbrev pub through : Tx types → TxUse A → World → A × World
    through tx (gives a) w = (a, w)
    through tx (execs ctx q args k) w =
        let (reply, w') = tx.exec_context ctx q args w in through tx (k reply) w'
    through tx (queries ctx q args k) w =
        let (reply, w') = tx.query_context ctx q args w in through tx (k reply) w'
    through tx (query_rows ctx q args k) w =
        let (reply, w') = tx.query_row_context ctx q args w in through tx (k reply) w'
    through tx (commits k) w = let (reply, w') = tx.commit w in through tx (k reply) w'
    through tx (rolls_back k) w = let (reply, w') = tx.rollback w in through tx (k reply) w'

    abbrev pub direct : SqlTx → TxUse A → World → A × World
    direct tx (gives a) w = (a, w)
    direct tx (execs ctx q args k) w =
        let (reply, w') = sql.tx_exec tx ctx q args w in direct tx (k reply) w'
    direct tx (queries ctx q args k) w =
        let (reply, w') = sql.tx_query tx ctx q args w in direct tx (k reply) w'
    direct tx (query_rows ctx q args k) w =
        let (reply, w') = sql.tx_query_row tx ctx q args w in direct tx (k reply) w'
    direct tx (commits k) w = let (reply, w') = sql.tx_commit tx w in direct tx (k reply) w'
    direct tx (rolls_back k) w = let (reply, w') = sql.tx_rollback tx w in direct tx (k reply) w'

    through-tx_adapter :
        (tx : SqlTx) (use_ : TxUse A) (w : World)
        → through (tx_adapter tx) use_ w ≡ direct tx use_ w
    unfolding tx_adapter
    through-tx_adapter tx (gives a) w = refl
    through-tx_adapter tx (execs ctx q args k) w =
        through-tx_adapter tx (k (sql.tx_exec tx ctx q args w).0) _
    through-tx_adapter tx (queries ctx q args k) w =
        through-tx_adapter tx (k (sql.tx_query tx ctx q args w).0) _
    through-tx_adapter tx (query_rows ctx q args k) w =
        through-tx_adapter tx (k (sql.tx_query_row tx ctx q args w).0) _
    through-tx_adapter tx (commits k) w = through-tx_adapter tx (k (sql.tx_commit tx w).0) _
    through-tx_adapter tx (rolls_back k) w = through-tx_adapter tx (k (sql.tx_rollback tx w).0) _

    -- A transaction from its beginning, or the error of the beginning.
    abbrev pub transaction : Result (Tx types) × World → TxUse A → Result A × World
    transaction (err x, w) use_ = (err x, w)
    transaction (ok tx, w) use_ = let (a, w') = through tx use_ w in (ok a, w')

    abbrev pub sql_transaction : Result SqlTx × World → TxUse A → Result A × World
    sql_transaction (err x, w) use_ = (err x, w)
    sql_transaction (ok tx, w) use_ = let (a, w') = direct tx use_ w in (ok a, w')

    same_transaction :
        (begun : Result SqlTx × World) (use_ : TxUse A)
        → transaction (adapted begun) use_ ≡ sql_transaction begun use_
    same_transaction (err x, w) use_ = refl
    same_transaction (ok tx, w) use_ =
        ap (λ (p : A × World). (ok p.0, p.1)) (through-tx_adapter tx use_ w)

    -- A transaction through the adapters is the transaction on database/sql itself, whatever calls
    -- are made in it and whatever their answers are, the error of its beginning included.
    pub transaction-db_adapter :
        (db : SqlDb) (ctx : Ctx) (opts : TxOptions) (use_ : TxUse A) (w : World)
        → transaction ((db_adapter db).begin_tx ctx opts w) use_
          ≡ sql_transaction (sql.db_begin db ctx opts w) use_
    unfolding db_adapter
    transaction-db_adapter db ctx opts use_ w = same_transaction (sql.db_begin db ctx opts w) use_
