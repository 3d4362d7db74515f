-- ===== src/Database.antt =====
-- database/database.go: the dialects, the statements that the library sends and `DBContext`.
pub mod Adapters
use Prim.Native.Nat.{◌/◌, ◌%◌}
use Prim.Native.String.{◌++◌}
use cliros.Prelude.{
  ℕ, zero, suc, String, Option, List, [], ◌∷◌, ◌≡◌, refl, ltb, if◌then◌else◌, Bool, true,
}

-- The string type `SQLDialect`: a constant of the package, or any other text.
pub data SqlDialect : Type 0 where
  postgres mysql : SqlDialect
  other_dialect : String → SqlDialect

-- An argument of a statement: `U` and `B` stand for `uuid.UUID` and `[]byte`.
pub data Value (U B : Type 0) : Type 0 where
  uuid : U → Value U B
  text : String → Value U B
  blob : B → Value U B
  time : ℕ → Value U B
  int : ℕ → Value U B

-- The query text and the arguments of `ExecContext`, `QueryContext` and `QueryRowContext`.
pub record Query (U B : Type 0) : Type 0 where
  pub sql : String
  pub args : List (Value U B)

-- The columns of the reader's SELECT, in its order.
pub record Columns (U B : Type 0) : Type 0 where
  pub saga_id : U
  pub step_name : String
  pub topic : String
  pub saga_type : String
  pub created_at : ℕ
  pub scheduled_at : ℕ
  pub metadata : B
  pub payload : B
  pub attempts_counter : ℕ
  pub last_attempt : Option ℕ
  pub processed_at : Option ℕ

abbrev digits : List String
digits = "0" ∷ "1" ∷ "2" ∷ "3" ∷ "4" ∷ "5" ∷ "6" ∷ "7" ∷ "8" ∷ "9" ∷ []

digit : List String → ℕ → String
digit [] n = ""
digit (d ∷ ds) zero = d
digit (d ∷ ds) (suc n) = digit ds n

-- `%d` of a number that is not negative; a number has fewer digits than the fuel `suc n`.
decimal : ℕ → ℕ → String
unfolding digit
decimal zero n = ""
decimal (suc fuel) n =
    let front = decimal fuel (n / 10) in
    if ltb n 10 then digit digits n else front ++ digit digits (n % 10)

-- `DBContext.GetSQLPlaceholder`
unfoldable pub get_sql_placeholder : SqlDialect → ℕ → String
unfolding decimal
get_sql_placeholder postgres index = "$" ++ decimal (suc index) index
get_sql_placeholder _ index = "?"

-- `DBContext`; `db` tells whether its interface is there. The adapters only pass their calls on.
pub record DbContext : Type 0 where
  pub db : Bool
  pub dialect : SqlDialect

-- `NewDBContextWithDB`, with an interface that may be nil, and `NewDBContext`, which wraps its
-- `*sql.DB` in an adapter.
unfoldable pub new_db_context_with_db : Bool → SqlDialect → DbContext
new_db_context_with_db there d = record { db = there; dialect = d }

unfoldable pub new_db_context : SqlDialect → DbContext
unfolding new_db_context_with_db
new_db_context d = new_db_context_with_db true d

placeholder_8 : get_sql_placeholder postgres 18 ≡ "$18"
unfolding get_sql_placeholder
placeholder_8 = refl
