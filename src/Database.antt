-- ===== src/Database.antt =====
-- The SQLite connection as crates/bridge-core/src/storage.rs and notification_store.rs use it: each
-- statement reads or rewrites the tables, or the engine refuses it and nothing is written.
-- Which statements are refused is the environment's choice, a schedule given with the database.
pub mod Schema
pub mod Transactions
pub mod Invariants
pub mod Statuses
use codex_app.Prelude.{
  Bool, true, false, List, [], ◌∷◌, Result, ok, err, Exec, pure, ◌>>=◌, ◌>>◌, if◌then◌else◌,
}
use Schema.{Tables}

-- `faults` holds the outcomes of the statements to come; past its end every statement succeeds.
pub record Db : Type 0 where
  pub tables : Tables
  pub faults : List Bool

pub data DbError : Type 0 where
  engine_fault : DbError

abbrev pub Sql : Type 0 → Type 0
Sql A = Exec DbError Db A

abbrev refused : List Bool → Bool
refused [] = false
refused (b ∷ rest) = b

abbrev later : List Bool → List Bool
later [] = []
later (b ∷ rest) = rest

-- One statement: a query and a change of the tables.
unfoldable pub statement : {A : Type 0} → (Tables → A) → (Tables → Tables) → Sql A
statement read write db =
    if refused db.faults
    then (err engine_fault, record db { faults = later db.faults })
    else (ok (read db.tables), record db { tables = write db.tables; faults = later db.faults })

abbrev pub query : {A : Type 0} → (Tables → A) → Sql A
query read = statement read (λ t. t)

abbrev pub execute : (Tables → Tables) → Sql (Unit {0})
execute = statement (λ _. tt)

-- A transaction that is dropped before its commit is rolled back.
abbrev rollback : {A : Type 0} → Tables → Result DbError A × Db → Result DbError A × Db
rollback before (ok a, db) = (ok a, db)
rollback before (err e, db) = (err e, record db { tables = before })

-- BEGIN, the body, COMMIT; each of the two may be refused as well.
abbrev pub bracketed : {A : Type 0} → Sql A → Sql A
bracketed body = do execute (λ t. t); result ← body; execute (λ t. t); pure result

unfoldable pub transaction : {A : Type 0} → Sql A → Sql A
transaction body db = rollback db.tables (bracketed body db)
