-- ===== src/Bridge.antt =====
-- The state that the parts of crates/bridge-core share: the database behind its lock, the event hub,
-- and how often the environment has been asked. Locks are held for whole calls, so that the calls on
-- the database follow one another.
pub mod Rules
use codex_app.Prelude.{ℕ, ◌+◌, Exec, Result, ok, err, pure}
use codex_app.Database.{Db, DbError, Sql}
use codex_app.EventHub.{EventHub}
use codex_app.PublicAccess.{PublicAccessContext}

pub record Bridge : Type 0 where
  pub db : Db
  pub hub : EventHub
  pub reads : ℕ
  pub sends : ℕ
  pub wakes : ℕ

-- `database`: a refused statement; `serialization`: a payload that is not encoded; `adapter`: Codex
-- does not answer; `panicked`: the thread stops; `out_of_fuel`: the model's own.
pub data Failure : Type 0 where
  database serialization adapter panicked out_of_fuel : Failure

abbrev pub Action : Type 0 → Type 0
Action A = Exec Failure Bridge A

abbrev pub lift : {A : Type 0} → Result DbError A × Db → Bridge → Result Failure A × Bridge
lift (ok a, db) b = (ok a, record b { db = db })
lift (err e, db) b = (err database, record b { db = db })

-- A call of the store.
abbrev pub on_db : {A : Type 0} → Sql A → Action A
on_db m b = lift (m b.db) b

-- A read of the public access state, which may change between reads.
abbrev pub current : (ℕ → PublicAccessContext) → Action PublicAccessContext
current access b = (ok (access b.reads), record b { reads = b.reads + 1 })
