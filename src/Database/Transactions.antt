-- ===== src/Database/Transactions.antt =====
-- What a statement and a transaction of the database module guarantee, whatever is refused.
use codex_app.Prelude.{◌≡◌, refl, Result, ok, err, arith}
use codex_app.Database.{Db, DbError, Sql, transaction, rollback}
use codex_app.Database.Schema.{Tables}

rollback_err :
    {A : Type 0} (before : Tables) (r : Result DbError A) (db : Db) (e : DbError)
    → (rollback before (r, db)).0 ≡ err e
    → (rollback before (r, db)).1.tables ≡ before
rollback_err before (ok a) db e h = ground arith
rollback_err before (err x) db e h = refl

-- A transaction that fails has changed no table, whichever statement of it was refused.
pub transaction_atomic :
    {A : Type 0} (body : Sql A) (db : Db) (e : DbError)
    → (transaction body db).0 ≡ err e
    → (transaction body db).1.tables ≡ db.tables
unfolding transaction
transaction_atomic body db e h = rollback_err db.tables _ _ e h
