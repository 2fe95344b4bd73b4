-- ===== src/Database/Invariants.antt =====
-- Invariants of the tables under statements, transactions and sequences of them, whether the
-- statements succeed or are refused.
use codex_app.Prelude.{Result, ok, err, inl, inr, Bool-cases, pure, ◌>>=◌, continue}
use codex_app.Database.{
  Db, DbError, Sql, statement, execute, transaction, bracketed, rollback, refused,
}
use codex_app.Database.Schema.{Tables}

pub record Keeps {A : Type 0} (P : Tables → Type 0) (m : Sql A) : Type 0 where
  pub at : (db : Db) → P db.tables → P (m db).1.tables

module _ {A : Type 0} {P : Tables → Type 0} where
  pub Keeps-pure : (a : A) → Keeps P (pure {E = DbError} a)
  Keeps-pure a = record { at = λ db h. h }

  pub Keeps-statement :
      (read : Tables → A) (write : Tables → Tables)
      → ((t : Tables) → P t → P (write t))
      → Keeps P (statement read write)
  unfolding statement
  Keeps-statement read write keep = record {
    at = λ db h. elim (Bool-cases (refused db.faults)) [
      | inl e ↦ rw e h
      | inr e ↦ rw e (keep db.tables h)
    ];
  }

Keeps-rollback :
    {A : Type 0} (P : Tables → Type 0) (before : Tables) (r : Result DbError A) (db : Db)
    → P before
    → P db.tables
    → P (rollback before (r, db)).1.tables
Keeps-rollback P before (ok a) db h k = k
Keeps-rollback P before (err e) db h k = h

module _ {A B : Type 0} {P : Tables → Type 0} where
  continue-keeps :
      (r : Result DbError A) (db : Db) (f : A → Sql B)
      → ((a : A) → Keeps P (f a))
      → P db.tables
      → P (continue (r, db) f).1.tables
  continue-keeps (ok a) db f kf h = (kf a).at db h
  continue-keeps (err e) db f kf h = h

  pub Keeps-bind :
      (m : Sql A) (f : A → Sql B) → Keeps P m → ((a : A) → Keeps P (f a)) → Keeps P (m >>= f)
  Keeps-bind m f km kf = record {
    at = λ db h. let (r, db') = m db in continue-keeps r db' f kf (km.at db h);
  }

Keeps-idle : {P : Tables → Type 0} → Keeps P (execute (λ t. t))
Keeps-idle = Keeps-statement (λ _. tt) (λ t. t) (λ t k. k)

module _ {A : Type 0} {P : Tables → Type 0} where
  Keeps-bracketed : (m : Sql A) → Keeps P m → Keeps P (bracketed m)
  Keeps-bracketed m km =
      Keeps-bind _ _ Keeps-idle
        (λ _. Keeps-bind m _ km (λ a. Keeps-bind _ _ Keeps-idle (λ _. Keeps-pure a)))

  pub Keeps-transaction : (m : Sql A) → Keeps P m → Keeps P (transaction m)
  unfolding transaction
  Keeps-transaction m km = record {
    at = λ db h.
        let (r, db') = bracketed m db in
        Keeps-rollback P db.tables r db' h ((Keeps-bracketed m km).at db h);
  }
