-- ===== src/Bridge/Rules.antt =====
-- Rules for actions on the bridge: what they keep, what they leave behind if they succeed, and that
-- they do not panic.
use mathlib.Core.Path.{subst}
use codex_app.Prelude.{◌≡◌, ◌≢◌, refl, sym, Result, ok, err, continue, pure, raise, ◌>>=◌, arith}
use codex_app.Database.{Db, DbError, Sql}
use codex_app.Database.Schema.{Tables}
use codex_app.Database.Invariants.{Keeps}
use codex_app.Bridge.{Bridge, Failure, Action, lift, on_db}

-- The action keeps a property of the tables, whether it succeeds or fails.
pub record Stays {A : Type 0} (P : Tables → Type 0) (m : Action A) : Type 0 where
  pub at : (b : Bridge) → P b.db.tables → P (m b).1.db.tables

-- If the action succeeds, the tables have the property.
pub record Ensures {A : Type 0} (Q : Tables → Type 0) (m : Action A) : Type 0 where
  pub at : (b : Bridge) (a : A) → (m b).0 ≡ ok a → Q (m b).1.db.tables

-- The action does not fail in a way.
pub record Avoids (bad : Failure) {A : Type 0} (m : Action A) : Type 0 where
  pub at : (b : Bridge) → (m b).0 ≢ err bad

err_ne_ok : {A : Type 0} (e : Failure) (a : A) → ◌≡◌ {A = Result Failure A} (err e) (ok a) → ⊥
err_ne_ok e a h = cc

pub err_same :
    {A B : Type 0} (e x : Failure)
    → ◌≡◌ {A = Result Failure B} (err e) (err x)
    → ◌≡◌ {A = Result Failure A} (err e) (err x)
err_same e x h = ground arith

lift-tables :
    {A : Type 0} (r : Result DbError A) (db : Db) (b : Bridge) → (lift (r, db) b).1.db ≡ db
lift-tables (ok a) db b = refl
lift-tables (err e) db b = refl

lift_ok :
    {A : Type 0} (r : Result DbError A) (db : Db) (b : Bridge) (a : A)
    → (lift (r, db) b).0 ≡ ok a
    → r ≡ ok a
lift_ok (ok x) db b a h = ground arith
lift_ok (err e) db b a h = cc

lift-avoids :
    (bad : Failure) {A : Type 0} (r : Result DbError A) (db : Db) (b : Bridge)
    → Failure.database ≢ bad
    → (lift (r, db) b).0 ≢ err bad
lift-avoids bad (ok a) db b other h = cc
lift-avoids bad (err e) db b other h = other (ground arith)

module _ {A : Type 0} {P : Tables → Type 0} where
  pub Stays-pure : (a : A) → Stays P (pure {E = Failure} {S = Bridge} a)
  Stays-pure a = record { at = λ b h. h }

  pub Stays-raise : (e : Failure) → Stays P (raise {S = Bridge} {A = A} e)
  Stays-raise e = record { at = λ b h. h }

  pub Stays-on_db : (m : Sql A) → Keeps P m → Stays P (on_db m)
  Stays-on_db m k = record {
    at = λ b h.
        let (r, db) = m b.db in subst (λ d. P d.tables) (sym (lift-tables r db b)) (k.at b.db h);
  }

module _ {A B : Type 0} {P : Tables → Type 0} where
  continue-Stays :
      (r : Result Failure A) (b : Bridge) (f : A → Action B)
      → ((a : A) → Stays P (f a))
      → P b.db.tables
      → P (continue (r, b) f).1.db.tables
  continue-Stays (ok a) b f k h = (k a).at b h
  continue-Stays (err e) b f k h = h

  pub Stays-bind :
      (m : Action A) (f : A → Action B) → Stays P m → ((a : A) → Stays P (f a)) → Stays P (m >>= f)
  Stays-bind m f k l = record {
    at = λ b h. let (r, b') = m b in continue-Stays r b' f l (k.at b h);
  }

module _ {A : Type 0} {Q : Tables → Type 0} where
  pub Ensures-raise : (e : Failure) → Ensures Q (raise {S = Bridge} {A = A} e)
  Ensures-raise e = record { at = λ b a h. absurd (err_ne_ok e a h) }

  pub Ensures-on_db :
      (m : Sql A) → ((db : Db) (a : A) → (m db).0 ≡ ok a → Q (m db).1.tables) → Ensures Q (on_db m)
  Ensures-on_db m k = record {
    at = λ b a h.
        let (r, db) = m b.db in
        subst (λ d. Q d.tables) (sym (lift-tables r db b)) (k b.db a (lift_ok r db b a h));
  }

module _ {A B : Type 0} {Q : Tables → Type 0} where
  continue-Ensures :
      (r : Result Failure A) (b : Bridge) (f : A → Action B) (x : B)
      → ((a : A) → Ensures Q (f a))
      → (continue (r, b) f).0 ≡ ok x
      → Q (continue (r, b) f).1.db.tables
  continue-Ensures (ok a) b f x k h = (k a).at b x h
  continue-Ensures (err e) b f x k h = absurd (err_ne_ok e x h)

  pub Ensures-bind :
      (m : Action A) (f : A → Action B) → ((a : A) → Ensures Q (f a)) → Ensures Q (m >>= f)
  Ensures-bind m f k = record { at = λ b x h. let (r, b') = m b in continue-Ensures r b' f x k h }

module _ (bad : Failure) {A : Type 0} where
  pub Avoids-on_db : Failure.database ≢ bad → (m : Sql A) → Avoids bad (on_db m)
  Avoids-on_db other m = record { at = λ b. let (r, db) = m b.db in lift-avoids bad r db b other }

module _ (bad : Failure) {A B : Type 0} where
  continue-Avoids :
      (r : Result Failure A) (b : Bridge) (f : A → Action B)
      → r ≢ err bad
      → ((a : A) → Avoids bad (f a))
      → (continue (r, b) f).0 ≢ err bad
  continue-Avoids (ok a) b f k l h = (l a).at b h
  continue-Avoids (err e) b f k l h = k (err_same e bad h)

  pub Avoids-bind :
      (m : Action A) (f : A → Action B)
      → Avoids bad m
      → ((a : A) → Avoids bad (f a))
      → Avoids bad (m >>= f)
  Avoids-bind m f k l = record { at = λ b. let (r, b') = m b in continue-Avoids r b' f (k.at b) l }
