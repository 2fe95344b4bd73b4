-- ===== src/Pairing/Barred.antt =====
-- A device that is stored as revoked stays so over runs of calls that do not register it.
use codex_app.Prelude.{
  ℕ, String, ◌≡◌, ap, ◌∙◌, Bool, true, false, some, List, [], ◌∷◌, ◌==◌, arith, Result, ok, err,
  map_option, find_by, any_by, eq_iff, is_some, All, Preserves, upsert, update_where,
  find_by-upsert_other,
}
use codex_app.Database.{Db, DbError, Sql}
use codex_app.Database.Schema.{Device, Tables}
use codex_app.Database.Invariants.{Keeps, Keeps-statement}
use codex_app.Storage.{
  insert_device, replaced, revoke_device as revoke_row, device_by_id as row_by_id,
}
use codex_app.Pairing.{
  PairingError, PairingManager, map_err, stored, create_token, registration, now,
  mint_session_token_for_device_id,
}
use codex_app.Pairing.Calls.{Call, create, register, open_for, validate, revoke, Permitted, Kept}

-- The device is stored as revoked.
abbrev pub Revoked : String → Tables → Type 0
Revoked device_id t =
    map_option (λ d. is_some d.revoked_at) (find_by (λ row. row.device_id == device_id) t.devices)
    ≡ some true

abbrev pub registers : String → Call → Bool
registers d (register t device_id n s o) = device_id == d
registers d create = false
registers d (open_for device_id s) = false
registers d (validate s) = false
registers d (revoke device_id) = false

module _ (d : String) where
  insert_rows :
      (device : Device) (rows : List Device)
      → (device.device_id == d) ≡ false
      → find_by
          (λ row. row.device_id == d)
          (upsert (λ row. row.device_id == device.device_id) (replaced device) device rows)
        ≡ find_by (λ row. row.device_id == d) rows
  insert_rows device rows other =
      find_by-upsert_other _ (replaced device) (λ row. row.device_id == d) device other
        (λ x same. (
          ground (
            arith,
            eq_iff x.device_id device.device_id,
            eq_iff x.device_id d,
            eq_iff device.device_id d,
          ),
          other,
        ))
        rows

  insert-Keeps :
      (device : Device) → (device.device_id == d) ≡ false → Keeps (Revoked d) (insert_device device)
  unfolding insert_device
  insert-Keeps device other =
      Keeps-statement _ _ (λ t h.
        ap (map_option (λ x. is_some x.revoked_at)) (insert_rows device t.devices other) ∙ h)

  revoke_rows :
      (id : String) (at : ℕ) (rows : List Device)
      → map_option (λ x. is_some x.revoked_at) (find_by (λ row. row.device_id == d) rows)
        ≡ some true
      → map_option
          (λ x. is_some x.revoked_at)
          (find_by
            (λ row. row.device_id == d)
            (update_where
              (λ row. row.device_id == id)
              (λ row. record row { revoked_at = some at })
              rows))
        ≡ some true
  revoke_rows id at [] h = h
  revoke_rows id at (x ∷ rows) h = ground (arith, revoke_rows id at rows)

  revoke-Keeps : (id : String) (at : ℕ) → Keeps (Revoked d) (revoke_row id at)
  unfolding revoke_row
  revoke-Keeps id at = Keeps-statement _ _ (λ t h. revoke_rows id at t.devices h)

  read-Keeps : (id : String) → Keeps (Revoked d) (row_by_id id)
  unfolding row_by_id
  read-Keeps id = Keeps-statement _ _ (λ t h. h)

  abbrev pub Barred : PairingManager → Type 0
  Barred m = Revoked d m.db.tables

  stored-Barred :
      {A : Type 0} (e : PairingError) (call : Sql A)
      → Keeps (Revoked d) call
      → Preserves Barred (stored e call)
  stored-Barred e call k = record { at = λ m h. let (r, db) = call m.db in go r db m (k.at m.db h) }
    where
      go :
          {A : Type 0} (r : Result DbError A) (db : Db) (m : PairingManager)
          → Revoked d db.tables
          → Barred (map_err e (r, db) m).1
      go (ok a) db m h = h
      go (err x) db m h = h

  module _ (now_ms : ℕ → ℕ) (new_v4 : ℕ → String) (sha256_hex : String → String) where
    now-Barred : Preserves Barred (now now_ms new_v4 sha256_hex)
    now-Barred = record { at = λ m h. h }

    registration-Barred :
        (id : String) → Preserves Barred (registration now_ms new_v4 sha256_hex id)
    unfolding mint_session_token_for_device_id
    registration-Barred id = record { at = λ m h. h }

    create-Barred :
        (m : PairingManager) → Barred m → Barred (create_token now_ms new_v4 sha256_hex m).1
    unfolding create_token
    create-Barred m h = h

    pub Barred-Kept : Kept now_ms new_v4 sha256_hex Barred (λ id. (id == d) ≡ false)
    Barred-Kept = record {
      ticks = now-Barred;
      looks_up = λ id. stored-Barred _ _ (read-Keeps id);
      inserts = λ device other. stored-Barred _ _ (insert-Keeps device other);
      revokes = λ id at. stored-Barred _ _ (revoke-Keeps id at);
      marks = λ token. record { at = λ m h. h };
      issues = record { at = create-Barred };
      opens = registration-Barred;
    }

    pub others-Permitted :
        (calls : List Call)
        → any_by (registers d) calls ≡ false
        → All (Permitted (λ id. (id == d) ≡ false)) calls
    others-Permitted [] h = tt
    others-Permitted (create ∷ rest) h = (tt, others-Permitted rest h)
    others-Permitted (register t id n s o ∷ rest) h =
        (ground arith, others-Permitted rest (ground arith))
    others-Permitted (open_for id s ∷ rest) h = (tt, others-Permitted rest h)
    others-Permitted (validate s ∷ rest) h = (tt, others-Permitted rest h)
    others-Permitted (revoke id ∷ rest) h = (tt, others-Permitted rest h)
