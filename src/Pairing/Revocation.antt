-- ===== src/Pairing/Revocation.antt =====
-- A revoked device gets no session.
use codex_app.Prelude.{
  ℕ, String, ◌≡◌, ◌≢◌, ◌+◌, refl, ap, ◌∙◌, Bool, true, false, Option, none, some, List, ◌==◌, arith,
  Result, ok, err, map_option, find_by, any_by, is_some, if◌then◌else◌, continue, raise, some_eq,
  update_where, find_by-update_where_self,
}
use codex_app.Database.{Db, DbError}
use codex_app.Database.Schema.{Device, Tables}
use codex_app.Storage.{revoke_device as revoke_row, device_by_id as row_by_id}
use codex_app.Pairing.{
  PairingError, PairingManager, Pairing, DeviceRegistration, map_err, create_session,
  validate_session_token, revoke_device, open_session, revoke_found,
}
use codex_app.Pairing.Calls.{Call, run_calls, run_calls-keeps}
use codex_app.Pairing.Sessions.{validate-Valid, row_read, row_read-tables}
use codex_app.Pairing.Barred.{Revoked, registers, Barred, Barred-Kept, others-Permitted}

revoke_row-ok :
    (id : String) (at : ℕ) (db : Db)
    → (revoke_row id at db).0 ≡ ok tt
    → (revoke_row id at db).1.tables.devices
      ≡ update_where
          (λ row. row.device_id == id)
          (λ row. record row { revoked_at = some at })
          db.tables.devices
unfolding revoke_row
revoke_row-ok id at db h = ground arith

module _ (d : String) (now_ms : ℕ → ℕ) (new_v4 : ℕ → String) (sha256_hex : String → String) where
  after_revoke :
      (x : Device) (db : Db) (r : Result DbError (Unit {0})) (db' : Db) (at : ℕ)
      (m : PairingManager)
      → find_by (λ row. row.device_id == d) db.tables.devices ≡ some x
      → (r ≡ ok tt
          → db'.tables.devices
            ≡ update_where
                (λ row. row.device_id == d)
                (λ row. record row { revoked_at = some at })
                db.tables.devices)
      → (map_err PairingError.device_not_found (r, db') m).0 ≡ ok tt
      → Barred d (map_err PairingError.device_not_found (r, db') m).1
  after_revoke x db (err e) db' at m found rows h = cc
  after_revoke x db (ok a) db' at m found rows h = rw (rows refl) (
      ap (map_option (λ y. is_some y.revoked_at))
        (find_by-update_where_self (λ row. row.device_id == d) _ (λ y k. k) db.tables.devices)
      ∙ rw found refl)

  after_lookup :
      (r : Result DbError (Option Device)) (db : Db) (m : PairingManager)
      → ((o : Option Device) → r ≡ ok o → find_by (λ row. row.device_id == d) db.tables.devices ≡ o)
      → (continue
          (map_err PairingError.device_not_found (r, db) m)
          (revoke_found now_ms new_v4 sha256_hex d)).0
        ≡ ok tt
      → Barred d
          (continue
            (map_err PairingError.device_not_found (r, db) m)
            (revoke_found now_ms new_v4 sha256_hex d)).1
  after_lookup (err e) db m found h = cc
  after_lookup (ok none) db m found h = cc
  after_lookup (ok (some x)) db m found h =
      let at = now_ms m.clock_reads in
      let (r, db') = revoke_row d at db in
      after_revoke x db r db' at (record m { db = db; clock_reads = m.clock_reads + 1 })
        (found (some x) refl) (revoke_row-ok d at db) h

  found_after :
      (db : Db) (o : Option Device)
      → (row_by_id d db).0 ≡ ok o
      → find_by (λ row. row.device_id == d) (row_by_id d db).1.tables.devices ≡ o
  found_after db o h = rw (row_read-tables d db) (row_read d db o h)

  -- A successful revocation leaves the device as revoked.
  revoke-revokes :
      (m : PairingManager)
      → (revoke_device now_ms new_v4 sha256_hex d m).0 ≡ ok tt
      → Barred d (revoke_device now_ms new_v4 sha256_hex d m).1
  unfolding revoke_device
  revoke-revokes m h = let (r, db) = row_by_id d m.db in after_lookup r db m (found_after m.db) h

  standing-Revoked :
      (t : Tables) (y : Device)
      → find_by (λ row. row.device_id == d) t.devices ≡ some y
      → y.revoked_at ≡ none
      → Revoked d t
      → ⊥
  standing-Revoked t y found active h = ground arith

  no_session :
      (secret : String) (r : Result DbError (Option Device)) (db : Db) (m : PairingManager)
      (reg : DeviceRegistration)
      → ((o : Option Device) → r ≡ ok o → map_option (λ x. is_some x.revoked_at) o ≡ some true)
      → (continue
          (map_err PairingError.device_not_found (r, db) m)
          (open_session now_ms new_v4 sha256_hex d secret)).0
        ≢ ok reg
  no_session secret (err e) db m reg out h = cc
  no_session secret (ok none) db m reg out h = cc
  no_session secret (ok (some x)) db m reg out h =
      refused_session _ (is_some x.revoked_at) (some_eq (out (some x) refl)) h
    where
      refused_session :
          (n : Pairing DeviceRegistration) (revoked : Bool)
          → revoked ≡ true
          → ((if revoked then raise PairingError.device_revoked else n) (record m { db = db })).0
            ≡ ok reg
          → ⊥
      refused_session n true e k = cc
      refused_session n false e k = cc

  no_session_ever :
      (secret : String) (m : PairingManager) (reg : DeviceRegistration)
      → Barred d m
      → (create_session now_ms new_v4 sha256_hex d secret m).0 ≢ ok reg
  unfolding create_session
  no_session_ever secret m reg h =
      let (r, db) = row_by_id d m.db in
      no_session secret r db m reg (λ o e. rw (← row_read d m.db o e) h)

  -- Once a device is revoked, no session is valid for it and it is given no session, whatever calls
  -- are made in between and whichever of their statements the database refuses, unless one of
  -- them registers the device again.
  pub revoked_stays_out :
      (token secret : String) (calls : List Call) (m : PairingManager) (r : DeviceRegistration)
      → any_by (registers d) calls ≡ false
      → (revoke_device now_ms new_v4 sha256_hex d m).0 ≡ ok tt
      → let after =
          run_calls now_ms new_v4 sha256_hex calls (revoke_device now_ms new_v4 sha256_hex d m).1 in
        ((validate_session_token now_ms new_v4 sha256_hex token after).0 ≢ ok d)
        × ((create_session now_ms new_v4 sha256_hex d secret after).0 ≢ ok r)
  revoked_stays_out token secret calls m r other h =
      let after =
        run_calls now_ms new_v4 sha256_hex calls (revoke_device now_ms new_v4 sha256_hex d m).1 in
      let barred : Barred d after =
        run_calls-keeps now_ms new_v4 sha256_hex (Barred d) _
          (Barred-Kept d now_ms new_v4 sha256_hex) calls _
          (others-Permitted d now_ms new_v4 sha256_hex calls other) (revoke-revokes m h) in
      (
        λ k.
            let v = validate-Valid now_ms new_v4 sha256_hex token d after k in
            standing-Revoked after.db.tables v.device v.in_table v.not_revoked barred,
        no_session_ever secret after r barred,
      )
