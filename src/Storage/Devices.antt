-- ===== src/Storage/Devices.antt =====
-- The table of paired devices as a map from ids to devices.
use codex_app.Prelude.{
  ℕ, String, ◌≡◌, refl, ap, ◌∙◌, Option, none, some, List, [], ◌∷◌, ◌==◌, arith, Result, ok, err,
  find_by, upsert, update_where, eq_iff, if◌then◌else◌,
}
use codex_app.Database.{Db, DbError, Sql}
use codex_app.Database.Schema.{Device}
use codex_app.Storage.{insert_device, revoke_device, device_by_id, replaced}

-- The writes to the table.
pub data DeviceCall : Type 0 where
  insert : Device → DeviceCall
  revoke : String → ℕ → DeviceCall

abbrev pub device_call : DeviceCall → Sql (Unit {0})
unfolding insert_device revoke_device
device_call (insert device) = insert_device device
device_call (revoke device_id at) = revoke_device device_id at

-- The state after some calls, and the calls that were accepted.
unfoldable pub device_calls : List DeviceCall → Db → Db
unfolding device_call
device_calls [] db = db
device_calls (c ∷ calls) db = device_calls calls (device_call c db).1

abbrev keep_if : Result DbError (Unit {0}) → DeviceCall → List DeviceCall → List DeviceCall
keep_if (ok u) c calls = c ∷ calls
keep_if (err e) c calls = calls

unfoldable pub accepted : List DeviceCall → Db → List DeviceCall
unfolding device_call
accepted [] db = []
accepted (c ∷ calls) db = keep_if (device_call c db).0 c (accepted calls (device_call c db).1)

-- What is known of one id: an insertion keeps nothing of a device that was known but the time of its
-- creation, and a revocation writes its time to a known device.
abbrev pub renewed : Device → Option Device → Option Device
renewed device none = some device
renewed device (some known) = some record {
  device_id = device.device_id;
  display_name = device.display_name;
  secret_hash = device.secret_hash;
  paired_origin = device.paired_origin;
  created_at = known.created_at;
  last_seen_at = device.last_seen_at;
  revoked_at = device.revoked_at;
}

abbrev pub barred : ℕ → Option Device → Option Device
barred at none = none
barred at (some known) = some (record known { revoked_at = some at })

abbrev pub known_after : String → DeviceCall → Option Device → Option Device
known_after id (insert device) o = if device.device_id == id then renewed device o else o
known_after id (revoke device_id at) o = if device_id == id then barred at o else o

abbrev pub known : String → Option Device → List DeviceCall → Option Device
known id o [] = o
known id o (c ∷ calls) = known id (known_after id c o) calls

inserted_rows :
    (device : Device) (id : String) (rows : List Device)
    → find_by
        (λ row. row.device_id == id)
        (upsert (λ row. row.device_id == device.device_id) (replaced device) device rows)
      ≡ known_after id (insert device) (find_by (λ row. row.device_id == id) rows)
inserted_rows device id [] = ground arith
inserted_rows device id (x ∷ rows) = ground (
  arith,
  eq_iff x.device_id device.device_id,
  eq_iff device.device_id id,
  eq_iff x.device_id id,
  inserted_rows device id rows,
)

revoked_rows :
    (device_id : String) (at : ℕ) (id : String) (rows : List Device)
    → find_by
        (λ row. row.device_id == id)
        (update_where
          (λ row. row.device_id == device_id)
          (λ row. record row { revoked_at = some at })
          rows)
      ≡ known_after id (revoke device_id at) (find_by (λ row. row.device_id == id) rows)
revoked_rows device_id at id [] = ground arith
revoked_rows device_id at id (x ∷ rows) = ground (
  arith,
  eq_iff x.device_id device_id,
  eq_iff device_id id,
  eq_iff x.device_id id,
  revoked_rows device_id at id rows,
)

-- The rows of a search for an id.
abbrev found : String → Db → Option Device
found id db = find_by (λ row. row.device_id == id) db.tables.devices

insert_ok :
    (device : Device) (db : Db)
    → (insert_device device db).0 ≡ ok tt
    → (insert_device device db).1.tables.devices
      ≡ upsert (λ row. row.device_id == device.device_id) (replaced device) device db.tables.devices
unfolding insert_device
insert_ok device db h = ground arith

revoke_ok :
    (device_id : String) (at : ℕ) (db : Db)
    → (revoke_device device_id at db).0 ≡ ok tt
    → (revoke_device device_id at db).1.tables.devices
      ≡ update_where
          (λ row. row.device_id == device_id)
          (λ row. record row { revoked_at = some at })
          db.tables.devices
unfolding revoke_device
revoke_ok device_id at db h = ground arith

read_ok :
    (id : String) (db : Db) (o : Option Device) → (device_by_id id db).0 ≡ ok o → o ≡ found id db
unfolding device_by_id
read_ok id db o h = ground arith

call_ok :
    (id : String) (c : DeviceCall) (db : Db)
    → (device_call c db).0 ≡ ok tt
    → found id (device_call c db).1 ≡ known_after id c (found id db)
unfolding device_call
call_ok id (insert device) db h =
    ap (find_by (λ row. row.device_id == id)) (insert_ok device db h)
    ∙ inserted_rows device id db.tables.devices
call_ok id (revoke device_id at) db h =
    ap (find_by (λ row. row.device_id == id)) (revoke_ok device_id at db h)
    ∙ revoked_rows device_id at id db.tables.devices

call_err :
    (id : String) (c : DeviceCall) (db : Db) (e : DbError)
    → (device_call c db).0 ≡ err e
    → found id (device_call c db).1 ≡ found id db
unfolding device_call insert_device revoke_device
call_err id (insert device) db e h = ground arith
call_err id (revoke device_id at) db e h = ground arith

calls_found :
    (id : String) (calls : List DeviceCall) (db : Db)
    → found id (device_calls calls db) ≡ known id (found id db) (accepted calls db)
unfolding device_calls accepted
calls_found id [] db = refl
calls_found id (c ∷ calls) db =
    calls_found id calls (device_call c db).1 ∙ go (device_call c db).0 refl
  where
    rest : List DeviceCall
    rest = accepted calls (device_call c db).1

    go :
        (r : Result DbError (Unit {0}))
        → (device_call c db).0 ≡ r
        → known id (found id (device_call c db).1) rest ≡ known id (found id db) (keep_if r c rest)
    go (ok tt) e = ap (λ o. known id o rest) (call_ok id c db e)
    go (err x) e = ap (λ o. known id o rest) (call_err id c db x e)

-- After any insertions and revocations, whichever of their statements were refused, an accepted read
-- of an id answers what a map from ids to devices holds after the accepted ones alone: an insertion
-- gives its id the device, with the time of creation of the device that was known before, if one was,
-- and the revocation of a known device gives it the time of the revocation and changes nothing else.
pub device_calls-known :
    (calls : List DeviceCall) (id : String) (db : Db) (o : Option Device)
    → (device_by_id id (device_calls calls db)).0 ≡ ok o
    → o ≡ known id (find_by (λ row. row.device_id == id) db.tables.devices) (accepted calls db)
device_calls-known calls id db o h =
    read_ok id (device_calls calls db) o h ∙ calls_found id calls db
