-- ===== src/Pairing/Sessions.antt =====
-- What a valid session stands for.
use codex_app.Prelude.{
  ℕ, String, ◌≡◌, ◌<◌, ◌+◌, refl, Bool, true, false, Option, none, some, ◌==◌, arith, Result, ok,
  err, leb, find_by, is_some, if◌then◌else◌, continue, pure, raise, ◌>>=◌,
}
use codex_app.Database.{Db, DbError}
use codex_app.Database.Schema.{Device}
use codex_app.Storage.{device_by_id as row_by_id}
use codex_app.Pairing.{
  SessionToken, PairingError, PairingManager, map_err, get_session, device_by_id,
  validate_session_token, standing, validated,
}

-- What is known of a session that is answered as valid for a device.
pub record Valid (m : PairingManager) (at : ℕ) (token device_id : String) : Type 0 where
  pub session : SessionToken
  pub device : Device
  pub in_map : get_session token m ≡ some session
  pub of_device : session.device_id ≡ device_id
  pub unexpired : at < session.expires_at
  pub in_table : find_by (λ row. row.device_id == device_id) m.db.tables.devices ≡ some device
  pub not_revoked : device.revoked_at ≡ none

pub row_read :
    (id : String) (db : Db) (o : Option Device)
    → (row_by_id id db).0 ≡ ok o
    → find_by (λ row. row.device_id == id) db.tables.devices ≡ o
unfolding row_by_id
row_read id db o h = ground arith

pub row_read-tables : (id : String) (db : Db) → (row_by_id id db).1.tables ≡ db.tables
unfolding row_by_id
row_read-tables id db = ground arith

module _ (now_ms : ℕ → ℕ) (new_v4 : ℕ → String) (sha256_hex : String → String) where
  standing_ok :
      (id d : String) (revoked : Option ℕ) (m : PairingManager)
      → ((if is_some revoked then raise PairingError.device_revoked else pure id) m).0 ≡ ok d
      → (id ≡ d) × (revoked ≡ none)
  standing_ok id d none m h = (ground arith, refl)
  standing_ok id d (some n) m h = cc

  after_read :
      (id d : String) (r : Result DbError (Option Device)) (db : Db) (m : PairingManager)
      → (continue
          (map_err PairingError.device_not_found (r, db) m)
          (standing now_ms new_v4 sha256_hex id)).0
        ≡ ok d
      → (id ≡ d) × (y : Device) × (r ≡ ok (some y)) × (y.revoked_at ≡ none)
  after_read id d (err e) db m h = cc
  after_read id d (ok none) db m h = cc
  after_read id d (ok (some y)) db m h =
      let (same, active) = standing_ok id d y.revoked_at (record m { db = db }) h in
      (same, y, refl, active)

  after_now :
      (d : String) (x : SessionToken) (at : ℕ) (late : Bool) (m : PairingManager)
      → ((if late then raise PairingError.expired_token else (do
        device ← device_by_id x.device_id
        standing now_ms new_v4 sha256_hex x.device_id device))
          m).0
        ≡ ok d
      → (late ≡ false)
        × (x.device_id ≡ d)
        × (y : Device) × (find_by (λ row. row.device_id == x.device_id) m.db.tables.devices
            ≡ some y)
        × (y.revoked_at ≡ none)
  after_now d x at true m h = cc
  after_now d x at false m h =
      let (r, db) = row_by_id x.device_id m.db in
      let (same, y, read, active) = after_read x.device_id d r db m h in
      (refl, same, y, row_read x.device_id m.db (some y) read, active)

  -- A session is answered as valid only if it is in the map, has not expired at the time that is
  -- read, and its device, the one that is answered, is stored and not revoked.
  pub validate-Valid :
      (token device_id : String) (m : PairingManager)
      → (validate_session_token now_ms new_v4 sha256_hex token m).0 ≡ ok device_id
      → Valid m (now_ms m.clock_reads) token device_id
  unfolding validate_session_token row_by_id
  validate-Valid token device_id m h = go (get_session token m) refl h
    where
      go :
          (o : Option SessionToken)
          → get_session token m ≡ o
          → (validated now_ms new_v4 sha256_hex o m).0 ≡ ok device_id
          → Valid m (now_ms m.clock_reads) token device_id
      go none e k = cc
      go (some x) e k =
          let (late, same, y, read, active) =
            after_now device_id x (now_ms m.clock_reads) (leb x.expires_at (now_ms m.clock_reads))
              (record m { clock_reads = m.clock_reads + 1 }) k in
          record {
            session = x;
            device = y;
            in_map = e;
            of_device = same;
            unexpired = ground arith;
            in_table = rw (← same) read;
            not_revoked = active;
          }
