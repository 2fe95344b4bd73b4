-- ===== src/Pairing.antt =====
-- crates/bridge-core/src/pairing.rs: pairing tokens, sessions, and the devices they stand for.
-- The clock and the generator of UUIDs are given by the number of times they have been asked;
-- `hash_secret` uses the digest of the sha2 crate, which is a parameter.
pub mod Calls
pub mod Tokens
pub mod Sessions
pub mod Barred
pub mod Revocation
use codex_app.Prelude.{
  ℕ, String, Bool, true, false, Option, none, some, List, [], ◌∷◌, ◌==◌, ◌+◌, not, is_some, find_by,
  upsert, update_where, leb, add_u64, map_option, Exec, Result, ok, err, pure, raise, ◌>>=◌, ◌>>◌,
  if◌then◌else◌,
}
use codex_app.Database.{Db, DbError, Sql}
use codex_app.Database.Schema.{Device}
use codex_app.Storage.{
  insert_device, revoke_device as revoke_row, device_by_id as row_by_id,
  active_devices as active_rows,
}

pub record DeviceRegistration : Type 0 where
  pub device_id : String
  pub session_token : String
  pub session_expires_at : ℕ

pub data PairingError : Type 0 where
  invalid_token expired_token token_already_used device_revoked device_not_found : PairingError

-- An entry of the map of pairing tokens, with its key.
pub record PairingToken : Type 0 where
  pub token : String
  pub expires_at : ℕ
  pub used : Bool

-- An entry of the map of session tokens, with its key.
pub record SessionToken : Type 0 where
  pub token : String
  pub device_id : String
  pub expires_at : ℕ

pub record PairingManager : Type 0 where
  pub db : Db
  pub clock_reads : ℕ
  pub uuids : ℕ
  pub pairing_token_ttl_ms : ℕ
  pub session_token_ttl_ms : ℕ
  pub pairing_tokens : List PairingToken
  pub session_tokens : List SessionToken

abbrev pub default_pairing_token_ttl_ms : ℕ
default_pairing_token_ttl_ms = 300_000

abbrev pub default_session_token_ttl_ms : ℕ
default_session_token_ttl_ms = 86_400_000

abbrev pub with_clock_and_ttls : Db → ℕ → ℕ → PairingManager
with_clock_and_ttls db pairing_ttl session_ttl = record {
  db = db;
  clock_reads = 0;
  uuids = 0;
  pairing_token_ttl_ms = pairing_ttl;
  session_token_ttl_ms = session_ttl;
  pairing_tokens = [];
  session_tokens = [];
}

abbrev pub new : Db → PairingManager
new db = with_clock_and_ttls db default_pairing_token_ttl_ms default_session_token_ttl_ms

abbrev pub Pairing : Type 0 → Type 0
Pairing A = Exec PairingError PairingManager A

abbrev pub map_err :
    {A : Type 0}
    → PairingError
    → Result DbError A × Db
    → PairingManager
    → Result PairingError A × PairingManager
map_err e (ok a, db) m = (ok a, record m { db = db })
map_err e (err _, db) m = (err e, record m { db = db })

-- A call of the storage, whose failure is answered as `e`.
abbrev pub stored : {A : Type 0} → PairingError → Sql A → Pairing A
stored e call m = map_err e (call m.db) m

abbrev pub get_pairing : String → PairingManager → Option PairingToken
get_pairing token m = find_by (λ e. e.token == token) m.pairing_tokens

abbrev pub get_session : String → PairingManager → Option SessionToken
get_session token m = find_by (λ e. e.token == token) m.session_tokens

abbrev pub mark_used : String → Pairing (Unit {0})
mark_used token m = (
  ok tt,
  record m {
    pairing_tokens =
        update_where (λ e. e.token == token) (λ e. record e { used = true }) m.pairing_tokens;
  },
)

abbrev pub device_by_id : String → Pairing (Option Device)
device_by_id device_id = stored device_not_found (row_by_id device_id)

module _ (now_ms : ℕ → ℕ) (new_v4 : ℕ → String) (sha256_hex : String → String) where
  abbrev pub now : Pairing ℕ
  now m = (ok (now_ms m.clock_reads), record m { clock_reads = m.clock_reads + 1 })

  abbrev pub new_token : Pairing String
  new_token m = (ok (new_v4 m.uuids), record m { uuids = m.uuids + 1 })

  abbrev pub hash_secret : String → String
  hash_secret secret = sha256_hex secret

  -- The entry of a token that is issued at a time.
  abbrev pub issue_pairing : String → ℕ → Pairing (Unit {0})
  issue_pairing token at m =
      let entry : PairingToken = record {
        token = token;
        expires_at = add_u64 at m.pairing_token_ttl_ms;
        used = false;
      } in
      (
        ok tt,
        record m {
          pairing_tokens = upsert (λ e. e.token == entry.token) (λ _. entry) entry m.pairing_tokens;
        },
      )

  -- The entry of a session that is opened at a time, and when it expires.
  abbrev pub issue_session : String → String → ℕ → Pairing ℕ
  issue_session token device_id at m =
      let entry : SessionToken = record {
        token = token;
        device_id = device_id;
        expires_at = add_u64 at m.session_token_ttl_ms;
      } in
      (
        ok entry.expires_at,
        record m {
          session_tokens = upsert (λ e. e.token == entry.token) (λ _. entry) entry m.session_tokens;
        },
      )

  unfoldable pub create_token : Pairing String
  create_token = do token ← new_token; at ← now; issue_pairing token at; pure token

  unfoldable pub mint_session_token_for_device_id : String → Pairing (String × ℕ)
  mint_session_token_for_device_id device_id = do
    token ← new_token
    at ← now
    expires_at ← issue_session token device_id at
    pure (token, expires_at)

  abbrev pub registration : String → Pairing DeviceRegistration
  registration device_id = do
    (token, expires_at) ← mint_session_token_for_device_id device_id
    pure (record { device_id = device_id; session_token = token; session_expires_at = expires_at })

  -- The checks of a pairing token.
  abbrev pub acceptable : ℕ → Option PairingToken → Pairing (Unit {0})
  acceptable at none = raise invalid_token
  acceptable at (some token) =
      if token.used
      then raise token_already_used
      else if leb token.expires_at at
      then raise expired_token
      else pure tt

  abbrev pub registered : String → String → String → Option String → ℕ → Device
  registered device_id display_name device_secret paired_origin at = record {
    device_id = device_id;
    display_name = display_name;
    secret_hash = hash_secret device_secret;
    paired_origin = paired_origin;
    created_at = at;
    last_seen_at = at;
    revoked_at = none;
  }

  unfoldable pub register_device_with_origin :
      String → String → String → String → Option String → Pairing DeviceRegistration
  unfolding insert_device mint_session_token_for_device_id
  register_device_with_origin pairing_token device_id display_name device_secret paired_origin = do
    at ← now
    token ← (λ m. (ok (get_pairing pairing_token m), m))
    acceptable at token
    stored invalid_token
        (insert_device (registered device_id display_name device_secret paired_origin at))
    mark_used pairing_token
    registration device_id

  unfoldable pub register_device : String → String → String → String → Pairing DeviceRegistration
  unfolding register_device_with_origin
  register_device pairing_token device_id display_name device_secret =
      register_device_with_origin pairing_token device_id display_name device_secret none

  -- The answer to a device that asks for a session.
  abbrev pub open_session : String → String → Option Device → Pairing DeviceRegistration
  open_session device_id device_secret none = raise device_not_found
  open_session device_id device_secret (some device) =
      if is_some device.revoked_at
      then raise device_revoked
      else if not (device.secret_hash == hash_secret device_secret)
      then raise invalid_token
      else registration device_id

  unfoldable pub create_session : String → String → Pairing DeviceRegistration
  unfolding row_by_id mint_session_token_for_device_id
  create_session device_id device_secret = do
    device ← device_by_id device_id
    open_session device_id device_secret device

  unfoldable pub create_session_token : String → String → Pairing String
  unfolding create_session
  create_session_token device_id device_secret = do
    opened ← create_session device_id device_secret
    pure opened.session_token

  abbrev pub standing : String → Option Device → Pairing String
  standing device_id none = raise device_not_found
  standing device_id (some device) =
      if is_some device.revoked_at then raise device_revoked else pure device_id

  abbrev pub validated : Option SessionToken → Pairing String
  validated none = raise invalid_token
  validated (some token) = do
    at ← now
    if leb token.expires_at at
        then raise expired_token
        else (do device ← device_by_id token.device_id; standing token.device_id device)

  unfoldable pub validate_session_token : String → Pairing String
  unfolding row_by_id
  validate_session_token session_token m = validated (get_session session_token m) m

  abbrev pub revoke_found : String → Option Device → Pairing (Unit {0})
  revoke_found device_id none = raise device_not_found
  revoke_found device_id (some device) = do
    at ← now
    stored device_not_found (revoke_row device_id at)

  unfoldable pub revoke_device : String → Pairing (Unit {0})
  unfolding row_by_id revoke_row
  revoke_device device_id = do device ← device_by_id device_id; revoke_found device_id device

abbrev pub active_devices : Pairing (List Device)
active_devices = stored device_not_found active_rows
