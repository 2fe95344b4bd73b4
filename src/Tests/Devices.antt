-- ===== src/Tests/Devices.antt =====
-- Pairing, sessions and devices at concrete tokens.
use codex_app.Prelude.{
  ℕ, zero, suc, String, ◌≡◌, ◌≢◌, ◌≤◌, refl, false, none, some, [], ◌∷◌, ok, err, arith, ◌==◌, List,
  true, find_by,
}
use codex_app.Storage.{insert_device, device_by_id, revoke_device as revoke_row}
use codex_app.Storage.Devices.{DeviceCall, device_calls, accepted, known, device_calls-known}
use codex_app.Database.{Db}
use codex_app.Pairing.{
  PairingError, PairingManager, new, create_token, register_device_with_origin, create_session,
  validate_session_token, revoke_device,
}
use codex_app.Pairing.Calls.{validate, create, run_calls}
use codex_app.Pairing.Tokens.{token_used_once}
use codex_app.Pairing.Sessions.{Valid, validate-Valid}
use codex_app.Pairing.Revocation.{revoked_stays_out}
use codex_app.Tests.Records.{healthy, device}

abbrev clock : ℕ → ℕ
clock n = 100

abbrev uuid : ℕ → String
uuid zero = "pair"
uuid (suc n) = "session"

abbrev digest : String → String
digest text = text

-- A manager that has issued the token "pair".
abbrev issued : PairingManager
issued = record (new healthy) {
  uuids = 1;
  clock_reads = 1;
  pairing_tokens = record { token = "pair"; expires_at = 300_100; used = false } ∷ [];
}

-- One that has a session of the phone.
abbrev opened : PairingManager
opened = record (new healthy) {
  uuids = 1;
  session_tokens = record { token = "session"; device_id = "phone"; expires_at = 200 } ∷ [];
}

issued_by_create_token : create_token clock uuid digest (new healthy) ≡ (ok "pair", issued)
unfolding create_token
issued_by_create_token = refl

fresh : (k : ℕ) → 1 ≤ k → (uuid k == "pair") ≡ false
fresh zero h = absurd (omega (arith, h))
fresh (suc k) h = refl

token_used_once_example :
    (register_device_with_origin clock uuid digest "pair" "other" "Other" "s" none (
      run_calls clock uuid digest
        (create ∷ validate "session" ∷ [])
        (register_device_with_origin clock uuid digest "pair" "new" "New" "secret" none
          issued).1)).0
    ≡ err PairingError.token_already_used
unfolding register_device_with_origin
token_used_once_example =
    token_used_once clock uuid digest "pair" "new" "New" "secret" "other" "Other" "s" none none
      (create ∷ validate "session" ∷ []) issued
      (record { device_id = "new"; session_token = "session"; session_expires_at = 86_400_100 })
      fresh refl

validate-Valid_example : Valid opened 100 "session" "phone"
unfolding validate_session_token
validate-Valid_example = validate-Valid clock uuid digest "session" "phone" opened refl

revoked_stays_out_example :
    let after =
      run_calls clock uuid digest
        (create ∷ validate "session" ∷ [])
        (revoke_device clock uuid digest "phone" opened).1 in
    ((validate_session_token clock uuid digest "session" after).0 ≢ ok "phone")
    × ((create_session clock uuid digest "phone" "h" after).0
        ≢ ok (record { device_id = "phone"; session_token = "session"; session_expires_at = 1 }))
unfolding revoke_device
revoked_stays_out_example =
    revoked_stays_out "phone" clock uuid digest "session" "h" (create ∷ validate "session" ∷ [])
      opened (record { device_id = "phone"; session_token = "session"; session_expires_at = 1 })
      refl refl

-- The phone is inserted again with another time of creation, and revoked; an insertion of the tablet
-- is refused.
abbrev device_writes : List DeviceCall
device_writes =
    DeviceCall.insert (record (device "phone" (some 3)) { created_at = 5 })
    ∷ DeviceCall.insert (device "tablet" none)
    ∷ DeviceCall.revoke "phone" 9
    ∷ []

abbrev refusing_second : Db
refusing_second = record healthy { faults = false ∷ true ∷ [] }

device_calls-known_example :
    some (device "phone" (some 9))
    ≡ known "phone"
        (find_by (λ row. row.device_id == "phone") refusing_second.tables.devices)
        (accepted device_writes refusing_second)
unfolding insert_device revoke_row device_by_id device_calls
device_calls-known_example =
    device_calls-known device_writes "phone" refusing_second (some (device "phone" (some 9))) refl
