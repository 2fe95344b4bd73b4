-- ===== src/Pairing/Calls.antt =====
-- Runs of calls of the pairing manager, and what they keep.
use codex_app.Prelude.{
  ℕ, String, Bool, true, false, Option, none, some, List, [], ◌∷◌, ◌==◌, not, ok, leb, is_some,
  if◌then◌else◌, Preserves, Preserves-pure, Preserves-raise, Preserves-bind, All,
}
use codex_app.Database.Schema.{Device}
use codex_app.Storage.{insert_device, revoke_device as revoke_row}
use codex_app.Pairing.{
  PairingToken, SessionToken, PairingError, PairingManager, Pairing, stored, get_pairing,
  get_session, mark_used, device_by_id, create_token, register_device_with_origin, create_session,
  validate_session_token, revoke_device, acceptable, open_session, standing, validated,
  revoke_found, registration, now, registered,
}

-- The calls that change the manager.
pub data Call : Type 0 where
  create : Call
  register :
      (pairing_token device_id display_name device_secret : String) (paired_origin : Option String)
      → Call
  open_for : (device_id device_secret : String) → Call
  validate : (session_token : String) → Call
  revoke : (device_id : String) → Call

pub if-Preserves :
    {A : Type 0} {I : PairingManager → Type 0} (c : Bool) {m n : Pairing A}
    → Preserves I m
    → Preserves I n
    → Preserves I (if c then m else n)
if-Preserves true k l = k
if-Preserves false k l = l

module _ (now_ms : ℕ → ℕ) (new_v4 : ℕ → String) (sha256_hex : String → String) where
  abbrev pub run_call : Call → PairingManager → PairingManager
  run_call create m = (create_token now_ms new_v4 sha256_hex m).1
  run_call (register t d n s o) m =
      (register_device_with_origin now_ms new_v4 sha256_hex t d n s o m).1
  run_call (open_for d s) m = (create_session now_ms new_v4 sha256_hex d s m).1
  run_call (validate s) m = (validate_session_token now_ms new_v4 sha256_hex s m).1
  run_call (revoke d) m = (revoke_device now_ms new_v4 sha256_hex d m).1

  abbrev pub run_calls : List Call → PairingManager → PairingManager
  run_calls [] m = m
  run_calls (call ∷ rest) m = run_calls rest (run_call call m)

-- A call registers no device but those of a kind.
abbrev pub Permitted : (String → Type 0) → Call → Type 0
Permitted Q (register t d n s o) = Q d
Permitted Q create = Unit
Permitted Q (open_for d s) = Unit
Permitted Q (validate s) = Unit
Permitted Q (revoke d) = Unit

module _ (now_ms : ℕ → ℕ) (new_v4 : ℕ → String) (sha256_hex : String → String) where
  -- The steps of the calls keep a property of the manager, where the devices that are registered are
  -- of a kind.
  pub record Kept (I : PairingManager → Type 0) (Q : String → Type 0) : Type 0 where
    pub ticks : Preserves I (now now_ms new_v4 sha256_hex)
    pub looks_up : (id : String) → Preserves I (device_by_id id)
    pub inserts :
        (device : Device)
        → Q device.device_id
        → Preserves I (stored PairingError.invalid_token (insert_device device))
    pub revokes :
        (id : String) (at : ℕ)
        → Preserves I (stored PairingError.device_not_found (revoke_row id at))
    pub marks : (token : String) → Preserves I (mark_used token)
    pub issues : Preserves I (create_token now_ms new_v4 sha256_hex)
    pub opens : (id : String) → Preserves I (registration now_ms new_v4 sha256_hex id)

  module _ (I : PairingManager → Type 0) (Q : String → Type 0) (kept : Kept I Q) where
    acceptable-keeps :
        (at : ℕ) (o : Option PairingToken) → Preserves I (acceptable now_ms new_v4 sha256_hex at o)
    acceptable-keeps at none = Preserves-raise _
    acceptable-keeps at (some e) =
        if-Preserves e.used (Preserves-raise _)
          (if-Preserves (leb e.expires_at at) (Preserves-raise _) (Preserves-pure _))

    register-keeps :
        (k d n s : String) (o : Option String)
        → Q d
        → Preserves I (register_device_with_origin now_ms new_v4 sha256_hex k d n s o)
    unfolding register_device_with_origin
    register-keeps k d n s o allowed =
        Preserves-bind (now now_ms new_v4 sha256_hex) _ kept.ticks λ at.
          Preserves-bind {A = Option PairingToken} (λ m. (ok (get_pairing k m), m)) _
            (record { at = λ m h. h })
            λ found.
              Preserves-bind (acceptable now_ms new_v4 sha256_hex at found) _
                (acceptable-keeps at found)
                λ _.
                  Preserves-bind
                    (stored PairingError.invalid_token
                      (insert_device (registered now_ms new_v4 sha256_hex d n s o at)))
                    _ (kept.inserts (registered now_ms new_v4 sha256_hex d n s o at) allowed)
                    λ _. Preserves-bind (mark_used k) _ (kept.marks k) λ _. kept.opens d

    open-keeps :
        (d s : String) (o : Option Device)
        → Preserves I (open_session now_ms new_v4 sha256_hex d s o)
    open-keeps d s none = Preserves-raise _
    open-keeps d s (some x) =
        if-Preserves (is_some x.revoked_at) (Preserves-raise _)
          (if-Preserves (not (x.secret_hash == sha256_hex s)) (Preserves-raise _) (kept.opens d))

    create_session-keeps :
        (d s : String) → Preserves I (create_session now_ms new_v4 sha256_hex d s)
    unfolding create_session
    create_session-keeps d s = Preserves-bind (device_by_id d) _ (kept.looks_up d) (open-keeps d s)

    standing-keeps :
        (d : String) (o : Option Device) → Preserves I (standing now_ms new_v4 sha256_hex d o)
    standing-keeps d none = Preserves-raise _
    standing-keeps d (some x) =
        if-Preserves (is_some x.revoked_at) (Preserves-raise _) (Preserves-pure _)

    validated-keeps : (o : Option SessionToken) → Preserves I (validated now_ms new_v4 sha256_hex o)
    validated-keeps none = Preserves-raise _
    validated-keeps (some e) = Preserves-bind (now now_ms new_v4 sha256_hex) _ kept.ticks λ at.
        if-Preserves (leb e.expires_at at) (Preserves-raise PairingError.expired_token) (
          Preserves-bind (device_by_id e.device_id) _ (kept.looks_up e.device_id)
            (standing-keeps e.device_id))

    validate-keeps :
        (s : String) (m : PairingManager)
        → I m
        → I (validate_session_token now_ms new_v4 sha256_hex s m).1
    unfolding validate_session_token
    validate-keeps s m h = (validated-keeps (get_session s m)).at m h

    revoke_found-keeps :
        (d : String) (o : Option Device) → Preserves I (revoke_found now_ms new_v4 sha256_hex d o)
    revoke_found-keeps d none = Preserves-raise _
    revoke_found-keeps d (some x) =
        Preserves-bind (now now_ms new_v4 sha256_hex) _ kept.ticks (kept.revokes d)

    revoke-keeps : (d : String) → Preserves I (revoke_device now_ms new_v4 sha256_hex d)
    unfolding revoke_device
    revoke-keeps d = Preserves-bind (device_by_id d) _ (kept.looks_up d) (revoke_found-keeps d)

    run_call-keeps :
        (call : Call) (m : PairingManager)
        → Permitted Q call
        → I m
        → I (run_call now_ms new_v4 sha256_hex call m)
    run_call-keeps create m allowed h = kept.issues.at m h
    run_call-keeps (register k d n s o) m allowed h = (register-keeps k d n s o allowed).at m h
    run_call-keeps (open_for d s) m allowed h = (create_session-keeps d s).at m h
    run_call-keeps (validate s) m allowed h = validate-keeps s m h
    run_call-keeps (revoke d) m allowed h = (revoke-keeps d).at m h

    -- Then runs of calls keep it.
    pub run_calls-keeps :
        (calls : List Call) (m : PairingManager)
        → All (Permitted Q) calls
        → I m
        → I (run_calls now_ms new_v4 sha256_hex calls m)
    run_calls-keeps [] m allowed h = h
    run_calls-keeps (call ∷ rest) m allowed h =
        run_calls-keeps rest (run_call now_ms new_v4 sha256_hex call m) allowed.1
          (run_call-keeps call m allowed.0 h)
