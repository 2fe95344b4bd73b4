-- ===== src/Pairing/Tokens.antt =====
-- Pairing tokens over runs of calls.
use codex_app.Prelude.{
  ℕ, String, ◌≡◌, ◌≤◌, ◌+◌, refl, ap, ◌∙◌, Bool, true, false, Option, none, some, List, [], ◌∷◌,
  ◌==◌, arith, Result, ok, err, leb, map_option, find_by, update_where, upsert_lookup,
  find_by-update_where_self, if◌then◌else◌, Preserves, add_u64, All, continue, pure, raise, ◌>>◌,
  some_eq,
}
use codex_app.Database.{Db, DbError, Sql}
use codex_app.Database.Schema.{Device}
use codex_app.Storage.{insert_device}
use codex_app.Pairing.{
  PairingToken, PairingError, PairingManager, Pairing, DeviceRegistration, map_err, stored,
  get_pairing, mark_used, create_token, register_device_with_origin, acceptable, registration, now,
  registered, mint_session_token_for_device_id,
}
use codex_app.Pairing.Calls.{
  Call, create, register, open_for, validate, revoke, run_calls, Permitted, Kept, run_calls-keeps,
}

anything-Permitted : (calls : List Call) → All (Permitted (λ _. Unit {0})) calls
anything-Permitted [] = tt
anything-Permitted (create ∷ rest) = (tt, anything-Permitted rest)
anything-Permitted (register t d n s o ∷ rest) = (tt, anything-Permitted rest)
anything-Permitted (open_for d s ∷ rest) = (tt, anything-Permitted rest)
anything-Permitted (validate s ∷ rest) = (tt, anything-Permitted rest)
anything-Permitted (revoke d ∷ rest) = (tt, anything-Permitted rest)

module _ (now_ms : ℕ → ℕ) (new_v4 : ℕ → String) (sha256_hex : String → String) where
  module _ (t : String) (start : ℕ) where
    -- The token is in the map as used, and the generator is past `start`.
    abbrev Used : PairingManager → Type 0
    Used m = (start ≤ m.uuids) × (map_option (λ e. e.used) (get_pairing t m) ≡ some true)

    stored-Used : {A : Type 0} (e : PairingError) (call : Sql A) → Preserves Used (stored e call)
    stored-Used e call = record { at = λ m h. let (r, db) = call m.db in go r db m h }
      where
        go :
            {A : Type 0} (r : Result DbError A) (db : Db) (m : PairingManager)
            → Used m
            → Used (map_err e (r, db) m).1
        go (ok a) db m h = h
        go (err x) db m h = h

    now-Used : Preserves Used (now now_ms new_v4 sha256_hex)
    now-Used = record { at = λ m h. h }

    mark_rows :
        (k : String) (rows : List PairingToken)
        → map_option (λ e. e.used) (find_by (λ e. e.token == t) rows) ≡ some true
        → map_option
            (λ e. e.used)
            (find_by
              (λ e. e.token == t)
              (update_where (λ e. e.token == k) (λ e. record e { used = true }) rows))
          ≡ some true
    mark_rows k [] h = h
    mark_rows k (e ∷ rows) h = ground (arith, mark_rows k rows)

    mark-Used : (k : String) → Preserves Used (mark_used k)
    mark-Used k = record { at = λ m h. (h.0, mark_rows k m.pairing_tokens h.1) }

    registration-Used : (d : String) → Preserves Used (registration now_ms new_v4 sha256_hex d)
    unfolding mint_session_token_for_device_id
    registration-Used d = record { at = λ m h. (omega (arith, h.0), h.1) }

    module _ (fresh : (n : ℕ) → start ≤ n → (new_v4 n == t) ≡ false) where
      create-Used : Preserves Used (create_token now_ms new_v4 sha256_hex)
      unfolding create_token
      create-Used = record {
        at = λ m h. (
          omega (arith, h.0),
          ap (map_option (λ e. e.used)) (
                upsert_lookup (λ e. e.token)
                  (record {
                    token = new_v4 m.uuids;
                    expires_at = add_u64 (now_ms m.clock_reads) m.pairing_token_ttl_ms;
                    used = false;
                  })
                  t m.pairing_tokens)
              ∙ rw (fresh m.uuids h.0) h.1,
        );
      }

      Used-Kept : Kept now_ms new_v4 sha256_hex Used (λ _. Unit {0})
      Used-Kept = record {
        ticks = now-Used;
        looks_up = λ id. stored-Used _ _;
        inserts = λ device _. stored-Used _ _;
        revokes = λ id at. stored-Used _ _;
        marks = mark-Used;
        issues = create-Used;
        opens = registration-Used;
      }

  -- What follows an accepted token.
  abbrev after_check : String → Device → Pairing DeviceRegistration
  after_check t device = do
    stored PairingError.invalid_token (insert_device device)
    mark_used t
    registration now_ms new_v4 sha256_hex device.device_id

  after_stored :
      (t : String) (d : String) (at : ℕ) (x : PairingToken) (q : Result DbError (Unit {0}))
      (db : Db) (m : PairingManager) (r : DeviceRegistration)
      → get_pairing t m ≡ some x
      → (continue
          (map_err PairingError.invalid_token (q, db) m)
          (λ _. mark_used t >> registration now_ms new_v4 sha256_hex d)).0
        ≡ ok r
      → Used t m.uuids
          (continue
            (map_err PairingError.invalid_token (q, db) m)
            (λ _. mark_used t >> registration now_ms new_v4 sha256_hex d)).1
  unfolding mint_session_token_for_device_id
  after_stored t d at x (ok a) db m r e h = (
    omega arith,
    ap (map_option (λ y. y.used))
          (find_by-update_where_self (λ y. y.token == t) _ (λ y k. k) m.pairing_tokens)
        ∙ rw e refl,
  )
  after_stored t d at x (err f) db m r e h = cc

  abbrev checked : (used late : Bool) → Pairing (Unit {0})
  checked used late =
      if used
      then raise PairingError.token_already_used
      else if late
      then raise PairingError.expired_token
      else pure tt

  checked-uses :
      (t : String) (device : Device) (x : PairingToken) (used late : Bool) (m : PairingManager)
      (r : DeviceRegistration)
      → get_pairing t m ≡ some x
      → (continue (checked used late m) (λ _. after_check t device)).0 ≡ ok r
      → Used t m.uuids (continue (checked used late m) (λ _. after_check t device)).1
  checked-uses t device x true late m r e h = cc
  checked-uses t device x false true m r e h = cc
  checked-uses t device x false false m r e h =
      let (q, db) = insert_device device m.db in after_stored t device.device_id 0 x q db m r e h

  after_check-uses :
      (t d n s : String) (o : Option String) (at : ℕ) (found : Option PairingToken)
      (m : PairingManager) (r : DeviceRegistration)
      → get_pairing t m ≡ found
      → (continue
          (acceptable now_ms new_v4 sha256_hex at found m)
          (λ _. after_check t (registered now_ms new_v4 sha256_hex d n s o at))).0
        ≡ ok r
      → Used t m.uuids
          (continue
            (acceptable now_ms new_v4 sha256_hex at found m)
            (λ _. after_check t (registered now_ms new_v4 sha256_hex d n s o at))).1
  after_check-uses t d n s o at none m r e h = cc
  after_check-uses t d n s o at (some x) m r e h =
      checked-uses t (registered now_ms new_v4 sha256_hex d n s o at) x x.used (leb x.expires_at at)
        m r e h

  -- A successful registration leaves its token in the map as used.
  register_uses :
      (t d n s : String) (o : Option String) (m : PairingManager) (r : DeviceRegistration)
      → (register_device_with_origin now_ms new_v4 sha256_hex t d n s o m).0 ≡ ok r
      → Used t m.uuids (register_device_with_origin now_ms new_v4 sha256_hex t d n s o m).1
  unfolding register_device_with_origin
  register_uses t d n s o m r h =
      after_check-uses t d n s o (now_ms m.clock_reads) (get_pairing t m)
        (record m { clock_reads = m.clock_reads + 1 }) r refl h

  -- A used token is refused.
  refused_used :
      (t d n s : String) (o : Option String) (m : PairingManager)
      → map_option (λ e. e.used) (get_pairing t m) ≡ some true
      → (register_device_with_origin now_ms new_v4 sha256_hex t d n s o m).0
        ≡ err PairingError.token_already_used
  unfolding register_device_with_origin
  refused_used t d n s o m h = go (get_pairing t m) h
    where
      go :
          (found : Option PairingToken)
          → map_option (λ e. e.used) found ≡ some true
          → (continue
              (acceptable now_ms new_v4 sha256_hex
                (now_ms m.clock_reads)
                found
                (record m { clock_reads = m.clock_reads + 1 }))
              (λ _.
                after_check t
                  (registered now_ms new_v4 sha256_hex d n s o (now_ms m.clock_reads)))).0
            ≡ err PairingError.token_already_used
      go none e = cc
      go (some x) e = rw (some_eq e)

  -- A pairing token that a device was registered with is refused as used ever after, whatever calls
  -- are made in between and whichever of their statements the database refuses, provided that the
  -- generator does not give the token again.
  pub token_used_once :
      (t d n s d' n' s' : String) (o o' : Option String) (calls : List Call) (m : PairingManager)
      (r : DeviceRegistration)
      → ((k : ℕ) → m.uuids ≤ k → (new_v4 k == t) ≡ false)
      → (register_device_with_origin now_ms new_v4 sha256_hex t d n s o m).0 ≡ ok r
      → (register_device_with_origin now_ms new_v4 sha256_hex t d' n' s' o' (
          run_calls now_ms new_v4 sha256_hex calls
            (register_device_with_origin now_ms new_v4 sha256_hex t d n s o m).1)).0
        ≡ err PairingError.token_already_used
  token_used_once t d n s d' n' s' o o' calls m r fresh h =
      refused_used t d' n' s' o' _
        (run_calls-keeps now_ms new_v4 sha256_hex (Used t m.uuids) (λ _. Unit {0})
          (Used-Kept t m.uuids fresh) calls _ (anything-Permitted calls)
          (register_uses t d n s o m r h)).1
