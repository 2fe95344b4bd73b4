-- ===== src/PushDeliveryWorker/Emptying.antt =====
-- What a drain that succeeds leaves due.
use codex_app.Prelude.{
  ℕ, zero, suc, String, ◌≡◌, ◌+◌, refl, ap, ◌∙◌, Bool, true, false, Option, none, some, List,
  Result, ok, err, pure, continue, ◌>>◌, any_by, if◌then◌else◌,
}
use codex_app.Database.{Db, DbError}
use codex_app.Database.Schema.{NotificationDelivery, PushSubscriptionRecord, Tables}
use codex_app.NotificationStore.{is_due, claim_next_due_delivery}
use codex_app.NotificationStore.Queue.Claim.{claim_none}
use codex_app.PublicAccess.{PublicAccessContext, is_named}
use codex_app.WebPush.{PushPayload, WebPushTransportError}
use codex_app.Bridge.{Bridge, Failure, lift}
use codex_app.Bridge.Rules.{Ensures, Ensures-raise, Ensures-bind}
use codex_app.PushDeliveryWorker.{process_delivery, drain_loop, drain_due_once_at}

module _ (from_json : String → Option PushPayload) (to_vec : PushPayload → Option (List ℕ))
    (access : ℕ → PublicAccessContext)
    (transport : ℕ → PushSubscriptionRecord → List ℕ → Result WebPushTransportError (Unit {0}))
    (now : ℕ) where
  abbrev NoneDue : Tables → Type 0
  NoneDue t = any_by (is_due now) t.notification_deliveries ≡ false

  refused : (n : ℕ) → ◌≡◌ {A = Result Failure ℕ} (err Failure.database) (ok n) → ⊥
  refused n h = cc

  drain_loop-NoneDue :
      (fuel processed : ℕ)
      → Ensures NoneDue (drain_loop from_json to_vec access transport fuel now processed)
  unfolding drain_loop
  drain_loop-NoneDue zero processed = Ensures-raise Failure.out_of_fuel
  drain_loop-NoneDue (suc fuel) processed = record {
    at = λ b n h.
        let (r, db) = claim_next_due_delivery now b.db in
        go (drain_loop-NoneDue fuel (processed + 1)) b r db
          (λ e.
            let (none_due, same) = claim_none now b.db e in
            ap (any_by (is_due now)) same ∙ none_due)
          n h;
  }
    where
      go :
          Ensures NoneDue (drain_loop from_json to_vec access transport fuel now (processed + 1))
          → (b : Bridge) (r : Result DbError (Option NotificationDelivery)) (db : Db)
          → (r ≡ ok none → NoneDue db.tables)
          → (n : ℕ)
          → (continue (lift (r, db) b) (λ claimed. elim claimed [
            | none ↦ pure processed
            | some delivery ↦ do
              process_delivery from_json to_vec access transport delivery now
              drain_loop from_json to_vec access transport fuel now (processed + 1)
          ])).0
            ≡ ok n
          → NoneDue
              (continue (lift (r, db) b) (λ claimed. elim claimed [
                | none ↦ pure processed
                | some delivery ↦ do
                  process_delivery from_json to_vec access transport delivery now
                  drain_loop from_json to_vec access transport fuel now (processed + 1)
              ])).1.db.tables
      go rest b (err e) db empty n h = absurd (refused n h)
      go rest b (ok none) db empty n h = empty refl
      go rest b (ok (some d)) db empty n h =
          (Ensures-bind (process_delivery from_json to_vec access transport d now)
              (λ u. drain_loop from_json to_vec access transport fuel now (processed + 1))
              (λ u. rest)).at
            (record b { db = db }) n h

  -- In the mode of a named tunnel, a drain that succeeds leaves no delivery due at its time, however
  -- many were due, and whatever became of each.
  pub drain_leaves_none_due :
      (fuel : ℕ) (b : Bridge) (n : ℕ)
      → is_named (access b.reads).mode ≡ true
      → (drain_due_once_at from_json to_vec access transport fuel now b).0 ≡ ok n
      → any_by
          (is_due now)
          (drain_due_once_at from_json to_vec access transport fuel now
            b).1.db.tables.notification_deliveries
        ≡ false
  unfolding drain_due_once_at
  drain_leaves_none_due fuel b n named = go (is_named (access b.reads).mode) named
    where
      go :
          (mode : Bool)
          → mode ≡ true
          → ((if mode then drain_loop from_json to_vec access transport fuel now 0 else pure 0)
              (record b { reads = b.reads + 1 })).0
            ≡ ok n
          → NoneDue
              ((if mode then drain_loop from_json to_vec access transport fuel now 0 else pure 0)
                (record b { reads = b.reads + 1 })).1.db.tables
      go true m h = (drain_loop-NoneDue fuel 0).at (record b { reads = b.reads + 1 }) n h
      go false m h = cc
