-- ===== src/PushDeliveryWorker/Draining.antt =====
-- The loop over the due deliveries ends.
use codex_app.Prelude.{
  ℕ, zero, suc, String, ◌≡◌, ◌≢◌, ◌≤◌, ◌<◌, ◌+◌, refl, Bool, true, false, Option, none, some, List,
  arith, Result, ok, err, pure, continue, ◌>>◌, count_by, if◌then◌else◌, u64_max,
}
use codex_app.Database.{Db, DbError}
use codex_app.Database.Schema.{NotificationDelivery, PushSubscriptionRecord}
use codex_app.NotificationStore.{is_due, active_subscription, claim_next_due_delivery}
use codex_app.PublicAccess.{PublicAccessContext, is_named}
use codex_app.WebPush.{PushPayload, WebPushTransportError}
use codex_app.Bridge.{Bridge, Failure, lift, on_db, current}
use codex_app.Bridge.Rules.{Stays, Stays-bind, err_same}
use codex_app.PushDeliveryWorker.{
  deliver, usable, process_payload, process_delivery, send_push, drain_loop, drain_due_once_at,
}
use codex_app.PushDeliveryWorker.Panics.{process-fuel}
use codex_app.PushDeliveryWorker.Counting.{if-Stays}
use codex_app.PushDeliveryWorker.Due.{
  due_count, Few, claim-fewer, settle-Few, invalid-Few, invalidate-Few, fail-Few, read-Few,
}

module _ (from_json : String → Option PushPayload) (to_vec : PushPayload → Option (List ℕ))
    (access : ℕ → PublicAccessContext)
    (transport : ℕ → PushSubscriptionRecord → List ℕ → Result WebPushTransportError (Unit {0}))
    (now : ℕ) (room : now + 4_000 ≤ u64_max) where
  deliver-Few :
      (n : ℕ) (d : NotificationDelivery) (payload : PushPayload) (s : Option PushSubscriptionRecord)
      → Stays (Few now n) (deliver from_json to_vec access transport d now payload s)
  deliver-Few n d payload none = invalid-Few now n d
  deliver-Few n d payload (some s) =
      Stays-bind (current access) _ (record { at = λ b h. h })
        λ latest.
          if-Stays (usable from_json to_vec access transport latest s)
            (Stays-bind (send_push from_json to_vec access transport s payload) _
              (record { at = λ b h. h }) (settle-Few now n room d))
            (invalidate-Few now n d)

  process-Few :
      (n : ℕ) (d : NotificationDelivery) (p : Option PushPayload)
      → Stays (Few now n) (process_payload from_json to_vec access transport d now p)
  process-Few n d none = fail-Few now n d _
  process-Few n d (some payload) =
      Stays-bind (on_db (active_subscription d.device_id)) _ (read-Few now n d.device_id)
        (deliver-Few n d payload)

  -- Processing leaves no more deliveries due.
  process_delivery-le :
      (d : NotificationDelivery) (b : Bridge)
      → due_count now (process_delivery from_json to_vec access transport d now b).1.db.tables
        ≤ due_count now b.db.tables
  unfolding process_delivery
  process_delivery-le d b =
      (process-Few (due_count now b.db.tables) d (from_json d.payload_json)).at b (omega arith)

  abbrev Ends : ℕ → ℕ → Type 0
  Ends fuel processed =
      (b : Bridge)
      → due_count now b.db.tables < fuel
      → (drain_loop from_json to_vec access transport fuel now processed b).0
        ≢ err Failure.out_of_fuel

  after_process :
      (fuel processed : ℕ) (r : Result Failure (Unit {0})) (b : Bridge)
      → Ends fuel processed
      → r ≢ err Failure.out_of_fuel
      → due_count now b.db.tables < fuel
      → (continue (r, b) (λ _. drain_loop from_json to_vec access transport fuel now processed)).0
        ≢ err Failure.out_of_fuel
  after_process fuel processed (ok a) b rest enough few h = rest b few h
  after_process fuel processed (err e) b rest enough few h =
      enough (err_same e Failure.out_of_fuel h)

  drain_loop-Ends : (fuel processed : ℕ) → Ends fuel processed
  unfolding drain_loop
  drain_loop-Ends zero processed b few h = absurd (omega (arith, few))
  drain_loop-Ends (suc fuel) processed b few h =
      let (r, db) = claim_next_due_delivery now b.db in
      go (drain_loop-Ends fuel (processed + 1)) r db (λ d e. claim-fewer now b.db d e) h
    where
      go :
          (rest : Ends fuel (processed + 1)) (r : Result DbError (Option NotificationDelivery))
          (db : Db)
          → ((d : NotificationDelivery)
              → r ≡ ok (some d)
              → due_count now db.tables < due_count now b.db.tables)
          → (continue (lift (r, db) b) (λ claimed. elim claimed [
            | none ↦ pure processed
            | some delivery ↦ do
              process_delivery from_json to_vec access transport delivery now
              drain_loop from_json to_vec access transport fuel now (processed + 1)
          ])).0
            ≢ err Failure.out_of_fuel
      go rest (err e) db fewer k = cc
      go rest (ok none) db fewer k = cc
      go rest (ok (some d)) db fewer k =
          let b' : Bridge = record b { db = db } in
          let (r, after) = process_delivery from_json to_vec access transport d now b' in
          after_process fuel (processed + 1) r after rest
            ((process-fuel from_json to_vec access transport d now).at b')
            (omega (arith, few, fewer d refl, process_delivery-le d b')) k

  -- With more fuel than deliveries are due, and a time at least four seconds below the largest, the
  -- loop over the due deliveries never runs out of fuel, whatever the payloads, the transport's answers and the refused statements are.
  pub drain_ends :
      (fuel : ℕ) (b : Bridge)
      → count_by (is_due now) b.db.tables.notification_deliveries < fuel
      → (drain_due_once_at from_json to_vec access transport fuel now b).0 ≢ err Failure.out_of_fuel
  unfolding drain_due_once_at
  drain_ends fuel b few h = go (is_named (access b.reads).mode) h
    where
      go :
          (named : Bool)
          → ((if named then drain_loop from_json to_vec access transport fuel now 0 else pure 0)
              (record b { reads = b.reads + 1 })).0
            ≢ err Failure.out_of_fuel
      go true k = drain_loop-Ends fuel 0 (record b { reads = b.reads + 1 }) few k
      go false k = cc
