-- ===== src/PushDeliveryWorker/Due.antt =====
-- How many deliveries are due, while one is claimed and its outcome is recorded.
use codex_app.Prelude.{
  ℕ, zero, suc, String, ◌≡◌, ◌≤◌, ◌<◌, ◌+◌, ◌-◌, refl, false, Option, none, some, arith, Result, ok,
  err, count_by, filter_by, inl, inr, Option-cases, leb, saturating_add, u64_max, first_by-All,
}
use codex_app.Database.{Db}
use codex_app.Database.Schema.{NotificationDelivery, Tables, DeliveryStatus}
use codex_app.Database.Invariants.{Keeps-statement, Keeps-bind, Keeps-transaction}
use codex_app.NotificationStore.{
  keyed, sent_at, with_status, is_due, next_due, comes_first, mark_delivery_sent,
  mark_delivery_failed, mark_delivery_retry, mark_delivery_invalid_subscription,
  update_delivery_status, invalidate_subscription, active_subscription, claim_next_due_delivery,
}
use codex_app.NotificationStore.Queue.Keys.{same_key, same_key_refl}
use codex_app.NotificationStore.Queue.Claim.{claim_ok}
use codex_app.WebPush.{PushFailureClass, as_str as class_text}
use codex_app.Bridge.{on_db}
use codex_app.Bridge.Rules.{Stays, Stays-raise, Stays-on_db, Stays-bind}
use codex_app.PushDeliveryWorker.{retry, retry_delay, invalidate, fail, settle}
use codex_app.PushDeliveryWorker.Counting.{
  if-Stays, count_by-update_where_le, count_by-update_where_lt, filter_by-among,
}

module _ (now : ℕ) where
  abbrev pub due_count : Tables → ℕ
  due_count t = count_by (is_due now) t.notification_deliveries

  -- A claim that answers a delivery leaves fewer due.
  pub claim-fewer :
      (db : Db) (d : NotificationDelivery)
      → (claim_next_due_delivery now db).0 ≡ ok (some d)
      → due_count (claim_next_due_delivery now db).1.tables < due_count db.tables
  claim-fewer db d h = elim (Option-cases (next_due now db.tables.notification_deliveries)) [
    | inl e ↦ absurd (nothing (rw e at (claim_ok now db (some d) h).0))
    | inr (x, e) ↦
        rw ((claim_ok now db (some d) h).1, e)
          (count_by-update_where_lt (is_due now) (same_key x) _ (λ y. refl)
            db.tables.notification_deliveries
            (first_by-All _ comes_first (filter_by (is_due now) db.tables.notification_deliveries) e
              (filter_by-among (is_due now) same_key same_key_refl
                db.tables.notification_deliveries)))
  ]
    where
      nothing : some d ≡ none → ⊥
      nothing p = cc

  module _ (n : ℕ) where
    -- At most `n` deliveries are due.
    abbrev pub Few : Tables → Type 0
    Few t = due_count t ≤ n

    status-Few :
        (event_id device_id : String) (status : DeliveryStatus) (due : Option ℕ)
        (category : Option String)
        → ((y : NotificationDelivery) → is_due now (with_status status due category now y) ≡ false)
        → Stays Few (on_db (update_delivery_status event_id device_id status due category now))
    unfolding update_delivery_status
    status-Few event_id device_id status due category out = Stays-on_db _ (
        Keeps-statement _ _ λ t h. omega (
          arith,
          h,
          count_by-update_where_le (is_due now) (keyed event_id device_id)
              (with_status status due category now) out t.notification_deliveries,
        ))

    sent-Few :
        (event_id device_id : String)
        → Stays Few (on_db (mark_delivery_sent event_id device_id now))
    unfolding mark_delivery_sent
    sent-Few event_id device_id = Stays-on_db _ (
        Keeps-transaction _ (
          Keeps-bind _ _
            (Keeps-statement _ _ λ t h. omega (
              arith,
              h,
              count_by-update_where_le (is_due now) (keyed event_id device_id) (sent_at now)
                  (λ y. refl) t.notification_deliveries,
            ))
            (λ _. Keeps-statement _ _ (λ t h. h))))

    pub fail-Few : (d : NotificationDelivery) (category : String) → Stays Few (fail d now category)
    unfolding mark_delivery_failed
    fail-Few d category =
        status-Few d.event_id d.device_id DeliveryStatus.failed none (some category) (λ y. refl)

    pub invalid-Few :
        (d : NotificationDelivery)
        → Stays Few (on_db (mark_delivery_invalid_subscription d.event_id d.device_id now))
    unfolding mark_delivery_invalid_subscription
    invalid-Few d =
        status-Few d.event_id d.device_id DeliveryStatus.invalid_subscription none _ (λ y. refl)

    pub invalidate-Few : (d : NotificationDelivery) → Stays Few (invalidate d now)
    unfolding invalidate_subscription
    invalidate-Few d =
        Stays-bind (on_db (invalidate_subscription d.device_id now)) _
          (Stays-on_db _ (Keeps-statement _ _ (λ t h. h))) (λ _. invalid-Few d)

    pub read-Few : (id : String) → Stays Few (on_db (active_subscription id))
    unfolding active_subscription
    read-Few id = Stays-on_db _ (Keeps-statement _ _ (λ t h. h))

    module _ (room : now + 4_000 ≤ u64_max) where
      later-not_due :
          (delay : ℕ)
          → 1 ≤ delay
          → delay ≤ 4_000
          → leb (saturating_add u64_max now delay) now ≡ false
      later-not_due delay a b = ground arith

      again-Few :
          (d : NotificationDelivery) (delay : ℕ)
          → 1 ≤ delay
          → delay ≤ 4_000
          → Stays Few (retry d now (some delay))
      unfolding mark_delivery_retry
      again-Few d delay a b =
          status-Few d.event_id d.device_id DeliveryStatus.pending
            (some (saturating_add u64_max now delay)) (some (class_text PushFailureClass.retryable))
            (λ y. later-not_due delay a b)

      retry-Few : (d : NotificationDelivery) (i : ℕ) → Stays Few (retry d now (retry_delay i))
      retry-Few d zero = again-Few d 1_000 (omega arith) (omega arith)
      retry-Few d (suc zero) = again-Few d 2_000 (omega arith) (omega arith)
      retry-Few d (suc (suc zero)) = again-Few d 4_000 (omega arith) (omega arith)
      retry-Few d (suc (suc (suc i))) = Stays-raise _

      pub settle-Few :
          (d : NotificationDelivery) (r : Result PushFailureClass (Unit {0}))
          → Stays Few (settle d now r)
      settle-Few d (ok _) = sent-Few d.event_id d.device_id
      settle-Few d (err PushFailureClass.invalid_subscription) = invalidate-Few d
      settle-Few d (err PushFailureClass.retryable) =
          if-Stays (leb d.attempt_count 3) (retry-Few d (d.attempt_count - 1)) (fail-Few d _)
      settle-Few d (err PushFailureClass.permanent) = fail-Few d _
