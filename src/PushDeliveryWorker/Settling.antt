-- ===== src/PushDeliveryWorker/Settling.antt =====
-- What is left of a delivery after it has been processed.
use codex_app.Prelude.{
  ℕ, String, ◌≡◌, ◌-◌, refl, Bool, true, false, ◌&&◌, Option, none, some, List, [], ◌∷◌, arith,
  Result, ok, err, any_by, update_where, inl, inr, Bool-cases, if◌then◌else◌, leb, ◌==◌,
  saturating_add, u64_max,
}
use codex_app.Database.Schema.{
  NotificationDelivery, PushSubscriptionRecord, Tables, DeliveryStatus, as_str as status_text,
}
use codex_app.NotificationStore.{
  keyed, mark_delivery_failed, mark_delivery_retry, mark_delivery_invalid_subscription,
  update_delivery_status, invalidate_subscription, active_subscription,
}
use codex_app.NotificationStore.Queue.Marks.{update_ok, mark_sent_ok}
use codex_app.PublicAccess.{PublicAccessContext}
use codex_app.WebPush.{PushPayload, PushFailureClass, WebPushTransportError, as_str as class_text}
use codex_app.Bridge.{Bridge, Failure, Action, on_db, current}
use codex_app.Bridge.Rules.{Ensures, Ensures-raise, Ensures-on_db, Ensures-bind}
use codex_app.PushDeliveryWorker.{
  retry, retry_delay, invalidate, fail, settle, deliver, usable, process_payload, process_delivery,
  send_push,
}

-- No row of the key has a status of a kind.
abbrev pub Without : (DeliveryStatus → Bool) → String → String → Tables → Type 0
Without kind event_id device_id t =
    any_by (λ y. keyed event_id device_id y && kind y.status) t.notification_deliveries ≡ false

-- Rewriting the rows of the key into rows that are not of the kind leaves none.
rewritten :
    (kind : DeliveryStatus → Bool) (event_id device_id : String)
    (f : NotificationDelivery → NotificationDelivery)
    → ((y : NotificationDelivery) → keyed event_id device_id (f y) ≡ keyed event_id device_id y)
    → ((y : NotificationDelivery) → kind (f y).status ≡ false)
    → (rows : List NotificationDelivery)
    → any_by
        (λ y. keyed event_id device_id y && kind y.status)
        (update_where (keyed event_id device_id) f rows)
      ≡ false
rewritten kind event_id device_id f key out [] = refl
rewritten kind event_id device_id f key out (x ∷ rows) =
    elim (Bool-cases (keyed event_id device_id x)) [
      | inl e ↦ rw (e, key x, e, out x) (rewritten kind event_id device_id f key out rows)
      | inr e ↦ rw (e, e) (rewritten kind event_id device_id f key out rows)
    ]

never : (b : Bool) → (b && false) ≡ false
never b = ground arith

if-Ensures :
    {A : Type 0} {Q : Tables → Type 0} (c : Bool) {m n : Action A}
    → Ensures Q m
    → Ensures Q n
    → Ensures Q (if c then m else n)
if-Ensures true k l = k
if-Ensures false k l = l

-- A kind of status that processing is to end: none of the closed ones, and `pending` only if the
-- delivery may be tried again.
record Ended (kind : DeliveryStatus → Bool) (attempts : ℕ) : Type 0 where
  sent : kind DeliveryStatus.sent ≡ false
  invalid : kind DeliveryStatus.invalid_subscription ≡ false
  failed : kind DeliveryStatus.failed ≡ false
  retried : leb attempts 3 ≡ true → kind DeliveryStatus.pending ≡ false

module _ (kind : DeliveryStatus → Bool) (d : NotificationDelivery) (now : ℕ)
    (ended : Ended kind d.attempt_count) where
  abbrev Done : Tables → Type 0
  Done = Without kind d.event_id d.device_id

  status-Ensures :
      (status : DeliveryStatus) (due : Option ℕ) (category : Option String)
      → kind status ≡ false
      → Ensures Done (on_db (update_delivery_status d.event_id d.device_id status due category now))
  status-Ensures status due category out = Ensures-on_db _ λ db a h.
      rw (update_ok d.event_id d.device_id status due category now db h) (
        rewritten kind d.event_id d.device_id _ (λ y. refl) (λ y. out)
          db.tables.notification_deliveries)

  fail-Ensures : (category : String) → Ensures Done (fail d now category)
  unfolding mark_delivery_failed
  fail-Ensures category = status-Ensures DeliveryStatus.failed none (some category) ended.failed

  invalid-Ensures :
      Ensures Done (on_db (mark_delivery_invalid_subscription d.event_id d.device_id now))
  unfolding mark_delivery_invalid_subscription
  invalid-Ensures = status-Ensures DeliveryStatus.invalid_subscription none _ ended.invalid

  invalidate-Ensures : Ensures Done (invalidate d now)
  invalidate-Ensures =
      Ensures-bind (on_db (invalidate_subscription d.device_id now)) _ (λ _. invalid-Ensures)

  retry-Ensures :
      leb d.attempt_count 3 ≡ true → (delay : Option ℕ) → Ensures Done (retry d now delay)
  unfolding mark_delivery_retry
  retry-Ensures few none = Ensures-raise Failure.panicked
  retry-Ensures few (some delay) =
      status-Ensures DeliveryStatus.pending (some (saturating_add u64_max now delay))
        (some (class_text PushFailureClass.retryable)) (ended.retried few)

  settle-Ensures : (r : Result PushFailureClass (Unit {0})) → Ensures Done (settle d now r)
  settle-Ensures (ok _) = Ensures-on_db _ λ db a h.
      rw (mark_sent_ok d.event_id d.device_id now db a h) (
        rewritten kind d.event_id d.device_id _ (λ y. refl) (λ y. ended.sent)
          db.tables.notification_deliveries)
  settle-Ensures (err PushFailureClass.invalid_subscription) = invalidate-Ensures
  settle-Ensures (err PushFailureClass.retryable) = elim (Bool-cases (leb d.attempt_count 3)) [
    | inl few ↦ rw few (retry-Ensures few (retry_delay (d.attempt_count - 1)))
    | inr many ↦ rw many (fail-Ensures _)
  ]
  settle-Ensures (err PushFailureClass.permanent) = fail-Ensures _

module _ (from_json : String → Option PushPayload) (to_vec : PushPayload → Option (List ℕ))
    (access : ℕ → PublicAccessContext)
    (transport : ℕ
      → PushSubscriptionRecord
      → List ℕ
      → Result WebPushTransportError (Unit {0})) where
  deliver-Ensures :
      (kind : DeliveryStatus → Bool) (d : NotificationDelivery) (now : ℕ)
      → Ended kind d.attempt_count
      → (payload : PushPayload) (s : Option PushSubscriptionRecord)
      → Ensures
          (Without kind d.event_id d.device_id)
          (deliver from_json to_vec access transport d now payload s)
  deliver-Ensures kind d now ended payload none = invalid-Ensures kind d now ended
  deliver-Ensures kind d now ended payload (some s) = Ensures-bind (current access) _ λ latest.
      if-Ensures (usable from_json to_vec access transport latest s)
        (Ensures-bind (send_push from_json to_vec access transport s payload) _
          (settle-Ensures kind d now ended))
        (invalidate-Ensures kind d now ended)

  process-Ensures :
      (kind : DeliveryStatus → Bool) (d : NotificationDelivery) (now : ℕ)
      → Ended kind d.attempt_count
      → (p : Option PushPayload)
      → Ensures
          (Without kind d.event_id d.device_id)
          (process_payload from_json to_vec access transport d now p)
  process-Ensures kind d now ended none = fail-Ensures kind d now ended _
  process-Ensures kind d now ended (some payload) =
      Ensures-bind (on_db (active_subscription d.device_id)) _
        (deliver-Ensures kind d now ended payload)

  -- A delivery that has been processed with no error is no longer being sent, whatever the payload,
  -- the subscription, the public access and the transport's answer were; and if this was its fourth
  -- attempt or a later one, it is not pending either.
  pub process_delivery_settles :
      (d : NotificationDelivery) (now : ℕ) (b : Bridge)
      → (process_delivery from_json to_vec access transport d now b).0 ≡ ok tt
      → Without
          (λ s. status_text s == "sending")
          d.event_id
          d.device_id
          (process_delivery from_json to_vec access transport d now b).1.db.tables
        × Without
            (λ s. leb 4 d.attempt_count && status_text s == "pending")
            d.event_id
            d.device_id
            (process_delivery from_json to_vec access transport d now b).1.db.tables
  unfolding process_delivery
  process_delivery_settles d now b h = (
    (process-Ensures _ d now sending (from_json d.payload_json)).at b tt h,
    (process-Ensures _ d now pending (from_json d.payload_json)).at b tt h,
  )
    where
      sending : Ended (λ s. status_text s == "sending") d.attempt_count
      sending = record { sent = refl; invalid = refl; failed = refl; retried = λ _. refl }

      pending : Ended (λ s. leb 4 d.attempt_count && status_text s == "pending") d.attempt_count
      pending = record {
        sent = never (leb 4 d.attempt_count);
        invalid = never (leb 4 d.attempt_count);
        failed = never (leb 4 d.attempt_count);
        retried = λ few. ground arith;
      }
