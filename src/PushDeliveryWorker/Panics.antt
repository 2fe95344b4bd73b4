-- ===== src/PushDeliveryWorker/Panics.antt =====
-- How the processing of a delivery may fail.
use codex_app.Prelude.{
  ℕ, zero, suc, String, ◌≡◌, ◌≢◌, ◌-◌, Bool, true, false, Option, none, some, List, arith, Result,
  ok, err, inl, inr, Bool-cases, if◌then◌else◌, leb,
}
use codex_app.Database.Schema.{NotificationDelivery, PushSubscriptionRecord}
use codex_app.NotificationStore.{invalidate_subscription, active_subscription}
use codex_app.PublicAccess.{PublicAccessContext}
use codex_app.WebPush.{PushPayload, PushFailureClass, WebPushTransportError}
use codex_app.Bridge.{Bridge, Failure, Action, on_db, current}
use codex_app.Bridge.Rules.{Avoids, Avoids-on_db, Avoids-bind}
use codex_app.PushDeliveryWorker.{
  retry, retry_delay, invalidate, settle, deliver, usable, process_payload, process_delivery,
  send_push,
}

module _ (bad : Failure) (other : Failure.database ≢ bad) where
  if-Avoids :
      {A : Type 0} (c : Bool) {m n : Action A}
      → Avoids bad m
      → Avoids bad n
      → Avoids bad (if c then m else n)
  if-Avoids true k l = k
  if-Avoids false k l = l

  NoPanic-current : (access : ℕ → PublicAccessContext) → Avoids bad (current access)
  NoPanic-current access = record { at = λ b h. cc }

  -- The table of delays covers the attempts that are retried.
  retry-Avoids :
      (d : NotificationDelivery) (now n : ℕ)
      → leb n 3 ≡ true
      → Avoids bad (retry d now (retry_delay (n - 1)))
  retry-Avoids d now zero few = Avoids-on_db bad other _
  retry-Avoids d now (suc zero) few = Avoids-on_db bad other _
  retry-Avoids d now (suc (suc zero)) few = Avoids-on_db bad other _
  retry-Avoids d now (suc (suc (suc zero))) few = Avoids-on_db bad other _
  retry-Avoids d now (suc (suc (suc (suc n)))) few = absurd (ground arith)

  invalidate-Avoids : (d : NotificationDelivery) (now : ℕ) → Avoids bad (invalidate d now)
  invalidate-Avoids d now =
      Avoids-bind bad (on_db (invalidate_subscription d.device_id now)) _ (Avoids-on_db bad other _)
        (λ _. Avoids-on_db bad other _)

  settle-Avoids :
      (d : NotificationDelivery) (now : ℕ) (r : Result PushFailureClass (Unit {0}))
      → Avoids bad (settle d now r)
  settle-Avoids d now (ok _) = Avoids-on_db bad other _
  settle-Avoids d now (err PushFailureClass.invalid_subscription) = invalidate-Avoids d now
  settle-Avoids d now (err PushFailureClass.retryable) = elim (Bool-cases (leb d.attempt_count 3)) [
    | inl few ↦ rw few (retry-Avoids d now d.attempt_count few)
    | inr many ↦ rw many (Avoids-on_db bad other _)
  ]
  settle-Avoids d now (err PushFailureClass.permanent) = Avoids-on_db bad other _

  module _ (from_json : String → Option PushPayload) (to_vec : PushPayload → Option (List ℕ))
      (access : ℕ → PublicAccessContext)
      (transport : ℕ
        → PushSubscriptionRecord
        → List ℕ
        → Result WebPushTransportError (Unit {0})) where
    deliver-Avoids :
        (d : NotificationDelivery) (now : ℕ) (payload : PushPayload)
        → (s : Option PushSubscriptionRecord)
        → Avoids bad (deliver from_json to_vec access transport d now payload s)
    deliver-Avoids d now payload none = Avoids-on_db bad other _
    deliver-Avoids d now payload (some s) =
        Avoids-bind bad (current access) _ (NoPanic-current access) λ latest.
          if-Avoids (usable from_json to_vec access transport latest s)
            (Avoids-bind bad (send_push from_json to_vec access transport s payload) _
              (record { at = λ b h. cc }) (settle-Avoids d now))
            (invalidate-Avoids d now)

    process-Avoids :
        (d : NotificationDelivery) (now : ℕ) (p : Option PushPayload)
        → Avoids bad (process_payload from_json to_vec access transport d now p)
    process-Avoids d now none = Avoids-on_db bad other _
    process-Avoids d now (some payload) =
        Avoids-bind bad (on_db (active_subscription d.device_id)) _ (Avoids-on_db bad other _)
          (deliver-Avoids d now payload)

module _ (from_json : String → Option PushPayload) (to_vec : PushPayload → Option (List ℕ))
    (access : ℕ → PublicAccessContext)
    (transport : ℕ
      → PushSubscriptionRecord
      → List ℕ
      → Result WebPushTransportError (Unit {0})) where
  -- Whatever the transport answers, a delivery is processed within fuel.
  pub process-fuel :
      (d : NotificationDelivery) (now : ℕ)
      → Avoids Failure.out_of_fuel (process_delivery from_json to_vec access transport d now)
  unfolding process_delivery
  process-fuel d now =
      process-Avoids Failure.out_of_fuel (λ h. cc) from_json to_vec access transport d now
        (from_json d.payload_json)

  -- The delay of a retry is always found: no answer of the transport makes the worker panic.
  pub process_delivery_no_panic :
      (d : NotificationDelivery) (now : ℕ) (b : Bridge)
      → (process_delivery from_json to_vec access transport d now b).0 ≢ err Failure.panicked
  unfolding process_delivery
  process_delivery_no_panic d now b =
      (process-Avoids Failure.panicked (λ h. cc) from_json to_vec access transport d now
          (from_json d.payload_json)).at
        b
