-- ===== src/PushDeliveryWorker.antt =====
-- crates/bridge-core/src/push_delivery_worker.rs: the worker that sends the due deliveries.
-- The JSON decoder, the public access state and the transport are parameters; the transport may
-- answer differently at each send.
pub mod Settling
pub mod Panics
pub mod Counting
pub mod Due
pub mod Draining
pub mod Emptying
use codex_app.Prelude.{
  ℕ, zero, suc, String, ◌+◌, ◌-◌, Bool, true, false, not, ◌||◌, Option, none, some, List, [], ◌∷◌,
  min, Result, ok, err, pure, raise, ◌>>=◌, ◌>>◌, leb, same_text_option, saturating_add, u64_max,
  if◌then◌else◌,
}
use codex_app.Database.Schema.{NotificationDelivery, PushSubscriptionRecord}
use codex_app.NotificationStore.{
  claim_next_due_delivery, active_subscription, invalidate_subscription, mark_delivery_failed,
  mark_delivery_invalid_subscription, mark_delivery_retry, mark_delivery_sent, next_delivery_due_at,
}
use codex_app.PublicAccess.{PublicAccessContext, is_named}
use codex_app.WebPush.{PushPayload, PushFailureClass, WebPushTransportError, send, as_str}
use codex_app.Bridge.{Bridge, Failure, Action, on_db, current}

abbrev pub max_idle_wait : ℕ
max_idle_wait = 30_000

-- `RETRY_DELAYS_MS[i]`: past the end the program panics.
abbrev pub retry_delay : ℕ → Option ℕ
retry_delay zero = some 1_000
retry_delay (suc zero) = some 2_000
retry_delay (suc (suc zero)) = some 4_000
retry_delay (suc (suc (suc i))) = none

abbrev pub retry : NotificationDelivery → ℕ → Option ℕ → Action (Unit {0})
retry delivery now none = raise Failure.panicked
retry delivery now (some delay) = on_db (
    mark_delivery_retry delivery.event_id delivery.device_id (saturating_add u64_max now delay)
      (as_str PushFailureClass.retryable) now)

abbrev pub invalidate : NotificationDelivery → ℕ → Action (Unit {0})
invalidate delivery now = do
  on_db (invalidate_subscription delivery.device_id now)
  on_db (mark_delivery_invalid_subscription delivery.event_id delivery.device_id now)

abbrev pub fail : NotificationDelivery → ℕ → String → Action (Unit {0})
fail delivery now category =
    on_db (mark_delivery_failed delivery.event_id delivery.device_id category now)

-- What is done with the answer of a send.
abbrev pub settle :
    NotificationDelivery → ℕ → Result PushFailureClass (Unit {0}) → Action (Unit {0})
settle delivery now (ok _) = on_db (mark_delivery_sent delivery.event_id delivery.device_id now)
settle delivery now (err PushFailureClass.invalid_subscription) = invalidate delivery now
settle delivery now (err PushFailureClass.retryable) =
    if leb delivery.attempt_count 3
    then retry delivery now (retry_delay (delivery.attempt_count - 1))
    else fail delivery now (as_str PushFailureClass.retryable)
settle delivery now (err PushFailureClass.permanent) =
    fail delivery now (as_str PushFailureClass.permanent)

module _ (from_json : String → Option PushPayload) (to_vec : PushPayload → Option (List ℕ))
    (access : ℕ → PublicAccessContext)
    (transport : ℕ
      → PushSubscriptionRecord
      → List ℕ
      → Result WebPushTransportError (Unit {0})) where
  abbrev pub send_push :
      PushSubscriptionRecord → PushPayload → Action (Result PushFailureClass (Unit {0}))
  send_push subscription payload b =
      (ok (send to_vec (transport b.sends) subscription payload), record b { sends = b.sends + 1 })

  -- The subscription is used only at the origin of the named tunnel that is up now.
  abbrev pub usable : PublicAccessContext → PushSubscriptionRecord → Bool
  usable latest subscription = not (
      not (is_named latest.mode)
      || not (same_text_option latest.public_origin (some subscription.origin)))

  abbrev pub deliver :
      NotificationDelivery → ℕ → PushPayload → Option PushSubscriptionRecord → Action (Unit {0})
  deliver delivery now payload none =
      on_db (mark_delivery_invalid_subscription delivery.event_id delivery.device_id now)
  deliver delivery now payload (some subscription) = do
    latest ← current access
    if usable latest subscription
        then (do result ← send_push subscription payload; settle delivery now result)
        else invalidate delivery now

  abbrev pub process_payload : NotificationDelivery → ℕ → Option PushPayload → Action (Unit {0})
  process_payload delivery now none = fail delivery now "invalid_push_payload"
  process_payload delivery now (some payload) = do
    subscription ← on_db (active_subscription delivery.device_id)
    deliver delivery now payload subscription

  unfoldable pub process_delivery : NotificationDelivery → ℕ → Action (Unit {0})
  process_delivery delivery now = process_payload delivery now (from_json delivery.payload_json)

  -- The loop of `drain_due_once_at`, on fuel.
  unfoldable pub drain_loop : ℕ → ℕ → ℕ → Action ℕ
  unfolding process_delivery
  drain_loop zero now processed = raise Failure.out_of_fuel
  drain_loop (suc fuel) now processed = do
    claimed ← on_db (claim_next_due_delivery now)
    elim claimed [
      | none ↦ pure processed
      | some delivery ↦ do process_delivery delivery now; drain_loop fuel now (processed + 1)
    ]

  unfoldable pub drain_due_once_at : ℕ → ℕ → Action ℕ
  unfolding drain_loop
  drain_due_once_at fuel now = do
    context ← current access
    if is_named context.mode then drain_loop fuel now 0 else pure 0

  -- Milliseconds until the next cycle, unless the worker is woken.
  abbrev pub wait_until : ℕ → Result Failure (Option ℕ) → ℕ
  wait_until now (ok (some due_at)) = min (due_at - now) max_idle_wait
  wait_until now (ok none) = max_idle_wait
  wait_until now (err e) = max_idle_wait

  unfoldable pub next_wait : ℕ → Bridge → ℕ × Bridge
  next_wait now b =
      let b' = (current access b).1 in
      if is_named (access b.reads).mode
      then (let (due, after) = on_db next_delivery_due_at b' in (wait_until now due, after))
      else (max_idle_wait, b')
