-- ===== src/NotificationDispatcher.antt =====
-- crates/bridge-core/src/notification_dispatcher.rs: an alert goes to the devices that want it, over
-- the event hub and, where push is set up, to the delivery queue.
pub mod Quiet
pub mod Targets
pub mod Pushes
use codex_app.Prelude.{
  ℕ, String, ◌+◌, Bool, true, false, not, Option, none, some, List, [], ◌∷◌, filter_by, Result, ok,
  err, pure, raise, ◌>>=◌, ◌>>◌, ◌==◌, if◌then◌else◌,
}
use codex_app.Protocol.{AlertEvent, ServerEnvelope}
use codex_app.Database.Schema.{
  DeviceNotificationSettings, PushSubscriptionRecord, NotificationDelivery, DeliveryStatus,
  kind_enabled,
}
use codex_app.NotificationStore.{
  enabled_settings, settings_for_device, active_subscription, enqueue_delivery,
}
use codex_app.EventHub.{PublishedEvent, EventHub, publish_to_device}
use codex_app.PublicAccess.{PublicAccessContext, is_named}
use codex_app.WebPush.{PushPayload, for_event}
use codex_app.Bridge.{Bridge, Failure, Action, on_db, current}

-- `push_runtime` says whether push is set up; `receivers` is what the channel's `send` answers;
-- `access` are the answers of the public access state; `to_json` is the JSON encoder.
module _ (push_runtime : Bool) (receivers : List PublishedEvent → PublishedEvent → Option ℕ)
    (access : ℕ → PublicAccessContext) (to_json : PushPayload → Option String) where
  unfoldable pub current_push_access : Action (Option PublicAccessContext)
  current_push_access =
      if push_runtime then (do context ← current access; pure (some context)) else pure none

  abbrev pub send_to : String → AlertEvent → Action ℕ
  send_to device_id event b =
      let (hub, n) =
        publish_to_device receivers b.hub device_id (ServerEnvelope.alert_event event) in
      (ok n, record b { hub = hub })

  abbrev pub notify : Bool → Action Bool
  notify true b = (ok true, record b { wakes = b.wakes + 1 })
  notify false b = (ok false, b)

  abbrev pub payload_for : DeviceNotificationSettings → AlertEvent → Bool → PushPayload
  payload_for settings event force = for_event event (record {
    sound_enabled = settings.sound_enabled;
    vibration_enabled = settings.vibration_enabled;
    force_system_notification = force;
  })

  abbrev pub new_delivery :
      DeviceNotificationSettings → AlertEvent → String → ℕ → NotificationDelivery
  new_delivery settings event payload_json now = record {
    event_id = event.event_id;
    device_id = settings.device_id;
    payload_json = payload_json;
    status = DeliveryStatus.pending;
    attempt_count = 0;
    next_attempt_at = now;
    last_error_category = none;
    updated_at = now;
  }

  abbrev pub encoded : Option String → Action String
  encoded none = raise Failure.serialization
  encoded (some json) = pure json

  abbrev pub enqueue_to :
      DeviceNotificationSettings
      → AlertEvent
      → Bool
      → ℕ
      → String
      → Option PushSubscriptionRecord
      → Action Bool
  enqueue_to settings event force now public_origin none = pure false
  enqueue_to settings event force now public_origin (some subscription) =
      if subscription.origin == public_origin
      then (do
        payload_json ← encoded (to_json (payload_for settings event force))
        enqueued ← on_db (enqueue_delivery (new_delivery settings event payload_json now))
        notify enqueued)
      else pure false

  -- The origin at which a push may be sent.
  abbrev pub push_origin : Option PublicAccessContext → Option String
  push_origin none = none
  push_origin (some context) = if is_named context.mode then context.public_origin else none

  unfoldable pub enqueue_push :
      DeviceNotificationSettings → AlertEvent → Bool → Option PublicAccessContext → ℕ → Action Bool
  enqueue_push settings event force context now =
      if push_runtime
      then elim (push_origin context) [
        | none ↦ pure false
        | some public_origin ↦ do
          subscription ← on_db (active_subscription settings.device_id)
          enqueue_to settings event force now public_origin subscription
      ]
      else pure false

  -- The loop of `dispatch` over its targets, with the deliveries so far. `now` is the time that the
  -- clock shows when it comes to a device.
  unfoldable pub dispatch_to :
      List DeviceNotificationSettings
      → AlertEvent
      → Option PublicAccessContext
      → (String → ℕ)
      → ℕ
      → Action ℕ
  dispatch_to [] event context now deliveries = pure deliveries
  dispatch_to (settings ∷ targets) event context now deliveries = do
    sent ← send_to settings.device_id event
    enqueue_push settings event false context (now settings.device_id)
    dispatch_to targets event context now (deliveries + sent)

  unfoldable pub dispatch : AlertEvent → (String → ℕ) → Action ℕ
  unfolding current_push_access
  dispatch event now = do
    context ← current_push_access
    settings ← on_db enabled_settings
    dispatch_to (filter_by (λ s. kind_enabled s event.kind) settings) event context now 0

  unfoldable pub dispatch_test_to_device : String → AlertEvent → ℕ → Action ℕ
  unfolding current_push_access enqueue_push
  dispatch_test_to_device device_id event now = do
    context ← current_push_access
    settings ← on_db (settings_for_device device_id)
    enqueued ← enqueue_push settings event true context now
    if enqueued then pure 0 else send_to device_id event
