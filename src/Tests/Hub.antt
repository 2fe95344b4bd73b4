-- ===== src/Tests/Hub.antt =====
-- The event hub and the dispatcher at concrete events.
use codex_app.Prelude.{
  ℕ, String, ◌≡◌, refl, true, false, Option, none, some, List, [], ◌∷◌, ◌++◌, map, arith,
  Descending, TextAscending, any_by, not, is_some, ◌&&◌, count_by, sort_by, ◌==◌,
}
use codex_app.Protocol.{SessionStatus, ServerEnvelope, AlertKind, AlertEvent}
use codex_app.Database.Schema.{DeviceNotificationSettings, kind_enabled}
use codex_app.NotificationStore.{
  select_enabled, enabled_settings, active_subscription, enqueue_delivery,
}
use codex_app.EventHub.{PublishedEvent, Received, EventHub, all_snapshots, publish_to_device}
use codex_app.EventHub.Receiving.{receive_all, addressed, receive_all-addressed}
use codex_app.EventHub.Snapshots.{all_snapshots_newest}
use codex_app.PublicAccess.{PublicAccessMode, PublicAccessContext}
use codex_app.WebPush.{PushPayload}
use codex_app.Bridge.{Bridge}
use codex_app.NotificationDispatcher.{dispatch, dispatch_to, enqueue_push, current_push_access}
use codex_app.NotificationDispatcher.Targets.{switched_on, dispatch_targets}
use codex_app.NotificationDispatcher.Pushes.{Reachable, enqueue_push-Reachable}
use codex_app.Tests.Records.{settings, healthy, tables}
use codex_app.Tests.Alerts.{snapshot}

abbrev one_receiver : List PublishedEvent → PublishedEvent → Option ℕ
one_receiver sent event = some 1

abbrev hub : EventHub
hub = record { events = []; snapshots = snapshot SessionStatus.idle 4 ∷ [] }

abbrev pub bridge : Bridge
bridge = record { db = healthy; hub = hub; reads = 0; sends = 0; wakes = 0 }

abbrev pub access : ℕ → PublicAccessContext
access n = record { mode = PublicAccessMode.named; public_origin = some "https://bridge.example" }

abbrev to_json : PushPayload → Option String
to_json payload = some payload.event_id

abbrev task_alert : AlertEvent
task_alert = record {
  event_id = "e";
  kind = AlertKind.completed;
  thread_id = "t";
  thread_title = "Task";
  occurred_at = 5;
}

abbrev yielded : List Received
yielded =
    Received.value (PublishedEvent.envelope (some "tablet") (ServerEnvelope.error "x"))
    ∷ Received.value
        (PublishedEvent.envelope (some "phone") (ServerEnvelope.alert_event task_alert))
    ∷ Received.lagged 2
    ∷ Received.value (PublishedEvent.envelope none (ServerEnvelope.error "y"))
    ∷ []

receive_all-addressed_example :
    receive_all 9 (record {
      replay = ServerEnvelope.session_snapshot (snapshot SessionStatus.idle 4) ∷ [];
      incoming = yielded;
      device_id = some "phone";
    })
    ≡ (
      ServerEnvelope.session_snapshot (snapshot SessionStatus.idle 4) ∷ []
          ++ (addressed (some "phone") yielded).0,
      (addressed (some "phone") yielded).1,
    )
receive_all-addressed_example =
    receive_all-addressed (some "phone") 9
      (ServerEnvelope.session_snapshot (snapshot SessionStatus.idle 4) ∷ []) yielded (omega arith)

all_snapshots_newest_example :
    Descending (λ s. s.updated_at) (all_snapshots hub)
    × (count_by (λ s. s.thread_id == "t") (all_snapshots hub)
        ≡ count_by (λ s. s.thread_id == "t") hub.snapshots)
all_snapshots_newest_example = all_snapshots_newest hub (λ s. s.thread_id == "t")

dispatch_targets_example :
    (targets : List DeviceNotificationSettings) × ((dispatch true one_receiver access to_json
        task_alert
        (λ id. 7)
        bridge).1.hub.events
      ≡ []
        ++ map
            (λ s.
              PublishedEvent.envelope (some s.device_id) (ServerEnvelope.alert_event task_alert))
            targets)
    × TextAscending (λ s. s.device_id) targets
    × (count_by (λ s. s.sound_enabled) targets
        ≡ count_by
            (λ s.
              (any_by (λ d. d.device_id == s.device_id && not (is_some d.revoked_at)) tables.devices
                && s.enabled)
              && (switched_on AlertKind.completed s && s.sound_enabled))
            tables.device_notification_settings)
unfolding dispatch dispatch_to enqueue_push current_push_access enabled_settings select_enabled
    sort_by kind_enabled active_subscription enqueue_delivery publish_to_device
dispatch_targets_example =
    dispatch_targets true one_receiver access to_json task_alert (λ id. 7) 1 bridge
      (λ s. s.sound_enabled) refl

abbrev phone_access : PublicAccessContext
phone_access = access 0

enqueue_push-Reachable_example : Reachable (some phone_access) "phone" tables.push_subscriptions
unfolding enqueue_push active_subscription enqueue_delivery
enqueue_push-Reachable_example =
    enqueue_push-Reachable true one_receiver access to_json (settings "phone" true) task_alert false
      (some phone_access) 7 bridge refl
