-- ===== src/Tests/Worker.antt =====
-- The push delivery worker at a concrete queue.
use codex_app.Prelude.{
  ℕ, String, ◌≡◌, ◌≢◌, refl, true, false, any_by, first_by, ok, ◌&&◌, Option, none, some, List, [],
  ◌∷◌, Result, err, arith, leb, ◌==◌,
}
use codex_app.Protocol.{AlertKind}
use codex_app.Database.Schema.{
  NotificationDelivery, PushSubscriptionRecord, DeliveryStatus, as_str as status_text,
}
use codex_app.NotificationStore.{
  active_subscription, mark_delivery_failed, claim_next_due_delivery, is_due, mark_delivery_retry,
}
use codex_app.WebPush.{PushPayload, WebPushTransportError, send}
use codex_app.Bridge.{Bridge, Failure}
use codex_app.PushDeliveryWorker.{process_delivery, drain_due_once_at}
use codex_app.PushDeliveryWorker.Settling.{Without, process_delivery_settles}
use codex_app.PushDeliveryWorker.Panics.{process_delivery_no_panic}
use codex_app.PushDeliveryWorker.Draining.{drain_ends}
use codex_app.PushDeliveryWorker.Emptying.{drain_leaves_none_due}
use codex_app.Tests.Records.{tables}
use codex_app.Tests.Hub.{bridge, access}

abbrev delivery : DeliveryStatus → ℕ → NotificationDelivery
delivery status attempts = record {
  event_id = "e";
  device_id = "phone";
  payload_json = "p";
  status = status;
  attempt_count = attempts;
  next_attempt_at = 5;
  last_error_category = none;
  updated_at = 5;
}

abbrev queued : DeliveryStatus → ℕ → Bridge
queued status attempts = record bridge {
  db = record {
    tables = record tables { notification_deliveries = delivery status attempts ∷ [] };
    faults = [];
  };
}

abbrev payload : PushPayload
payload = record {
  event_id = "e";
  kind = AlertKind.completed;
  thread_id = "t";
  thread_title = "Task";
  occurred_at = 5;
  vibration_enabled = false;
  vibration_pattern = [];
  silent = true;
  force_system_notification = false;
}

abbrev from_json : String → Option PushPayload
from_json text = some payload

abbrev to_vec : PushPayload → Option (List ℕ)
to_vec p = some []

abbrev transport : ℕ → PushSubscriptionRecord → List ℕ → Result WebPushTransportError (Unit {0})
transport n s bytes = err WebPushTransportError.timeout

process_delivery_settles_example :
    let after =
      process_delivery from_json to_vec access transport
        (delivery DeliveryStatus.sending 4)
        6
        (queued DeliveryStatus.sending 4) in
    Without (λ s. status_text s == "sending") "e" "phone" after.1.db.tables
    × Without (λ s. leb 4 4 && status_text s == "pending") "e" "phone" after.1.db.tables
unfolding process_delivery send active_subscription mark_delivery_failed
process_delivery_settles_example =
    process_delivery_settles from_json to_vec access transport (delivery DeliveryStatus.sending 4) 6
      (queued DeliveryStatus.sending 4) refl

process_delivery_no_panic_example :
    (process_delivery from_json to_vec access transport
      (delivery DeliveryStatus.sending 3)
      6
      (queued DeliveryStatus.sending 3)).0
    ≢ err Failure.panicked
process_delivery_no_panic_example =
    process_delivery_no_panic from_json to_vec access transport (delivery DeliveryStatus.sending 3)
      6 (queued DeliveryStatus.sending 3)

drain_ends_example :
    (drain_due_once_at from_json to_vec access transport 2 6 (queued DeliveryStatus.pending 0)).0
    ≢ err Failure.out_of_fuel
drain_ends_example =
    drain_ends from_json to_vec access transport 6 (omega arith) 2 (queued DeliveryStatus.pending 0)
      (omega arith)

drained :
    (drain_due_once_at from_json to_vec access transport 2 6 (queued DeliveryStatus.pending 0)).0
    ≡ ok 1
unfolding drain_due_once_at claim_next_due_delivery process_delivery send active_subscription
    mark_delivery_failed first_by mark_delivery_retry
drained = refl

drain_leaves_none_due_example :
    any_by
      (is_due 6)
      (drain_due_once_at from_json to_vec access transport 2 6
        (queued DeliveryStatus.pending 0)).1.db.tables.notification_deliveries
    ≡ false
drain_leaves_none_due_example =
    drain_leaves_none_due from_json to_vec access transport 6 2 (queued DeliveryStatus.pending 0) 1
      refl drained
