-- ===== src/Tests/Queue.antt =====
-- The delivery queue of notification_store.rs at concrete rows.
use codex_app.Prelude.{
  ℕ, String, leb, min, ◌+◌, ◌-◌, ◌^◌, ◌==◌, ◌&&◌, ◌≡◌, refl, false, not, none, some, [], ◌∷◌,
  find_by, count_by, any_by, is_some, if◌then◌else◌, first_by,
}
use codex_app.Database.{Db}
use codex_app.Database.Schema.{NotificationDelivery, DeliveryStatus, as_str}
use codex_app.NotificationStore.{
  keyed, claimed, is_due, is_open, claim_next_due_delivery, enqueue_delivery, recover_sending,
  fail_pending_deliveries,
}
use codex_app.NotificationStore.Queue.Keys.{UniqueKeys, QueueCall, run_calls, run_calls-UniqueKeys}
use codex_app.NotificationStore.Queue.Claim.{Picked, claim_takes_earliest, claim_none}
use codex_app.NotificationStore.Queue.Marks.{
  enqueue_delivery_once, is_sending, is_pending, recover_sending_pending, fail_pending_closes,
}

abbrev delivery : String → String → DeliveryStatus → ℕ → ℕ → NotificationDelivery
delivery event_id device_id status attempts due = record {
  event_id = event_id;
  device_id = device_id;
  payload_json = "{}";
  status = status;
  attempt_count = attempts;
  next_attempt_at = due;
  last_error_category = none;
  updated_at = 5;
}

abbrev late : NotificationDelivery
late = delivery "e1" "phone" DeliveryStatus.pending 0 50

abbrev early : NotificationDelivery
early = delivery "e2" "phone" DeliveryStatus.pending 1 20

abbrev in_flight : NotificationDelivery
in_flight = delivery "e3" "tablet" DeliveryStatus.sending 1 10

abbrev queue : Db
queue = record {
  tables = record {
    devices = [];
    event_cursors = [];
    device_notification_settings = [];
    session_alert_state = [];
    push_subscriptions = [];
    notification_deliveries = late ∷ early ∷ in_flight ∷ [];
  };
  faults = [];
}

queue-UniqueKeys : UniqueKeys queue.tables
queue-UniqueKeys = (refl, (refl, (refl, tt)))

run_calls-UniqueKeys_example :
    UniqueKeys
      (run_calls
        (QueueCall.enqueue late ∷ QueueCall.claim 100 ∷ QueueCall.recover ∷ [])
        queue).tables
run_calls-UniqueKeys_example =
    run_calls-UniqueKeys (QueueCall.enqueue late ∷ QueueCall.claim 100 ∷ QueueCall.recover ∷ [])
      queue queue-UniqueKeys

claim_takes_earliest_example :
    (x : NotificationDelivery) × Picked 100 queue.tables.notification_deliveries x
    × (claimed 100 early ≡ record x {
      status = DeliveryStatus.sending;
      attempt_count = min (x.attempt_count + 1) (2 ^ 32 - 1);
      updated_at = 100;
    })
    × (find_by
          (λ y. y.event_id == "e2" && y.device_id == "phone")
          (claim_next_due_delivery 100 queue).1.tables.notification_deliveries
        ≡ (if x.event_id == "e2" && x.device_id == "phone"
            then some (claimed 100 early)
            else find_by
                (λ y. y.event_id == "e2" && y.device_id == "phone")
                queue.tables.notification_deliveries))
unfolding claim_next_due_delivery first_by
claim_takes_earliest_example =
    claim_takes_earliest 100 queue (claimed 100 early) "e2" "phone" queue-UniqueKeys refl

claim_none_example :
    (any_by
        (λ y. as_str y.status == "pending" && leb y.next_attempt_at 15)
        queue.tables.notification_deliveries
      ≡ false)
    × ((claim_next_due_delivery 15 queue).1.tables.notification_deliveries
        ≡ queue.tables.notification_deliveries)
unfolding claim_next_due_delivery first_by
claim_none_example = claim_none 15 queue refl

enqueue_delivery_once_example :
    let again = delivery "e2" "phone" DeliveryStatus.pending 0 99 in
    (false ≡ not (is_some (find_by (keyed "e2" "phone") queue.tables.notification_deliveries)))
    × (find_by (keyed "e2" "phone") (enqueue_delivery again queue).1.tables.notification_deliveries
        ≡ some early)
unfolding enqueue_delivery
enqueue_delivery_once_example =
    enqueue_delivery_once (delivery "e2" "phone" DeliveryStatus.pending 0 99) queue false "e2"
      "phone" refl

recover_sending_pending_example :
    (count_by is_sending (recover_sending queue).1.tables.notification_deliveries ≡ 0)
    × (count_by is_pending (recover_sending queue).1.tables.notification_deliveries ≡ 3)
unfolding recover_sending
recover_sending_pending_example = recover_sending_pending queue refl

fail_pending_closes_example :
    let rows = (fail_pending_deliveries "shutdown" 60 queue).1.tables.notification_deliveries in
    (◌≡◌ {A = ℕ} 3 3) × (any_by is_open rows ≡ false) × (any_by (is_due 1000) rows ≡ false)
unfolding fail_pending_deliveries
fail_pending_closes_example = fail_pending_closes "shutdown" 60 1000 queue 3 refl
