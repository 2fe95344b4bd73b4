-- ===== src/NotificationStore/Deliveries.antt =====
-- notification_store.rs: the delivery queue. A row is named by its event and its device.
use codex_app.Prelude.{
  ℕ, String, Bool, Option, none, some, List, [], ◌∷◌, ◌&&◌, ◌||◌, ◌==◌, not, is_some, unwrap_or,
  any_by, find_by, update_where, insert_or_ignore, filter_by, first_by, count_by, leb, ltb, nat_eq,
  text_le, min, saturating_add, u32_max, pure, ◌>>=◌, ◌>>◌, if◌then◌else◌,
}
use codex_app.Database.{Sql, query, execute, statement, transaction}
use codex_app.Database.Schema.{NotificationDelivery, DeliveryStatus, as_str}

abbrev pub keyed : String → String → NotificationDelivery → Bool
keyed event_id device_id row = row.event_id == event_id && row.device_id == device_id

-- The restart of `migrate`: what was being sent is pending again.
unfoldable pub recover_sending : Sql (Unit {0})
unfolding statement
recover_sending = execute (λ t. record t {
  notification_deliveries =
      update_where (λ d. as_str d.status == "sending")
        (λ d. record d { status = DeliveryStatus.pending }) t.notification_deliveries;
})

unfoldable pub enqueue_delivery : NotificationDelivery → Sql Bool
unfolding statement
enqueue_delivery delivery =
    statement
      (λ t. not (any_by (keyed delivery.event_id delivery.device_id) t.notification_deliveries))
      (λ t. record t {
        notification_deliveries =
            insert_or_ignore (keyed delivery.event_id delivery.device_id) delivery
              t.notification_deliveries;
      })

-- WHERE status = 'pending' AND next_attempt_at <= now
abbrev pub is_due : ℕ → NotificationDelivery → Bool
is_due now d = as_str d.status == "pending" && leb d.next_attempt_at now

-- ORDER BY next_attempt_at, updated_at, event_id, device_id
abbrev pub comes_first : NotificationDelivery → NotificationDelivery → Bool
comes_first a b =
    ltb a.next_attempt_at b.next_attempt_at
    || (nat_eq a.next_attempt_at b.next_attempt_at
        && (ltb a.updated_at b.updated_at
            || (nat_eq a.updated_at b.updated_at
                && (if a.event_id == b.event_id
                    then text_le a.device_id b.device_id
                    else text_le a.event_id b.event_id))))

abbrev pub claimed : ℕ → NotificationDelivery → NotificationDelivery
claimed now d = record d {
  status = DeliveryStatus.sending;
  attempt_count = saturating_add u32_max d.attempt_count 1;
  updated_at = now;
}

abbrev pub next_due : ℕ → List NotificationDelivery → Option NotificationDelivery
next_due now rows = first_by comes_first (filter_by (is_due now) rows)

-- The UPDATE of the claimed row, and what is returned.
abbrev pub mark_claimed : ℕ → Option NotificationDelivery → Sql (Option NotificationDelivery)
mark_claimed now none = pure none
mark_claimed now (some d) = do
  let delivery = claimed now d
  execute (λ t. record t {
    notification_deliveries =
        update_where (keyed delivery.event_id delivery.device_id)
          (λ row. record row {
            status = DeliveryStatus.sending;
            attempt_count = delivery.attempt_count;
            updated_at = now;
          })
          t.notification_deliveries;
  })
  pure (some delivery)

unfoldable pub claim_next_due_delivery : ℕ → Sql (Option NotificationDelivery)
unfolding statement transaction
claim_next_due_delivery now =
    transaction
      (do found ← query (λ t. next_due now t.notification_deliveries); mark_claimed now found)

abbrev pub earliest : List NotificationDelivery → Option ℕ
earliest [] = none
earliest (d ∷ rest) =
    let others = earliest rest in
    if as_str d.status == "pending"
    then some (elim others [ none ↦ d.next_attempt_at | some n ↦ min d.next_attempt_at n ])
    else others

unfoldable pub next_delivery_due_at : Sql (Option ℕ)
unfolding statement
next_delivery_due_at = query (λ t. earliest t.notification_deliveries)

abbrev pub sent_at : ℕ → NotificationDelivery → NotificationDelivery
sent_at now d = record d {
  status = DeliveryStatus.sent;
  last_error_category = none;
  updated_at = now;
}

unfoldable pub mark_delivery_sent : String → String → ℕ → Sql (Unit {0})
unfolding statement transaction
mark_delivery_sent event_id device_id now = transaction (do
  execute (λ t. record t {
    notification_deliveries =
        update_where (keyed event_id device_id) (sent_at now) t.notification_deliveries;
  })
  execute (λ t. record t {
    push_subscriptions =
        update_where (λ s. s.device_id == device_id && not (is_some s.invalidated_at))
          (λ s. record s { last_success_at = some now }) t.push_subscriptions;
  }))

-- COALESCE(next_attempt_at, the row's own)
abbrev pub with_status :
    DeliveryStatus → Option ℕ → Option String → ℕ → NotificationDelivery → NotificationDelivery
with_status status next_attempt_at category now d = record d {
  status = status;
  next_attempt_at = unwrap_or next_attempt_at d.next_attempt_at;
  last_error_category = category;
  updated_at = now;
}

unfoldable pub update_delivery_status :
    String → String → DeliveryStatus → Option ℕ → Option String → ℕ → Sql (Unit {0})
unfolding statement
update_delivery_status event_id device_id status next_attempt_at category now = execute (λ t.
    record t {
      notification_deliveries =
          update_where (keyed event_id device_id) (with_status status next_attempt_at category now)
            t.notification_deliveries;
    })

unfoldable pub mark_delivery_retry : String → String → ℕ → String → ℕ → Sql (Unit {0})
unfolding update_delivery_status
mark_delivery_retry event_id device_id next_attempt_at category now =
    update_delivery_status event_id device_id DeliveryStatus.pending (some next_attempt_at)
      (some category) now

unfoldable pub mark_delivery_invalid_subscription : String → String → ℕ → Sql (Unit {0})
unfolding update_delivery_status
mark_delivery_invalid_subscription event_id device_id now =
    update_delivery_status event_id device_id DeliveryStatus.invalid_subscription none
      (some "push_invalid_subscription") now

unfoldable pub mark_delivery_failed : String → String → String → ℕ → Sql (Unit {0})
unfolding update_delivery_status
mark_delivery_failed event_id device_id category now =
    update_delivery_status event_id device_id DeliveryStatus.failed none (some category) now

-- WHERE status IN ('pending', 'sending')
abbrev pub is_open : NotificationDelivery → Bool
is_open d = as_str d.status == "pending" || as_str d.status == "sending"

unfoldable pub fail_pending_deliveries : String → ℕ → Sql ℕ
unfolding statement
fail_pending_deliveries category now =
    statement (λ t. count_by is_open t.notification_deliveries)
      (λ t. record t {
        notification_deliveries =
            update_where is_open
              (λ d. record d {
                status = DeliveryStatus.failed;
                last_error_category = some category;
                updated_at = now;
              })
              t.notification_deliveries;
      })

unfoldable pub delivery_for : String → String → Sql (Option NotificationDelivery)
unfolding statement
delivery_for event_id device_id =
    query (λ t. find_by (keyed event_id device_id) t.notification_deliveries)

unfoldable pub delivery_count : String → Sql ℕ
unfolding statement
delivery_count device_id =
    query (λ t. count_by (λ d. d.device_id == device_id) t.notification_deliveries)
