-- ===== src/NotificationStore/Subscriptions.antt =====
-- notification_store.rs: the push subscription of a device.
use codex_app.Prelude.{
  ℕ, String, Bool, Option, none, some, List, not, ◌&&◌, ◌==◌, is_some, unwrap_or, filter_by,
  find_by, update_where, upsert, sort_by, first_by, leb, map, ◌>>◌, if◌then◌else◌,
}
use codex_app.Database.{Sql, query, execute, statement, transaction}
use codex_app.Database.Schema.{PushSubscriptionRecord, NotificationDelivery}
use codex_app.NotificationStore.Settings.{delete_subscription_rows, delete_delivery_rows}

abbrev pub subscribed : String → PushSubscriptionRecord → Bool
subscribed device_id row = row.device_id == device_id

abbrev pub subscribed_active : String → PushSubscriptionRecord → Bool
subscribed_active device_id row = row.device_id == device_id && not (is_some row.invalidated_at)

unfoldable pub save_subscription : PushSubscriptionRecord → Sql (Unit {0})
unfolding statement
save_subscription subscription = execute (λ t. record t {
  push_subscriptions =
      upsert (subscribed subscription.device_id) (λ _. subscription) subscription
        t.push_subscriptions;
})

unfoldable pub subscription_for_device : String → Sql (Option PushSubscriptionRecord)
unfolding statement
subscription_for_device device_id = query (λ t. find_by (subscribed device_id) t.push_subscriptions)

unfoldable pub active_subscription : String → Sql (Option PushSubscriptionRecord)
unfolding statement
active_subscription device_id =
    query (λ t. find_by (subscribed_active device_id) t.push_subscriptions)

abbrev pub set_invalidated : ℕ → PushSubscriptionRecord → PushSubscriptionRecord
set_invalidated invalidated_at row = record row { invalidated_at = some invalidated_at }

unfoldable pub invalidate_subscription : String → ℕ → Sql (Unit {0})
unfolding statement
invalidate_subscription device_id invalidated_at = execute (λ t. record t {
  push_subscriptions =
      update_where (subscribed device_id) (set_invalidated invalidated_at) t.push_subscriptions;
})

unfoldable pub delete_subscription : String → Sql (Unit {0})
unfolding statement transaction
delete_subscription device_id =
    transaction
      (do execute (delete_subscription_rows device_id); execute (delete_delivery_rows device_id))

pub record PushSubscriptionDiagnostic : Type 0 where
  pub subscription_state : String
  pub endpoint_host : String
  pub last_success_at : Option ℕ
  pub last_error_category : Option String

-- The latest error category among the deliveries of a device.
abbrev pub latest_error : String → List NotificationDelivery → Option String
latest_error device_id deliveries =
    elim (first_by (λ a b. leb b.updated_at a.updated_at)
      (filter_by (λ d. d.device_id == device_id && is_some d.last_error_category) deliveries)) [
        | none ↦ none
        | some d ↦ d.last_error_category
      ]

-- `host_of` is the host of a text that the `url` crate parses.
unfoldable pub push_subscription_diagnostics :
    (String → Option String) → Sql (List PushSubscriptionDiagnostic)
unfolding statement
push_subscription_diagnostics host_of = query (λ t.
    map
      (λ (s : PushSubscriptionRecord). record {
        subscription_state = if is_some s.invalidated_at then "needs_repair" else "active";
        endpoint_host = unwrap_or (host_of s.endpoint) "invalid-endpoint";
        last_success_at = s.last_success_at;
        last_error_category = latest_error s.device_id t.notification_deliveries;
      })
      (sort_by (λ a b. leb b.created_at a.created_at) t.push_subscriptions))
