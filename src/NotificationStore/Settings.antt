-- ===== src/NotificationStore/Settings.antt =====
-- notification_store.rs: the notification settings of a device, and all that is deleted with them.
use codex_app.Prelude.{
  String, Bool, List, not, ◌&&◌, ◌==◌, is_some, unwrap_or, filter_by, any_by, find_by, delete_where,
  upsert, sort_by, text_le, map, pure, ◌>>=◌, ◌>>◌,
}
use codex_app.Protocol.{AlertKind}
use codex_app.Database.{Sql, query, execute, statement, transaction}
use codex_app.Database.Schema.{
  Tables, Device, DeviceNotificationSettings, defaults_for, kind_enabled,
}

abbrev pub of_device : String → DeviceNotificationSettings → Bool
of_device device_id row = row.device_id == device_id

unfoldable pub settings_for_device : String → Sql DeviceNotificationSettings
unfolding statement
settings_for_device device_id = query (λ t.
    unwrap_or (find_by (of_device device_id) t.device_notification_settings)
      (defaults_for device_id))

abbrev pub write_settings : DeviceNotificationSettings → Tables → Tables
write_settings settings t = record t {
  device_notification_settings =
      upsert (of_device settings.device_id) (λ _. settings) settings t.device_notification_settings;
}

unfoldable pub save_settings : DeviceNotificationSettings → Sql (Unit {0})
unfolding statement
save_settings settings = execute (write_settings settings)

-- JOIN devices ON devices.device_id = settings.device_id … WHERE devices.revoked_at IS NULL
abbrev pub not_revoked : List Device → String → Bool
not_revoked devices device_id =
    any_by (λ d. d.device_id == device_id && not (is_some d.revoked_at)) devices

-- SELECT … WHERE devices.revoked_at IS NULL AND settings.enabled = 1 ORDER BY settings.device_id
unfoldable pub select_enabled : Tables → List DeviceNotificationSettings
select_enabled t =
    sort_by (λ a b. text_le a.device_id b.device_id)
      (filter_by (λ s. not_revoked t.devices s.device_id && s.enabled)
        t.device_notification_settings)

unfoldable pub enabled_settings : Sql (List DeviceNotificationSettings)
unfolding statement
enabled_settings = query select_enabled

unfoldable pub enabled_devices_for_kind : AlertKind → Sql (List String)
unfolding enabled_settings
enabled_devices_for_kind kind = do
  settings ← enabled_settings
  pure (map (λ s. s.device_id) (filter_by (λ s. kind_enabled s kind) settings))

unfoldable pub any_device_wants_approval_alerts : Sql Bool
unfolding enabled_settings
any_device_wants_approval_alerts = do
  settings ← enabled_settings
  pure (any_by (λ s. s.alert_kinds.approval_required) settings)

abbrev pub delete_settings_rows : String → Tables → Tables
delete_settings_rows device_id t = record t {
  device_notification_settings = delete_where (of_device device_id) t.device_notification_settings;
}

abbrev pub delete_subscription_rows : String → Tables → Tables
delete_subscription_rows device_id t = record t {
  push_subscriptions = delete_where (λ s. s.device_id == device_id) t.push_subscriptions;
}

abbrev pub delete_delivery_rows : String → Tables → Tables
delete_delivery_rows device_id t = record t {
  notification_deliveries = delete_where (λ d. d.device_id == device_id) t.notification_deliveries;
}

abbrev pub delete_data_rows : String → Sql (Unit {0})
delete_data_rows device_id = do
  execute (delete_settings_rows device_id)
  execute (delete_subscription_rows device_id)
  execute (delete_delivery_rows device_id)

unfoldable pub delete_device_notification_data : String → Sql (Unit {0})
unfolding statement transaction
delete_device_notification_data device_id = transaction (delete_data_rows device_id)
