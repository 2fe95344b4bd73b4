-- ===== src/Tests/Records.antt =====
-- Settings, subscriptions, alert states and deletions of notification_store.rs at concrete rows.
use codex_app.Prelude.{
  ℕ, String, ◌≡◌, refl, Bool, true, false, ◌&&◌, Option, none, some, [], ◌∷◌, ok, err, ◌⊎◌, All,
  count_by, sort_by,
}
use codex_app.Protocol.{SessionStatus}
use codex_app.Database.{Db, DbError}
use codex_app.Database.Schema.{
  Tables, Device, DeviceNotificationSettings, PushSubscriptionRecord, SessionAlertState,
  default_alert_kinds,
}
use codex_app.NotificationStore.{
  enabled_settings, select_enabled, not_revoked, delete_device_notification_data,
}
use codex_app.NotificationStore.Records.{
  may_alert, enabled_settings_exact, HasNoData, delete_device_atomic,
}

abbrev pub device : String → Option ℕ → Device
device device_id revoked_at = record {
  device_id = device_id;
  display_name = "Phone";
  secret_hash = "h";
  paired_origin = none;
  created_at = 1;
  last_seen_at = 1;
  revoked_at = revoked_at;
}

abbrev pub settings : String → Bool → DeviceNotificationSettings
settings device_id enabled = record {
  device_id = device_id;
  enabled = enabled;
  alert_kinds = default_alert_kinds;
  sound_enabled = true;
  vibration_enabled = false;
  updated_at = 3;
}

abbrev pub subscription : String → PushSubscriptionRecord
subscription device_id = record {
  device_id = device_id;
  origin = "https://bridge.example";
  endpoint = "https://push.example/x";
  p256dh = "k";
  auth = "a";
  created_at = 2;
  last_success_at = none;
  invalidated_at = none;
}

abbrev pub tables : Tables
tables = record {
  devices = device "phone" none ∷ device "tablet" (some 9) ∷ [];
  event_cursors = [];
  device_notification_settings = settings "tablet" true ∷ settings "phone" true ∷ [];
  session_alert_state = [];
  push_subscriptions = subscription "phone" ∷ [];
  notification_deliveries = [];
}

abbrev pub healthy : Db
healthy = record { tables = tables; faults = [] }

-- The third statement of a transaction is refused.
abbrev failing : Db
failing = record { tables = tables; faults = false ∷ false ∷ true ∷ [] }

abbrev idle_state : SessionAlertState
idle_state = record {
  thread_id = "t";
  status = SessionStatus.idle;
  updated_at = 4;
  state_cycle = 0;
  known_approval_ids = [];
  fallback_approval_cycle = none;
}

enabled_settings_exact_example :
    All
      (λ s. (s.enabled ≡ true) × (not_revoked tables.devices s.device_id ≡ true))
      (settings "phone" true ∷ [])
    × (count_by (λ s. s.sound_enabled) (settings "phone" true ∷ [])
        ≡ count_by
            (λ s. may_alert tables.devices s && s.sound_enabled)
            tables.device_notification_settings)
unfolding enabled_settings select_enabled sort_by
enabled_settings_exact_example =
    enabled_settings_exact healthy (settings "phone" true ∷ []) (λ s. s.sound_enabled) refl

delete_device_atomic_example :
    (((delete_device_notification_data "phone" failing).0 ≡ ok tt)
      × HasNoData "phone" (delete_device_notification_data "phone" failing).1.tables)
    ⊎ (((delete_device_notification_data "phone" failing).0 ≡ err DbError.engine_fault)
        × ((delete_device_notification_data "phone" failing).1.tables ≡ tables))
delete_device_atomic_example = delete_device_atomic "phone" failing
