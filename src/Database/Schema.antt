-- ===== src/Database/Schema.antt =====
-- The rows of the SQLite file that crates/bridge-core/src/storage.rs and notification_store.rs
-- share. A column is typed by the value that the program writes to it and reads back from it.
use codex_app.Prelude.{ℕ, String, Bool, true, false, Option, none, some, List, ◌==◌, if◌then◌else◌}
use codex_app.Protocol.{SessionStatus, AlertKind}

pub record Device : Type 0 where
  pub device_id : String
  pub display_name : String
  pub secret_hash : String
  pub paired_origin : Option String
  pub created_at : ℕ
  pub last_seen_at : ℕ
  pub revoked_at : Option ℕ

pub record EventCursor : Type 0 where
  pub thread_id : String
  pub cursor : String
  pub updated_at : ℕ

pub record AlertKindSettings : Type 0 where
  pub completed : Bool
  pub approval_required : Bool
  pub input_required : Bool
  pub error : Bool

abbrev pub default_alert_kinds : AlertKindSettings
default_alert_kinds = record {
  completed = true;
  approval_required = true;
  input_required = true;
  error = true;
}

pub record DeviceNotificationSettings : Type 0 where
  pub device_id : String
  pub enabled : Bool
  pub alert_kinds : AlertKindSettings
  pub sound_enabled : Bool
  pub vibration_enabled : Bool
  pub updated_at : ℕ

abbrev pub defaults_for : String → DeviceNotificationSettings
defaults_for device_id = record {
  device_id = device_id;
  enabled = false;
  alert_kinds = default_alert_kinds;
  sound_enabled = true;
  vibration_enabled = true;
  updated_at = 0;
}

unfoldable pub kind_enabled : DeviceNotificationSettings → AlertKind → Bool
kind_enabled settings AlertKind.completed = settings.alert_kinds.completed
kind_enabled settings AlertKind.approval_required = settings.alert_kinds.approval_required
kind_enabled settings AlertKind.input_required = settings.alert_kinds.input_required
kind_enabled settings AlertKind.error = settings.alert_kinds.error

pub record SessionAlertState : Type 0 where
  pub thread_id : String
  pub status : SessionStatus
  pub updated_at : ℕ
  pub state_cycle : ℕ
  pub known_approval_ids : List String
  pub fallback_approval_cycle : Option ℕ

pub record PushSubscriptionRecord : Type 0 where
  pub device_id : String
  pub origin : String
  pub endpoint : String
  pub p256dh : String
  pub auth : String
  pub created_at : ℕ
  pub last_success_at : Option ℕ
  pub invalidated_at : Option ℕ

pub data DeliveryStatus : Type 0 where
  pending sending sent invalid_subscription failed : DeliveryStatus

abbrev pub as_str : DeliveryStatus → String
as_str DeliveryStatus.pending = "pending"
as_str DeliveryStatus.sending = "sending"
as_str DeliveryStatus.sent = "sent"
as_str DeliveryStatus.invalid_subscription = "invalid_subscription"
as_str DeliveryStatus.failed = "failed"

unfoldable pub from_str : String → Option DeliveryStatus
from_str value =
    if value == "pending"
    then some DeliveryStatus.pending
    else if value == "sending"
    then some DeliveryStatus.sending
    else if value == "sent"
    then some DeliveryStatus.sent
    else if value == "invalid_subscription"
    then some DeliveryStatus.invalid_subscription
    else if value == "failed"
    then some DeliveryStatus.failed
    else none

pub record NotificationDelivery : Type 0 where
  pub event_id : String
  pub device_id : String
  pub payload_json : String
  pub status : DeliveryStatus
  pub attempt_count : ℕ
  pub next_attempt_at : ℕ
  pub last_error_category : Option String
  pub updated_at : ℕ

pub record Tables : Type 0 where
  pub devices : List Device
  pub event_cursors : List EventCursor
  pub device_notification_settings : List DeviceNotificationSettings
  pub session_alert_state : List SessionAlertState
  pub push_subscriptions : List PushSubscriptionRecord
  pub notification_deliveries : List NotificationDelivery
