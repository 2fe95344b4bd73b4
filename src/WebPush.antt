-- ===== src/WebPush.antt =====
-- crates/bridge-core/src/web_push.rs: what is pushed, and how failures are classed.
-- The JSON encoder, the transport and its cryptography are parameters.
use codex_app.Prelude.{
  ℕ, String, Bool, not, ◌&&◌, ◌||◌, Option, none, some, List, [], ◌∷◌, Result, ok, err, leb, nat_eq,
  if◌then◌else◌,
}
use codex_app.Protocol.{AlertKind, AlertEvent}
use codex_app.Database.Schema.{PushSubscriptionRecord}

pub record PushPayload : Type 0 where
  pub event_id : String
  pub kind : AlertKind
  pub thread_id : String
  pub thread_title : String
  pub occurred_at : ℕ
  pub vibration_enabled : Bool
  pub vibration_pattern : List ℕ
  pub silent : Bool
  pub force_system_notification : Bool

pub record DeliveryHints : Type 0 where
  pub sound_enabled : Bool
  pub vibration_enabled : Bool
  pub force_system_notification : Bool

abbrev pub vibration_pattern : AlertKind → List ℕ
vibration_pattern AlertKind.completed = 80 ∷ []
vibration_pattern AlertKind.approval_required = 80 ∷ 60 ∷ 80 ∷ []
vibration_pattern AlertKind.input_required = 45 ∷ 40 ∷ 45 ∷ []
vibration_pattern AlertKind.error = 150 ∷ 80 ∷ 150 ∷ []

unfoldable pub for_event : AlertEvent → DeliveryHints → PushPayload
for_event event hints = record {
  event_id = event.event_id;
  kind = event.kind;
  thread_id = event.thread_id;
  thread_title = event.thread_title;
  occurred_at = event.occurred_at;
  vibration_enabled = hints.vibration_enabled;
  vibration_pattern = if hints.vibration_enabled then vibration_pattern event.kind else [];
  silent = not hints.sound_enabled;
  force_system_notification = hints.force_system_notification;
}

pub data PushFailureClass : Type 0 where
  invalid_subscription retryable permanent : PushFailureClass

abbrev pub as_str : PushFailureClass → String
as_str PushFailureClass.invalid_subscription = "push_invalid_subscription"
as_str PushFailureClass.retryable = "push_retryable"
as_str PushFailureClass.permanent = "push_permanent"

pub data WebPushTransportError : Type 0 where
  http_status : ℕ → WebPushTransportError
  timeout network invalid_subscription_material invalid_vapid_key payload_too_large :
      WebPushTransportError

unfoldable pub classify_web_push_error : WebPushTransportError → PushFailureClass
classify_web_push_error (http_status code) =
    if nat_eq code 404 || nat_eq code 410
    then PushFailureClass.invalid_subscription
    else if nat_eq code 408 || (nat_eq code 429 || (leb 500 code && leb code 599))
    then PushFailureClass.retryable
    else PushFailureClass.permanent
classify_web_push_error timeout = PushFailureClass.retryable
classify_web_push_error network = PushFailureClass.retryable
classify_web_push_error invalid_subscription_material = PushFailureClass.invalid_subscription
classify_web_push_error invalid_vapid_key = PushFailureClass.permanent
classify_web_push_error payload_too_large = PushFailureClass.permanent

abbrev pub classified : Result WebPushTransportError (Unit {0}) → Result PushFailureClass (Unit {0})
classified (ok _) = ok tt
classified (err e) = err (classify_web_push_error e)

-- `send`, for a transport that has the key material.
unfoldable pub send :
    (PushPayload → Option (List ℕ))
    → (PushSubscriptionRecord → List ℕ → Result WebPushTransportError (Unit {0}))
    → PushSubscriptionRecord
    → PushPayload
    → Result PushFailureClass (Unit {0})
unfolding classify_web_push_error
send to_vec transport subscription payload = elim (to_vec payload) [
  | none ↦ err PushFailureClass.permanent
  | some bytes ↦ classified (transport subscription bytes)
]
