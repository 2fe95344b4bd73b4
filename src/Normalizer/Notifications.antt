-- ===== src/Normalizer/Notifications.antt =====
-- The event of a notification.
use codex_app.Codex.{CodexTurn, CodexRawEvent}
use codex_app.Protocol.{SessionEvent, SessionEventType, SessionStatus, status_name}
use codex_app.Json.{
  Value, string, array, get, string_field, and_then, json_object, from_option, to_items,
}
use codex_app.Normalizer.Fields.{
  one_of, timestamp_field, thread_id_from_value, turn_id_from_value, event_id, item_event_id,
}
use codex_app.Normalizer.Status.{status_from_value}
use codex_app.Normalizer.Text.{delta_text_from_value, summary_part_text}
use codex_app.Normalizer.Commands.{ToolLifecycle}
use codex_app.Normalizer.Events.{event_from_item}
use codex_app.Prelude.{
  ℕ, String, Option, none, some, List, [], ◌∷◌, ◌==◌, unwrap_or, is_blank, if◌then◌else◌,
}

-- A notification with the thread and the time that were read from it.
pub record Notified : Type 0 where
  pub thread_id : String
  pub params : Value
  pub created_at : ℕ

unfoldable pub notified : CodexRawEvent → Notified
unfolding timestamp_field
notified notification = record {
  thread_id = unwrap_or (thread_id_from_value notification.params) "";
  params = notification.params;
  created_at =
      unwrap_or
        (timestamp_field notification.params (
          "createdAt" ∷ "created_at" ∷ "startedAtMs" ∷ "completedAtMs" ∷ "timestamp" ∷ "time" ∷ []))
        0;
}

unfoldable pub told_text :
    Notified → String → SessionEventType → String → String → Option SessionEvent
unfolding is_blank
told_text n id event_type role text =
    if is_blank text
    then none
    else some record {
      id = id;
      thread_id = n.thread_id;
      event_type = event_type;
      payload = json_object (
          ("role", string role)
          ∷ ("text", string text)
          ∷ ("turnId", from_option (turn_id_from_value n.params))
          ∷ ("raw", n.params)
          ∷ []);
      created_at = n.created_at;
    }

unfoldable pub delta_event : Notified → SessionEventType → String → Option SessionEvent
unfolding told_text item_event_id
delta_event n event_type role =
    and_then (delta_text_from_value n.params)
      (told_text n (item_event_id n.thread_id n.params "delta") event_type role)

abbrev summary_part_event : Notified → Option SessionEvent
unfolding told_text item_event_id summary_part_text
summary_part_event n = and_then (summary_part_text n.params) (
    told_text n (item_event_id n.thread_id n.params "reasoning-summary")
      SessionEventType.reasoning_summary "reasoning")

abbrev pub status_event : Notified → String → SessionStatus → SessionEvent
unfolding event_id
status_event n suffix status = record {
  id = event_id n.thread_id n.params suffix;
  thread_id = n.thread_id;
  event_type = SessionEventType.status_changed;
  payload = json_object (("status", string (status_name status)) ∷ ("raw", n.params) ∷ []);
  created_at = n.created_at;
}

abbrev unknown_event : Notified → String → SessionEvent
unfolding event_id
unknown_event n method = record {
  id = event_id n.thread_id n.params "unknown";
  thread_id = n.thread_id;
  event_type = SessionEventType.status_changed;
  payload = json_object (("method", string method) ∷ ("raw", n.params) ∷ []);
  created_at = n.created_at;
}

abbrev pub approval_methods : List String
approval_methods =
    "item/commandExecution/requestApproval" ∷ "item/fileChange/requestApproval"
    ∷ "item/permissions/requestApproval" ∷ "mcpServer/elicitation/request" ∷ []

-- The methods that tell a status, and the others.
abbrev status_notification : Notified → String → SessionEvent
unfolding status_event status_from_value unknown_event
status_notification n method =
    if method == "turn/started"
    then status_event n "turn-started" SessionStatus.running
    else if method == "turn/completed"
    then status_event n "turn-completed" SessionStatus.idle
    else if method == "turn/failed"
    then status_event n "turn-failed" SessionStatus.error
    else if one_of approval_methods method
    then status_event n "approval-required" SessionStatus.waiting_for_approval
    else if method == "item/tool/requestUserInput"
    then status_event n "input-required" SessionStatus.waiting_for_input
    else elim (status_from_value n.params) [
      | some status ↦ status_event n "status" status
      | none ↦ unknown_event n method
    ]

abbrev turn_of : Notified → Value → CodexTurn
turn_of n item = record {
  id = string_field n.params ("turnId" ∷ "turn_id" ∷ []);
  thread_id = some n.thread_id;
  created_at = some n.created_at;
  updated_at = some n.created_at;
  raw = json_object (("items", array (to_items (item ∷ []))) ∷ []);
}

-- The item of a notification that an item has started or is completed.
abbrev pub lifecycle_item : String → Value → Option Value
lifecycle_item method params =
    if one_of ("item/started" ∷ "item/completed" ∷ []) method then get "item" params else none

abbrev lifecycle_of : String → ToolLifecycle
lifecycle_of method =
    if method == "item/started" then ToolLifecycle.started else ToolLifecycle.completed

module _ (one_decimal : ℕ → String) where
  abbrev item_notification : Notified → String → Option Value → Option SessionEvent
  unfolding event_from_item status_notification
  item_notification n method none = some (status_notification n method)
  item_notification n method (some item) =
      event_from_item one_decimal n.thread_id 0 0 item (turn_of n item) (some (lifecycle_of method))

  unfoldable pub event_of : Notified → String → Option SessionEvent
  unfolding delta_event summary_part_event item_notification
  event_of n method =
      if method == "item/agentMessage/delta"
      then delta_event n SessionEventType.message_delta "assistant"
      else if method == "item/reasoning/summaryTextDelta"
      then delta_event n SessionEventType.reasoning_summary_delta "reasoning"
      else if method == "item/plan/delta"
      then delta_event n SessionEventType.plan_delta "plan"
      else if method == "item/reasoning/textDelta"
      then none
      else if method == "item/reasoning/summaryPartAdded"
      then summary_part_event n
      else item_notification n method (lifecycle_item method n.params)

  unfoldable pub event_from_raw_notification : CodexRawEvent → Option SessionEvent
  unfolding event_of notified
  event_from_raw_notification notification = event_of (notified notification) notification.method
