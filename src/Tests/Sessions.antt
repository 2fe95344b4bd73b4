-- ===== src/Tests/Sessions.antt =====
-- Events of concrete items and notifications.
use Prim.Native.String.{◌++◌, count}
use codex_app.Codex.{CodexTurn, CodexRawEvent, CodexPendingApproval}
use codex_app.Protocol.{SessionEvent, SessionEventType, SessionStatus, ApprovalKind, status_name}
use codex_app.Json.{Value, null, string, json_object, string_at}
use codex_app.Normalizer.Roles.{role_from_item}
use codex_app.Normalizer.Commands.{ToolLifecycle}
use codex_app.Normalizer.Activity.{tool_status_from_item}
use codex_app.Normalizer.Events.{event_from_item}
use codex_app.Normalizer.Notifications.{event_from_raw_notification}
use codex_app.Normalizer.Labels.{bounded_safe_detail}
use codex_app.Normalizer.Lifecycle.{ShownAs, Allowed, tool_event_shows_status}
use codex_app.Normalizer.Identifiers.{delta_id_is_item_id}
use codex_app.Normalizer.Details.{detail_bounded}
use codex_app.Approval.{detect_pending, request_of, pending_kind}
use codex_app.Approval.Methods.{notification_of, pending_shows_waiting}
use codex_app.AlertMonitor.{after_cycle, default_monitor_config}
use codex_app.AlertMonitor.Backoff.{failures_after, all_failed, nth_failure_delay}
use codex_app.Bridge.{Failure}
use codex_app.Prelude.{
  ℕ, String, ◌+◌, ◌≤◌, ◌≡◌, refl, Option, none, some, [], ◌∷◌, ok, err, arith, min, ◌*◌, ◌^◌,
}

abbrev seconds : ℕ → String
seconds n = "1.5"

abbrev command : Value
command = json_object (
    ("type", string "commandExecution")
    ∷ ("id", string "i")
    ∷ ("command", string "cargo test")
    ∷ [])

abbrev turn : CodexTurn
turn = record {
  id = some "t";
  thread_id = some "th";
  created_at = none;
  updated_at = none;
  raw = null;
}

tool_event_shows_status_example :
    (e : SessionEvent) × (event_from_item seconds "th" 0 0 command turn (some ToolLifecycle.started)
      ≡ some e)
    × ShownAs
        (tool_status_from_item command turn (some ToolLifecycle.started))
        e.event_type
        (string_at e.payload ("toolStatus" ∷ []))
    × Allowed
        (some ToolLifecycle.started)
        (tool_status_from_item command turn (some ToolLifecycle.started))
unfolding role_from_item
tool_event_shows_status_example =
    tool_event_shows_status seconds "th" 0 0 command turn (some ToolLifecycle.started)
      SessionEventType.tool_call refl refl

abbrev told_delta : CodexRawEvent
told_delta = record {
  method = "item/agentMessage/delta";
  params = json_object (
      ("threadId", string "th")
      ∷ ("turnId", string "t")
      ∷ ("itemId", string "i")
      ∷ ("delta", string "Hel")
      ∷ []);
}

abbrev message : Value
message =
    json_object
      (("type", string "agentMessage") ∷ ("id", string "i") ∷ ("text", string "Hello") ∷ [])

event_or : SessionEvent → Option SessionEvent → SessionEvent
event_or e none = e
event_or e (some f) = f

abbrev no_event : SessionEvent
no_event = record {
  id = "";
  thread_id = "";
  event_type = SessionEventType.status_changed;
  payload = null;
  created_at = 0;
}

abbrev delta : SessionEvent
delta = event_or no_event (event_from_raw_notification seconds told_delta)

abbrev whole : SessionEvent
whole = event_or no_event (event_from_item seconds "th" 0 0 message turn none)

delta_id_is_item_id_example : (delta.id ≡ whole.id) × (whole.id ≡ "t" ++ ":" ++ "i")
unfolding event_or event_from_raw_notification event_from_item
delta_id_is_item_id_example =
    delta_id_is_item_id seconds told_delta "t" "i" delta refl refl refl refl "th" 0 0 message turn
      none whole refl refl refl

detail_bounded_example : count "cat…" ≤ 3 + 1
unfolding bounded_safe_detail
detail_bounded_example = detail_bounded "  cat a.txt" 3 refl

nth_failure_delay_example :
    (after_cycle default_monitor_config (err Failure.adapter) (
      failures_after default_monitor_config
        (ok 5_000 ∷ all_failed (Failure.adapter ∷ Failure.database ∷ []))
        7)).1
    ≡ min (5_000 * 2 ^ min 2 3) 30_000
nth_failure_delay_example =
    nth_failure_delay default_monitor_config 5_000 7 (Failure.adapter ∷ Failure.database ∷ [])
      Failure.adapter (omega arith)

abbrev elicited : CodexPendingApproval
elicited = record {
  thread_id = "th";
  request_id = "7";
  method = "mcpServer/elicitation/request";
  params = json_object (("threadId", string "th") ∷ []);
}

abbrev printed : Value → String
printed v = "{}"

pending_shows_waiting_example :
    (e : SessionEvent) × (event_from_raw_notification seconds (notification_of elicited) ≡ some e)
    × (e.event_type ≡ SessionEventType.status_changed)
    × (string_at e.payload ("status" ∷ []) ≡ some (status_name SessionStatus.waiting_for_approval))
unfolding detect_pending request_of pending_kind
pending_shows_waiting_example =
    pending_shows_waiting seconds printed elicited 5
      (request_of printed elicited 5 ApprovalKind.mcp) refl
