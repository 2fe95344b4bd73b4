-- ===== src/Normalizer/Events.antt =====
-- The events of a thread's turns.
use Prim.Native.String.{◌++◌}
use codex_app.Codex.{CodexTurn}
use codex_app.Protocol.{SessionEvent, SessionEventType}
use codex_app.Json.{
  Value, object, array, string, as_array, get, string_field, and_then, or_else, json_object, insert,
  from_option, from_pairs, to_items, Fields,
}
use codex_app.Normalizer.Fields.{normalize_timestamp_ms, timestamp_field}
use codex_app.Normalizer.Text.{text_for_item}
use codex_app.Normalizer.Attachments.{
  image_attachments_from_value, scrub_attachment_paths_from_text,
}
use codex_app.Normalizer.Roles.{role_from_item, event_type_for_role}
use codex_app.Normalizer.Commands.{ToolActivity, ToolLifecycle, ToolStatus, tool_status_name}
use codex_app.Normalizer.Activity.{tool_activity_from_item, tool_activity_text}
use codex_app.Prelude.{
  ℕ, ◌+◌, String, Bool, true, false, Option, none, some, List, [], ◌∷◌, ◌++◌ as append, ◌==◌, ◌&&◌,
  map_option, unwrap_or, is_blank, to_string, if◌then◌else◌,
}

abbrev message_item : String → Option Value → List Value
message_item kind none = []
message_item kind (some content) =
    json_object (("type", string kind) ∷ ("content", content) ∷ []) ∷ []

abbrev or_itself : Value → List Value → List Value
or_itself v [] = v ∷ []
or_itself v (item ∷ items) = item ∷ items

unfoldable pub turn_items : Value → List Value
turn_items v = elim (and_then (get "items" v) as_array) [
  | some items ↦ items
  | none ↦ elim (and_then (get "messages" v) as_array) [
    | some messages ↦ messages
    | none ↦ or_itself v (
        append (message_item "userMessage" (get "input" v)) (
          append (message_item "agentMessage" (get "output" v)) (
            append (message_item "userMessage" (get "request" v))
              (message_item "agentMessage" (get "response" v)))))
  ]
]

abbrev pub is_tool_type : SessionEventType → Bool
is_tool_type SessionEventType.tool_call = true
is_tool_type SessionEventType.tool_result = true
is_tool_type _ = false

abbrev pub type_of_tool : ToolStatus → SessionEventType
type_of_tool ToolStatus.running = SessionEventType.tool_call
type_of_tool _ = SessionEventType.tool_result

abbrev pub type_with : Option ToolActivity → SessionEventType → SessionEventType
type_with none event_type = event_type
type_with (some activity) event_type = type_of_tool activity.status

abbrev is_tool_result : SessionEventType → Bool
is_tool_result SessionEventType.tool_result = true
is_tool_result _ = false

abbrev text_of : Option ToolActivity → Value → SessionEventType → Option String
unfolding tool_activity_text text_for_item
text_of none item event_type = text_for_item item event_type
text_of (some activity) item event_type = some (tool_activity_text activity)

abbrev pub with_detail : Option String → Fields → Fields
with_detail none fields = fields
with_detail (some detail) fields = insert "detail" (string detail) fields

abbrev with_activity : Option ToolActivity → Fields → Fields
with_activity none fields = fields
with_activity (some activity) fields = with_detail activity.detail (
    insert "title" (string activity.title) (
      insert "toolStatus" (string (tool_status_name activity.status))
        (insert "toolKind" (string activity.kind) fields)))

abbrev pub with_attachments : List Value → Fields → Fields
with_attachments [] fields = fields
with_attachments (a ∷ attachments) fields =
    insert "attachments" (array (to_items (a ∷ attachments))) fields

abbrev is_none_left : List Value → Bool
is_none_left [] = true
is_none_left (a ∷ attachments) = false

-- The types of events that are dropped when they have no text.
abbrev pub needs_text : SessionEventType → String → Bool
needs_text SessionEventType.reasoning_summary role = true
needs_text SessionEventType.plan role = true
needs_text SessionEventType.message role = role == "assistant"
needs_text _ role = false

abbrev event_created_at : Value → CodexTurn → ℕ
unfolding timestamp_field normalize_timestamp_ms
event_created_at item turn =
    unwrap_or
      (or_else (timestamp_field item ("createdAt" ∷ "created_at" ∷ "timestamp" ∷ [])) (
        or_else (map_option normalize_timestamp_ms turn.created_at)
          (map_option normalize_timestamp_ms turn.updated_at)))
      0

-- The identifier of an item's event, from the item's own and its turn's.
unfoldable pub id_of : String → ℕ → ℕ → Option String → Option String → String
unfolding to_string
id_of thread_id turn_index item_index (some id) (some turn_id) = turn_id ++ ":" ++ id
id_of thread_id turn_index item_index (some id) none = id
id_of thread_id turn_index item_index none (some turn_id) = turn_id ++ ":" ++ to_string item_index
id_of thread_id turn_index item_index none none =
    thread_id ++ ":turn-" ++ to_string turn_index ++ ":item-" ++ to_string item_index

unfoldable pub item_id : String → ℕ → ℕ → Value → CodexTurn → String
unfolding id_of
item_id thread_id turn_index item_index item turn =
    id_of thread_id turn_index item_index (string_field item ("id" ∷ "itemId" ∷ "item_id" ∷ []))
      turn.id

-- The end of `event_from_item`, with the activity of a tool.
unfoldable pub event_with :
    String
    → ℕ
    → ℕ
    → Value
    → CodexTurn
    → String
    → SessionEventType
    → Option ToolActivity
    → Option SessionEvent
unfolding text_of event_created_at item_id image_attachments_from_value
    scrub_attachment_paths_from_text is_blank
event_with thread_id turn_index item_index item turn role role_type activity =
    let event_type = type_with activity role_type in
    let attachments = image_attachments_from_value item in
    let text =
      unwrap_or
        (map_option (λ t. scrub_attachment_paths_from_text t attachments)
          (text_of activity item event_type))
        "" in
    let payload_role = if is_tool_result event_type then "tool_result" else role in
    if is_blank text && is_none_left attachments && needs_text event_type role
    then none
    else some record {
      id = item_id thread_id turn_index item_index item turn;
      thread_id = thread_id;
      event_type = event_type;
      payload = object (
          with_attachments attachments (
            with_activity activity (
              from_pairs (
                ("role", string payload_role)
                ∷ ("text", string text)
                ∷ ("turnId", from_option turn.id)
                ∷ ("raw", item)
                ∷ []))));
      created_at = event_created_at item turn;
    }

module _ (one_decimal : ℕ → String) where
  unfoldable pub activity_for :
      SessionEventType → Value → CodexTurn → Option ToolLifecycle → Option ToolActivity
  unfolding tool_activity_from_item
  activity_for event_type item turn lifecycle =
      if is_tool_type event_type
      then some (tool_activity_from_item one_decimal item turn lifecycle)
      else none

  unfoldable pub event_from_item :
      String → ℕ → ℕ → Value → CodexTurn → Option ToolLifecycle → Option SessionEvent
  unfolding event_with activity_for role_from_item
  event_from_item thread_id turn_index item_index item turn lifecycle =
      let role = role_from_item item in
      and_then (event_type_for_role role) (λ role_type.
        event_with thread_id turn_index item_index item turn role role_type
          (activity_for role_type item turn lifecycle))

  abbrev pub event_list : Option SessionEvent → List SessionEvent → List SessionEvent
  event_list none events = events
  event_list (some event) events = event ∷ events

  unfoldable pub events_from_items : String → ℕ → ℕ → CodexTurn → List Value → List SessionEvent
  unfolding event_from_item
  events_from_items thread_id turn_index item_index turn [] = []
  events_from_items thread_id turn_index item_index turn (item ∷ items) =
      event_list (event_from_item thread_id turn_index item_index item turn none)
        (events_from_items thread_id turn_index (item_index + 1) turn items)

  unfoldable pub events_from_turn : String → ℕ → CodexTurn → List SessionEvent
  unfolding events_from_items turn_items
  events_from_turn thread_id turn_index turn =
      events_from_items thread_id turn_index 0 turn (turn_items turn.raw)

  abbrev events_from_index : String → ℕ → List CodexTurn → List SessionEvent
  unfolding events_from_turn
  events_from_index thread_id turn_index [] = []
  events_from_index thread_id turn_index (turn ∷ turns) =
      append (events_from_turn thread_id turn_index turn)
        (events_from_index thread_id (turn_index + 1) turns)

  unfoldable pub events_from_turns : String → List CodexTurn → List SessionEvent
  unfolding events_from_index
  events_from_turns thread_id turns = events_from_index thread_id 0 turns
