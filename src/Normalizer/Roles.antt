-- ===== src/Normalizer/Roles.antt =====
-- The role of an item, and the type of its event.
use codex_app.Json.{Value, string_field, string_at, or_else}
use codex_app.Normalizer.Fields.{one_of}
use codex_app.Protocol.{SessionEventType}
use codex_app.Prelude.{
  String, Option, none, some, List, [], ◌∷◌, ◌==◌, unwrap_or, to_ascii_lowercase, if◌then◌else◌,
}

abbrev pub event_type_for_role : String → Option SessionEventType
event_type_for_role role =
    if role == "reasoning"
    then some SessionEventType.reasoning_summary
    else if role == "plan"
    then some SessionEventType.plan
    else if role == "tool"
    then some SessionEventType.tool_call
    else if role == "tool_result"
    then some SessionEventType.tool_result
    else if role == "error"
    then some SessionEventType.error
    else if one_of ("context_compaction" ∷ "unknown" ∷ []) role
    then none
    else some SessionEventType.message

abbrev pub tool_types : List String
tool_types =
    "toolcall" ∷ "tool_call" ∷ "function_call" ∷ "commandexecution" ∷ "command_execution"
    ∷ "filechange" ∷ "file_change" ∷ "mcptoolcall" ∷ "mcp_tool_call" ∷ "dynamictoolcall"
    ∷ "dynamic_tool_call" ∷ "collabagenttoolcall" ∷ "collab_agent_tool_call" ∷ "subagentactivity"
    ∷ "sub_agent_activity" ∷ "websearch" ∷ "web_search" ∷ "imageview" ∷ "image_view"
    ∷ "imagegeneration" ∷ "image_generation" ∷ "sleep" ∷ "enteredreviewmode" ∷ "entered_review_mode"
    ∷ "exitedreviewmode" ∷ "exited_review_mode" ∷ []

abbrev pub role_of_name : String → String
role_of_name raw =
    if one_of ("user" ∷ "usermessage" ∷ "user_message" ∷ "input_text" ∷ "input" ∷ []) raw
    then "user"
    else if one_of
        ("assistant" ∷ "agent" ∷ "codex" ∷ "agentmessage" ∷ "agent_message" ∷ "assistantmessage"
          ∷ "assistant_message" ∷ "output_text" ∷ "output" ∷ [])
        raw
    then "assistant"
    else if one_of ("reasoning" ∷ "reasoning_summary" ∷ "reasoningsummary" ∷ []) raw
    then "reasoning"
    else if one_of ("plan" ∷ "plan_update" ∷ "planupdate" ∷ []) raw
    then "plan"
    else if one_of ("contextcompaction" ∷ "context_compaction" ∷ []) raw
    then "context_compaction"
    else if one_of ("error" ∷ "errorevent" ∷ "error_event" ∷ []) raw
    then "error"
    else if one_of tool_types raw
    then "tool"
    else if one_of ("toolresult" ∷ "tool_result" ∷ "function_call_output" ∷ []) raw
    then "tool_result"
    else "unknown"

unfoldable pub role_from_item : Value → String
unfolding to_ascii_lowercase
role_from_item item = role_of_name (
    to_ascii_lowercase (
      unwrap_or
        (or_else
          (string_field item
            ("role" ∷ "type" ∷ "authorRole" ∷ "author_role" ∷ "itemType" ∷ "item_type" ∷ []))
          (string_at item ("author" ∷ "role" ∷ [])))
        ""))
