-- ===== src/Normalizer/Activity.antt =====
-- The activity that a tool's item shows.
use Prim.Native.String.{◌++◌}
use codex_app.Codex.{CodexTurn}
use codex_app.Protocol.{SessionStatus}
use codex_app.Json.{
  Value, as_array, as_bool, as_u64, get, string_field, string_at, and_then, or_else, filter_map,
}
use codex_app.Normalizer.Fields.{one_of}
use codex_app.Normalizer.Status.{status_from_value}
use codex_app.Normalizer.Labels.{
  bounded_safe_detail, safe_path_label, humanize_identifier, duration_label,
}
use codex_app.Normalizer.Agents.{agent_task_label}
use codex_app.Normalizer.Commands.{
  ToolActivity, ToolLifecycle, ToolStatus, titled, full, command_activity,
}
use codex_app.Prelude.{
  ℕ, suc, String, Bool, true, false, Option, none, some, List, [], ◌∷◌, ◌++◌ as append, ◌==◌, ◌||◌,
  any_by, leb, length, map_option, unwrap_or, includes, is_blank, join, to_string,
  to_ascii_lowercase, if◌then◌else◌,
}

abbrev pub item_started : Option ToolLifecycle → Bool
item_started (some ToolLifecycle.started) = true
item_started _ = false

abbrev pub item_completed : Option ToolLifecycle → Bool
item_completed (some ToolLifecycle.completed) = true
item_completed _ = false

abbrev is_false : Option Bool → Bool
is_false (some false) = true
is_false _ = false

abbrev pub status_of_turn : Option SessionStatus → ToolStatus
status_of_turn (some SessionStatus.running) = ToolStatus.running
status_of_turn (some SessionStatus.waiting_for_approval) = ToolStatus.running
status_of_turn (some SessionStatus.waiting_for_input) = ToolStatus.running
status_of_turn (some SessionStatus.error) = ToolStatus.failed
status_of_turn _ = ToolStatus.completed

unfoldable pub tool_status_from_item : Value → CodexTurn → Option ToolLifecycle → ToolStatus
unfolding to_ascii_lowercase status_from_value
tool_status_from_item item turn lifecycle =
    let raw_status =
      to_ascii_lowercase (unwrap_or (string_field item ("status" ∷ "state" ∷ [])) "") in
    if one_of ("failed" ∷ "failure" ∷ "error" ∷ []) raw_status
      || is_false (and_then (get "success" item) as_bool)
    then ToolStatus.failed
    else if one_of ("declined" ∷ "rejected" ∷ "denied" ∷ []) raw_status
    then ToolStatus.declined
    else if item_started lifecycle
    then ToolStatus.running
    else if item_completed lifecycle
        || one_of ("completed" ∷ "complete" ∷ "done" ∷ "success" ∷ []) raw_status
    then ToolStatus.completed
    else if one_of ("inprogress" ∷ "in_progress" ∷ "running" ∷ "started" ∷ []) raw_status
    then ToolStatus.running
    else status_of_turn (status_from_value turn.raw)

abbrev subagent_words : String → String × String
subagent_words tool =
    if includes tool "spawn"
    then ("Starting subtask", "Started subtask")
    else if includes tool "wait"
    then ("Waiting for subtasks", "Finished waiting for subtasks")
    else if includes tool "close" || includes tool "interrupt"
    then ("Stopping subtask", "Stopped subtask")
    else ("Coordinating subtasks", "Coordinated subtasks")

unfoldable pub subagent_activity : Value → ToolStatus → ToolActivity
unfolding to_ascii_lowercase full bounded_safe_detail
subagent_activity item status =
    let words =
      subagent_words (to_ascii_lowercase (unwrap_or (string_field item ("tool" ∷ [])) "")) in
    titled status "subagent" words.0 words.1 "Subtask failed" "Skipped subtask" (
      and_then (full (string_field item ("prompt" ∷ [])))
        (λ prompt. bounded_safe_detail prompt 180))

-- The labels that are not there yet, in order.
abbrev add_labels : List String → List String → List String
add_labels labels [] = labels
add_labels labels (label ∷ more) =
    add_labels
      (if any_by (λ current. current == label) labels then labels else append labels (label ∷ []))
      more

abbrev files_label : List String → Option String
unfolding join to_string
files_label [] = none
files_label (label ∷ labels) =
    if leb (length labels) 2
    then some (join ", " (label ∷ labels))
    else some (to_string (suc (length labels)) ++ " files")

abbrev changed_file_detail : Value → Option String
unfolding files_label safe_path_label
changed_file_detail item = and_then (and_then (get "changes" item) as_array) (λ changes.
    files_label (
      add_labels [] (
        filter_map (λ change. map_option safe_path_label (string_field change ("path" ∷ [])))
          changes)))

abbrev named_tool : Option String → Option String → Option String
named_tool (some namespace) (some tool) = some (namespace ++ " · " ++ tool)
named_tool none (some tool) = some tool
named_tool namespace none = namespace

abbrev tool_name_detail : Value → String → Option String
unfolding full humanize_identifier bounded_safe_detail
tool_name_detail item namespace_key =
    named_tool
      (and_then (full (string_field item (namespace_key ∷ [])))
        (λ namespace. bounded_safe_detail namespace 80))
      (and_then (full (string_field item ("tool" ∷ "name" ∷ []))) humanize_identifier)

abbrev safe_field : Value → List String → Option String
unfolding bounded_safe_detail
safe_field item keys = and_then (string_field item keys) (λ value. bounded_safe_detail value 180)

abbrev pub review : ToolStatus → String → Value → ToolActivity
unfolding safe_field
review status title item = record {
  kind = "review";
  status = status;
  title = title;
  detail = safe_field item ("review" ∷ []);
}

module _ (one_decimal : ℕ → String) where
  unfoldable pub activity_of_type : String → Value → ToolStatus → ToolActivity
  unfolding command_activity changed_file_detail tool_name_detail subagent_activity agent_task_label
      duration_label humanize_identifier review safe_path_label bounded_safe_detail
  activity_of_type item_type item status =
      if one_of ("commandexecution" ∷ "command_execution" ∷ []) item_type
      then command_activity item status
      else if one_of ("filechange" ∷ "file_change" ∷ []) item_type
      then titled status "file_change" "Updating files" "Updated files" "File update failed"
          "Skipped file update" (changed_file_detail item)
      else if one_of ("mcptoolcall" ∷ "mcp_tool_call" ∷ []) item_type
      then titled status "mcp" "Using tool" "Used tool" "Tool failed" "Skipped tool"
          (tool_name_detail item "server")
      else if one_of ("dynamictoolcall" ∷ "dynamic_tool_call" ∷ []) item_type
      then titled status "tool" "Using tool" "Used tool" "Tool failed" "Skipped tool"
          (tool_name_detail item "namespace")
      else if one_of ("websearch" ∷ "web_search" ∷ []) item_type
      then titled status "web_search" "Searching the web" "Searched the web" "Web search failed"
          "Skipped web search"
          (and_then
            (or_else (string_field item ("query" ∷ [])) (string_at item ("action" ∷ "query" ∷ [])))
            (λ query. bounded_safe_detail query 180))
      else if one_of ("imageview" ∷ "image_view" ∷ []) item_type
      then titled status "image" "Viewing image" "Viewed image" "Image view failed"
          "Skipped image view" (map_option safe_path_label (string_field item ("path" ∷ [])))
      else if one_of ("imagegeneration" ∷ "image_generation" ∷ []) item_type
      then titled status "image" "Generating image" "Generated image" "Image generation failed"
          "Skipped image generation" none
      else if one_of ("collabagenttoolcall" ∷ "collab_agent_tool_call" ∷ []) item_type
      then subagent_activity item status
      else if one_of ("subagentactivity" ∷ "sub_agent_activity" ∷ []) item_type
      then titled status "subagent" "Coordinating subtask" "Coordinated subtask" "Subtask failed"
          "Skipped subtask"
          (and_then (string_field item ("agentPath" ∷ "agent_path" ∷ [])) agent_task_label)
      else if item_type == "sleep"
      then titled status "wait" "Waiting" "Waited" "Wait failed" "Skipped wait" (
          map_option (duration_label one_decimal)
            (and_then (or_else (get "durationMs" item) (get "duration_ms" item)) as_u64))
      else if one_of ("enteredreviewmode" ∷ "entered_review_mode" ∷ []) item_type
      then review status "Entered review mode" item
      else if one_of ("exitedreviewmode" ∷ "exited_review_mode" ∷ []) item_type
      then review status "Exited review mode" item
      else titled status "tool" "Working" "Finished work" "Tool failed" "Skipped tool"
          (and_then (string_field item ("name" ∷ "tool" ∷ [])) humanize_identifier)

  unfoldable pub tool_activity_from_item : Value → CodexTurn → Option ToolLifecycle → ToolActivity
  unfolding activity_of_type tool_status_from_item to_ascii_lowercase
  tool_activity_from_item item turn lifecycle =
      activity_of_type
        (to_ascii_lowercase
          (unwrap_or (string_field item ("type" ∷ "itemType" ∷ "item_type" ∷ [])) ""))
        item (tool_status_from_item item turn lifecycle)

unfoldable pub tool_activity_text : ToolActivity → String
unfolding is_blank
tool_activity_text activity = elim (full activity.detail) [
  | some detail ↦ activity.title ++ ": " ++ detail
  | none ↦ activity.title
]
