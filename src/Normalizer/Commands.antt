-- ===== src/Normalizer/Commands.antt =====
-- The activity of a tool, and of a shell command among them.
use Prim.Native.String.{◌++◌}
use text.Mathlib.Text.{starts_with}
use codex_app.Json.{Value, as_array, get, string_field, and_then, or_else, filter_option}
use codex_app.Normalizer.Labels.{bounded_safe_detail, safe_path_label}
use codex_app.Prelude.{
  String, Bool, Option, none, some, List, [], ◌∷◌, ◌==◌, ◌||◌, not, any_by, map_option, unwrap_or,
  includes, is_blank, to_ascii_lowercase, if◌then◌else◌,
}
use codex_app.Normalizer.Fields.{one_of}

pub data ToolLifecycle : Type 0 where
  started completed : ToolLifecycle

pub data ToolStatus : Type 0 where
  running completed failed declined : ToolStatus

abbrev pub tool_status_name : ToolStatus → String
tool_status_name ToolStatus.running = "running"
tool_status_name ToolStatus.completed = "completed"
tool_status_name ToolStatus.failed = "failed"
tool_status_name ToolStatus.declined = "declined"

pub record ToolActivity : Type 0 where
  pub kind : String
  pub status : ToolStatus
  pub title : String
  pub detail : Option String

-- The title for each status: running, completed, failed, declined.
abbrev pub activity_title : ToolStatus → String → String → String → String → String
activity_title ToolStatus.running r c f d = r
activity_title ToolStatus.completed r c f d = c
activity_title ToolStatus.failed r c f d = f
activity_title ToolStatus.declined r c f d = d

-- An activity whose title is told by its status.
abbrev pub titled :
    ToolStatus → String → String → String → String → String → Option String → ToolActivity
titled status kind r c f d detail = record {
  kind = kind;
  status = status;
  title = activity_title status r c f d;
  detail = detail;
}

abbrev contains_any : List String → String → Bool
contains_any needles command = any_by (λ needle. includes command needle) needles

abbrev runs_any : List String → String → Bool
runs_any programs command =
    any_by (λ program. starts_with command program || includes command (" " ++ program)) programs

abbrev command_runs_tests : String → Bool
command_runs_tests =
    contains_any ("cargo test" ∷ "npm test" ∷ "pnpm test" ∷ "yarn test" ∷ "pytest" ∷ "vitest" ∷ [])

abbrev command_builds_project : String → Bool
command_builds_project =
    contains_any
      ("cargo build" ∷ "npm run build" ∷ "pnpm build" ∷ "yarn build" ∷ "tauri build" ∷ [])

abbrev command_inspects_git : String → Bool
command_inspects_git = contains_any ("git status" ∷ "git diff" ∷ "git log" ∷ "git show" ∷ [])

abbrev command_searches_files : String → Bool
command_searches_files = runs_any ("rg " ∷ "grep " ∷ [])

abbrev command_reads_files : String → Bool
command_reads_files = runs_any ("sed " ∷ "cat " ∷ "head " ∷ "tail " ∷ [])

abbrev command_lists_files : String → Bool
command_lists_files = runs_any ("find " ∷ "ls " ∷ [])

unfoldable pub activity_of_command : String → ToolStatus → ToolActivity
activity_of_command lower status =
    if command_runs_tests lower
    then titled status "test" "Running tests" "Ran tests" "Tests failed" "Skipped tests" none
    else if command_builds_project lower
    then titled status "build" "Building project" "Built project" "Build failed" "Skipped build"
        none
    else if command_inspects_git lower
    then titled status "git" "Inspecting Git changes" "Inspected Git changes"
        "Git inspection failed" "Skipped Git inspection" none
    else if command_searches_files lower
    then titled status "search" "Searching files" "Searched files" "File search failed"
        "Skipped file search" none
    else if command_reads_files lower
    then titled status "read" "Reading files" "Read files" "File read failed" "Skipped file read"
        none
    else if command_lists_files lower
    then titled status "list_files" "Listing files" "Listed files" "File listing failed"
        "Skipped file listing" none
    else titled status "command" "Running command" "Ran command" "Command failed" "Skipped command"
        none

unfoldable pub command_fallback_activity : Value → Option Value → ToolStatus → ToolActivity
unfolding activity_of_command to_ascii_lowercase
command_fallback_activity item action status =
    activity_of_command
      (to_ascii_lowercase (
        unwrap_or
          (or_else (and_then action (λ a. string_field a ("command" ∷ [])))
            (string_field item ("command" ∷ [])))
          ""))
      status

abbrev query_in_path : Option String → Option String → Option String
query_in_path (some query) (some path) = some (query ++ " in " ++ path)
query_in_path (some query) none = some query
query_in_path none path = path

unfoldable pub full : Option String → Option String
unfolding is_blank
full o = filter_option (λ s. not (is_blank s)) o

abbrev search_action_detail : Value → Option String
unfolding full bounded_safe_detail safe_path_label
search_action_detail action =
    query_in_path
      (and_then (full (string_field action ("query" ∷ [])))
        (λ query. bounded_safe_detail query 140))
      (map_option safe_path_label (full (string_field action ("path" ∷ []))))

abbrev path_label : Value → Option String
unfolding safe_path_label
path_label action = map_option safe_path_label (string_field action ("path" ∷ []))

abbrev first : List Value → Option Value
first [] = none
first (v ∷ values) = some v

unfoldable pub command_activity : Value → ToolStatus → ToolActivity
unfolding command_fallback_activity search_action_detail path_label full bounded_safe_detail
    to_ascii_lowercase
command_activity item status =
    let action =
      and_then
        (and_then (or_else (get "commandActions" item) (get "command_actions" item)) as_array)
        first in
    let action_type =
      to_ascii_lowercase (unwrap_or (and_then action (λ a. string_field a ("type" ∷ []))) "") in
    if action_type == "read"
    then titled status "read" "Reading file" "Read file" "File read failed" "Skipped file read" (
        and_then action (λ a.
          or_else
            (and_then (full (string_field a ("name" ∷ []))) (λ name. bounded_safe_detail name 120))
            (path_label a)))
    else if one_of ("listfiles" ∷ "list_files" ∷ []) action_type
    then titled status "list_files" "Listing files" "Listed files" "File listing failed"
        "Skipped file listing" (and_then action path_label)
    else if action_type == "search"
    then titled status "search" "Searching files" "Searched files" "File search failed"
        "Skipped file search" (and_then action search_action_detail)
    else command_fallback_activity item action status
