-- ===== src/Approval.antt =====
-- crates/bridge-core/src/approval.rs: the requests for approval that Codex makes.
-- `print`: a JSON value as text.
pub mod Methods
use Prim.Native.String.{◌++◌, len, slice}
use text.Mathlib.Text.{find?}
use codex_app.Codex.{CodexPendingApproval}
use codex_app.Protocol.{ApprovalKind, ApprovalRequest}
use codex_app.Json.{
  Value, Fields, string, as_array, as_object, as_str, get, pointer, entries, string_field,
  number_field, string_at, and_then, or_else, filter_option, filter_map, json_object,
}
use codex_app.Prelude.{
  ℕ, String, ◌+◌, Bool, true, false, Option, none, some, List, [], ◌∷◌, ◌==◌, ◌||◌, map, map_option,
  unwrap_or, is_some, includes, any_by, join, is_empty_text, to_string, to_ascii_lowercase,
  if◌then◌else◌, not,
}

-- Whether a text contains one of some words.
abbrev pub mentions : List String → String → Bool
mentions words haystack = any_by (λ word. includes haystack word) words

-- The texts that are there, joined, in lower case.
abbrev haystack_of : Option String → Option String → String
unfolding join to_ascii_lowercase
haystack_of a b = to_ascii_lowercase (join " " (filter_map (λ o. o) (a ∷ b ∷ [])))

unfoldable pub looks_like_approval : Value → Bool
unfolding haystack_of
looks_like_approval raw =
    is_some (string_field raw ("approvalId" ∷ "approval_id" ∷ "riskHint" ∷ "risk_hint" ∷ []))
    || mentions ("approval" ∷ "approve" ∷ "confirm" ∷ "permission" ∷ []) (
        haystack_of (string_field raw ("type" ∷ "kind" ∷ "status" ∷ "state" ∷ "action" ∷ []))
          (string_field raw ("title" ∷ "message" ∷ "summary" ∷ "description" ∷ [])))

abbrev pub kind_of_haystack : String → ApprovalKind
kind_of_haystack haystack =
    if mentions ("command" ∷ "shell" ∷ "exec" ∷ []) haystack
    then ApprovalKind.command
    else if mentions ("file" ∷ "edit" ∷ "patch" ∷ "write" ∷ []) haystack
    then ApprovalKind.file_edit
    else if mentions ("network" ∷ "http" ∷ "url" ∷ "fetch" ∷ []) haystack
    then ApprovalKind.network
    else if mentions ("mcp" ∷ "tool" ∷ []) haystack
    then ApprovalKind.mcp
    else ApprovalKind.unknown

unfoldable pub approval_kind : Value → ApprovalKind
unfolding haystack_of
approval_kind raw = kind_of_haystack (
    haystack_of (string_field raw ("kind" ∷ "type" ∷ "action" ∷ "category" ∷ []))
      (string_field raw ("title" ∷ "detail" ∷ "message" ∷ "command" ∷ "path" ∷ "url" ∷ [])))

abbrev pub title_for_kind : ApprovalKind → Option String
title_for_kind ApprovalKind.command = some "Run command"
title_for_kind ApprovalKind.file_edit = some "Apply file edit"
title_for_kind ApprovalKind.network = some "Allow network access"
title_for_kind ApprovalKind.mcp = some "Allow tool call"
title_for_kind ApprovalKind.unknown = none

-- The text between `tool "` and the next quotation mark.
abbrev quoted_tool : String → Option String
quoted_tool message = and_then (find? message "tool \"") (λ start.
    let rest = slice message (start + 6) (len message) in
    map_option (λ end. slice rest 0 end) (find? rest "\""))

unfoldable pub mcp_tool_name : Value → Option String
mcp_tool_name params =
    or_else
      (and_then
        (or_else (pointer ("_meta" ∷ "tool_title" ∷ []) params)
          (pointer ("_meta" ∷ "tool_name" ∷ []) params))
        as_str)
      (and_then (and_then (get "message" params) as_str) quoted_tool)

unfoldable pub pending_title : ApprovalKind → Value → String
unfolding mcp_tool_name
pending_title ApprovalKind.command params = "Run command"
pending_title ApprovalKind.file_edit params = "Apply file edit"
pending_title ApprovalKind.network params = "Allow network access"
pending_title ApprovalKind.mcp params =
    unwrap_or (map_option (λ tool. "Allow " ++ tool) (mcp_tool_name params)) "Allow MCP tool"
pending_title ApprovalKind.unknown params = "Approval required"

abbrev pub pending_risk : ApprovalKind → Value → Option String
pending_risk ApprovalKind.mcp params =
    map_option (λ server. "MCP server: " ++ server)
      (string_field params ("serverName" ∷ "server_name" ∷ []))
pending_risk _ params = string_field params ("riskHint" ∷ "risk_hint" ∷ "reason" ∷ "warning" ∷ [])

-- The kind of a pending request, by the method that asked for it.
unfoldable pub pending_kind : String → Value → Option ApprovalKind
unfolding approval_kind
pending_kind method params =
    if method == "item/commandExecution/requestApproval"
    then some ApprovalKind.command
    else if method == "item/fileChange/requestApproval"
    then some ApprovalKind.file_edit
    else if method == "item/permissions/requestApproval"
    then some (approval_kind params)
    else if method == "mcpServer/elicitation/request"
    then some ApprovalKind.mcp
    else none

abbrev joined : String → List String → Option String
unfolding join
joined separator [] = none
joined separator (part ∷ parts) = some (join separator (part ∷ parts))

module _ (print : Value → String) where
  abbrev display_json_value : Value → String
  display_json_value v = unwrap_or (as_str v) (print v)

  abbrev shown_param : Value → Option String
  shown_param item =
      and_then (string_field item ("display_name" ∷ "displayName" ∷ "name" ∷ []))
        (λ name. map_option (λ v. name ++ ": " ++ display_json_value v) (get "value" item))

  abbrev raw_params : Fields → String
  unfolding join
  raw_params fields = join ", " (
      map (λ (entry : String × Value). entry.0 ++ ": " ++ display_json_value entry.1)
        (entries fields))

  unfoldable pub mcp_params_detail : Value → Option String
  unfolding joined raw_params
  mcp_params_detail params =
      or_else
        (and_then (and_then (pointer ("_meta" ∷ "tool_params_display" ∷ []) params) as_array)
          (λ items. joined ", " (filter_map shown_param items)))
        (filter_option (λ detail. not (is_empty_text detail))
          (map_option raw_params
            (and_then (pointer ("_meta" ∷ "tool_params" ∷ []) params) as_object)))

  unfoldable pub command_detail : Value → String
  unfolding joined
  command_detail params =
      unwrap_or
        (or_else
          (and_then (and_then (get "commandActions" params) as_array) (λ actions.
            joined " && "
              (filter_map (λ action. string_field action ("cmd" ∷ "command" ∷ [])) actions)))
          (string_field params ("command" ∷ "cmd" ∷ "reason" ∷ [])))
        (print params)

  unfoldable pub pending_detail : String → Value → String
  unfolding command_detail mcp_params_detail
  pending_detail method params =
      if method == "item/commandExecution/requestApproval"
      then command_detail params
      else if method == "mcpServer/elicitation/request"
      then unwrap_or
          (or_else (mcp_params_detail params) (string_field params ("message" ∷ "reason" ∷ [])))
          (print params)
      else if method == "item/fileChange/requestApproval"
      then unwrap_or
          (string_field params ("reason" ∷ "grantRoot" ∷ "grant_root" ∷ "itemId" ∷ "item_id" ∷ []))
          (print params)
      else if method == "item/permissions/requestApproval"
      then unwrap_or
          (or_else (string_field params ("reason" ∷ "message" ∷ []))
            (map_option print (get "permissions" params)))
          (print params)
      else print params

  unfoldable pub detect : String → Value → ℕ → Option ApprovalRequest
  unfolding looks_like_approval approval_kind to_string
  detect thread_id raw created_at =
      if not (looks_like_approval raw)
      then none
      else some record {
        id =
            unwrap_or (string_field raw ("approvalId" ∷ "approval_id" ∷ "requestId" ∷ "id" ∷ []))
              (thread_id ++ ":approval:" ++ to_string created_at);
        thread_id = thread_id;
        kind = approval_kind raw;
        title =
            unwrap_or
              (or_else (string_field raw ("title" ∷ "name" ∷ []))
                (title_for_kind (approval_kind raw)))
              "Approval required";
        detail =
            unwrap_or
              (string_field raw (
                "detail" ∷ "command" ∷ "cmd" ∷ "path" ∷ "url" ∷ "message" ∷ "summary"
                ∷ "description" ∷ []))
              (print raw);
        risk_hint = string_field raw ("riskHint" ∷ "risk_hint" ∷ "risk" ∷ "warning" ∷ []);
        raw = some raw;
        created_at = created_at;
        expires_at = number_field raw ("expiresAt" ∷ "expires_at" ∷ []);
      }

  unfoldable pub request_of : CodexPendingApproval → ℕ → ApprovalKind → ApprovalRequest
  unfolding pending_title pending_detail
  request_of pending created_at kind = record {
    id = pending.thread_id ++ ":" ++ pending.request_id;
    thread_id = pending.thread_id;
    kind = kind;
    title = pending_title kind pending.params;
    detail = pending_detail pending.method pending.params;
    risk_hint = pending_risk kind pending.params;
    raw = some (
        json_object (
          ("requestId", string pending.request_id)
          ∷ ("method", string pending.method)
          ∷ ("params", pending.params)
          ∷ []));
    created_at = created_at;
    expires_at = number_field pending.params ("expiresAt" ∷ "expires_at" ∷ []);
  }

  unfoldable pub detect_pending : CodexPendingApproval → ℕ → Option ApprovalRequest
  unfolding pending_kind request_of
  detect_pending pending created_at =
      map_option (request_of pending created_at) (pending_kind pending.method pending.params)
