-- ===== src/Normalizer/Status.antt =====
-- The status of a thread or a turn.
use codex_app.Json.{
  Value, Fields, get, get_field, as_array, as_str, as_object, first_some, and_then, or_else,
  filter_map,
}
use codex_app.Normalizer.Fields.{one_of, array_strings}
use codex_app.Protocol.{SessionStatus}
use codex_app.Prelude.{
  String, Option, none, some, List, [], ◌∷◌, ◌==◌, map, any_by, unwrap_or, to_ascii_lowercase,
  if◌then◌else◌,
}

abbrev pub status_of_name : String → Option SessionStatus
status_of_name raw =
    if one_of ("idle" ∷ "completed" ∷ "complete" ∷ "done" ∷ []) raw
    then some SessionStatus.idle
    else if one_of ("active" ∷ "running" ∷ "in_progress" ∷ "streaming" ∷ "working" ∷ []) raw
    then some SessionStatus.running
    else if one_of
        ("waiting_for_input" ∷ "needs_input" ∷ "input_required" ∷ "awaiting_input"
          ∷ "requires_input" ∷ [])
        raw
    then some SessionStatus.waiting_for_input
    else if one_of
        ("waiting_for_approval" ∷ "approval_required" ∷ "waiting_approval" ∷ "needs_approval" ∷ [])
        raw
    then some SessionStatus.waiting_for_approval
    else if one_of ("error" ∷ "failed" ∷ "failure" ∷ "systemerror" ∷ "system_error" ∷ []) raw
    then some SessionStatus.error
    else none

unfoldable pub status_from_str : String → Option SessionStatus
unfolding to_ascii_lowercase
status_from_str raw = status_of_name (to_ascii_lowercase raw)

abbrev pub active_flags : Fields → List String
unfolding to_ascii_lowercase
active_flags status = map to_ascii_lowercase (
    filter_map as_str (
      unwrap_or
        (and_then (or_else (get_field "activeFlags" status) (get_field "active_flags" status))
          as_array)
        []))

abbrev pub status_from_object : Fields → Option SessionStatus
unfolding active_flags status_from_str
status_from_object status =
    if any_by (λ flag. flag == "waitingonapproval") (active_flags status)
    then some SessionStatus.waiting_for_approval
    else if any_by (λ flag. flag == "waitingonuserinput") (active_flags status)
    then some SessionStatus.waiting_for_input
    else and_then (and_then (or_else (get_field "type" status) (get_field "status" status)) as_str)
        status_from_str

abbrev pub status_of_field : Value → Option SessionStatus
unfolding status_from_str status_from_object
status_of_field v = elim (as_str v) [
  | some raw ↦ status_from_str raw
  | none ↦ and_then (as_object v) status_from_object
]

unfoldable pub status_from_value : Value → Option SessionStatus
unfolding status_of_field
status_from_value v =
    and_then
      (first_some ("status" ∷ "state" ∷ "connectionState" ∷ "connection_state" ∷ [])
        (λ key. get key v))
      status_of_field

unfoldable pub approval_ids_from_value : Value → List String
approval_ids_from_value v =
    unwrap_or (array_strings v ("pendingApprovalIds" ∷ "pending_approval_ids" ∷ "approvalIds" ∷ []))
      []
