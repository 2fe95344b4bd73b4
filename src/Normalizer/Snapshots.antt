-- ===== src/Normalizer/Snapshots.antt =====
-- The snapshot of a thread.
use codex_app.Codex.{CodexThread}
use codex_app.Protocol.{SessionSnapshot, SessionStatus}
use codex_app.Json.{string_field, or_else, filter_option}
use codex_app.Normalizer.Fields.{eq_ignore_ascii_case, normalize_timestamp_ms, timestamp_field}
use codex_app.Normalizer.Status.{status_from_value, approval_ids_from_value}
use codex_app.Normalizer.Agents.{subagent_title}
use codex_app.Prelude.{
  String, Bool, false, [], ◌∷◌, ◌||◌, Option, not, map_option, unwrap_or, is_some, is_blank,
}

unfoldable pub is_subagent_thread : CodexThread → Bool
unfolding eq_ignore_ascii_case subagent_title
is_subagent_thread thread =
    is_some (
      string_field thread.raw
        ("parentThreadId" ∷ "parent_thread_id" ∷ "parentId" ∷ "parent_id" ∷ []))
    || unwrap_or
        (map_option (λ source. eq_ignore_ascii_case source "subagent")
          (string_field thread.raw ("threadSource" ∷ "thread_source" ∷ "source" ∷ [])))
        false
    || is_some (subagent_title thread.raw)

abbrev not_blank : Option String → Option String
unfolding is_blank
not_blank o = filter_option (λ s. not (is_blank s)) o

unfoldable pub snapshot_from_thread : CodexThread → SessionSnapshot
unfolding not_blank subagent_title normalize_timestamp_ms timestamp_field status_from_value
    approval_ids_from_value
snapshot_from_thread thread = record {
  thread_id = thread.id;
  title =
      unwrap_or
        (or_else (not_blank thread.title)
          (or_else (not_blank thread.preview) (subagent_title thread.raw)))
        thread.id;
  cwd = thread.cwd;
  model_provider = thread.model_provider;
  preview = thread.preview;
  updated_at =
      unwrap_or
        (or_else (map_option normalize_timestamp_ms (or_else thread.updated_at thread.created_at)) (
          timestamp_field thread.raw
            ("updatedAt" ∷ "updated_at" ∷ "createdAt" ∷ "created_at" ∷ [])))
        0;
  status = unwrap_or (status_from_value thread.raw) SessionStatus.idle;
  pending_approval_ids = approval_ids_from_value thread.raw;
}
