-- ===== src/Tests/Alerts.antt =====
-- The alert detector at concrete snapshots.
use codex_app.Prelude.{
  ℕ, String, ◌≡◌, ◌≤◌, refl, true, Option, none, some, List, [], ◌∷◌, length, arith, to_string,
}
use codex_app.Protocol.{SessionStatus, SessionSnapshot}
use codex_app.Database.Schema.{SessionAlertState}
use codex_app.AlertDetector.{detect_alerts, max_known}
use codex_app.AlertDetector.Events.{detect_alerts_stale, detect_alerts_bounded}
use codex_app.AlertDetector.Repeat.{detect_alerts_repeat}

abbrev pub snapshot : SessionStatus → ℕ → SessionSnapshot
snapshot status updated_at = record {
  thread_id = "t";
  title = "Task";
  cwd = none;
  model_provider = none;
  preview = none;
  updated_at = updated_at;
  status = status;
  pending_approval_ids = [];
}

abbrev pub running_state : SessionAlertState
running_state = record {
  thread_id = "t";
  status = SessionStatus.running;
  updated_at = 10;
  state_cycle = 2;
  known_approval_ids = "a1" ∷ [];
  fallback_approval_cycle = none;
}

-- Any digest will do.
abbrev pub digest : List ℕ → String
digest bytes = to_string (length bytes)

detect_alerts_stale_example :
    let r = detect_alerts digest (some running_state) (snapshot SessionStatus.idle 9) [] in
    (r.ignored_as_stale ≡ true)
    × (10 ≤ r.next_state.updated_at)
    × ((r.next_state ≡ running_state) × (r.events ≡ []))
unfolding detect_alerts
detect_alerts_stale_example =
    detect_alerts_stale digest running_state (snapshot SessionStatus.idle 9) []

detect_alerts_bounded_example :
    length
      (detect_alerts digest
        (some running_state)
        (snapshot SessionStatus.idle 12)
        ("a2" ∷ [])).next_state.known_approval_ids
    ≤ max_known
detect_alerts_bounded_example =
    detect_alerts_bounded digest (some running_state) (snapshot SessionStatus.idle 12) ("a2" ∷ [])
      (omega arith)

detect_alerts_repeat_example :
    let poll = λ (s : Option SessionAlertState).
      detect_alerts digest s (snapshot SessionStatus.waiting_for_approval 12) ("a2" ∷ []) in
    ((poll (some (poll (some running_state)).next_state)).events ≡ [])
    × ((poll (some (poll (some running_state)).next_state)).next_state
        ≡ (poll (some running_state)).next_state)
detect_alerts_repeat_example =
    detect_alerts_repeat digest (snapshot SessionStatus.waiting_for_approval 12) ("a2" ∷ [])
      (some running_state) refl (omega arith)
