-- ===== src/AlertDetector/Events.antt =====
-- Which events a snapshot raises, and what is kept of the session.
use codex_app.Prelude.{
  ℕ, String, ◌≡◌, ◌≤◌, ◌+◌, refl, Bool, true, false, not, ◌&&◌, Option, none, some, List, [], arith,
  length, ltb, count_by, inl, inr, Bool-cases, if◌then◌else◌,
}
use codex_app.Protocol.{SessionStatus, SessionSnapshot, AlertKind, AlertEvent}
use codex_app.Database.Schema.{SessionAlertState}
use codex_app.AlertDetector.{detect_alerts, is_stale, max_known, absorbs, is_nil, remember}
use codex_app.AlertDetector.Ids.{keep_latest-length}

abbrev pub same_kind : AlertKind → AlertKind → Bool
same_kind AlertKind.completed AlertKind.completed = true
same_kind AlertKind.approval_required AlertKind.approval_required = true
same_kind AlertKind.input_required AlertKind.input_required = true
same_kind AlertKind.error AlertKind.error = true
same_kind _ _ = false

abbrev pub events_of : AlertKind → List AlertEvent → ℕ
events_of kind events = count_by (λ e. same_kind e.kind kind) events

abbrev pub IsBounded : Option SessionAlertState → Type 0
IsBounded none = Unit
IsBounded (some p) = length p.known_approval_ids ≤ max_known

abbrev choose : AlertKind → Bool → Bool → Bool → Bool → Bool → ℕ → ℕ
choose AlertKind.completed b0 b1 b2 b3 b4 k = if b1 then 1 else 0
choose AlertKind.approval_required b0 b1 b2 b3 b4 k = (if b0 then 0 else k) + (if b4 then 1 else 0)
choose AlertKind.input_required b0 b1 b2 b3 b4 k = if b2 then 1 else 0
choose AlertKind.error b0 b1 b2 b3 b4 k = if b3 then 1 else 0

-- The alert that a change of status stands for.
abbrev pub transition : SessionStatus → SessionStatus → Option AlertKind
transition SessionStatus.running SessionStatus.idle = some AlertKind.completed
transition SessionStatus.waiting_for_input SessionStatus.waiting_for_input = none
transition SessionStatus.waiting_for_approval SessionStatus.waiting_for_approval = none
transition SessionStatus.error SessionStatus.error = none
transition before SessionStatus.waiting_for_input = some AlertKind.input_required
transition before SessionStatus.waiting_for_approval = some AlertKind.approval_required
transition before SessionStatus.error = some AlertKind.error
transition before after = none

abbrev pub is_alert : Option AlertKind → AlertKind → Bool
is_alert none kind = false
is_alert (some k) kind = same_kind k kind

-- How many events of a kind a snapshot that is not stale should raise: one for the change of status,
-- which for an approval counts only where no native id is new, and for an approval one for each new
-- native id, unless these come late.
abbrev pub expected : AlertKind → SessionAlertState → SessionSnapshot → List String → ℕ
expected kind previous snapshot new =
    (if is_alert (transition previous.status snapshot.status) kind
        && not (same_kind kind AlertKind.approval_required && not (is_nil new))
      then 1
      else 0)
    + (if same_kind kind AlertKind.approval_required && not (absorbs previous new)
        then length new
        else 0)

module _ (sha256_hex : List ℕ → String) where
  -- The time of a session never goes back. A snapshot is ignored exactly if it is older than what is
  -- known; then the state is kept, no event is raised, and otherwise the state takes its time and
  -- status.
  pub detect_alerts_stale :
      (previous : SessionAlertState) (snapshot : SessionSnapshot) (ids : List String)
      → let r = detect_alerts sha256_hex (some previous) snapshot ids in
        (r.ignored_as_stale ≡ ltb snapshot.updated_at previous.updated_at)
        × (previous.updated_at ≤ r.next_state.updated_at)
        × (if r.ignored_as_stale
            then (r.next_state ≡ previous) × (r.events ≡ [])
            else (r.next_state.updated_at ≡ snapshot.updated_at)
              × (r.next_state.status ≡ snapshot.status))
  unfolding detect_alerts
  detect_alerts_stale previous snapshot ids = elim (Bool-cases (is_stale previous snapshot)) [
    | inl e ↦ rw e (refl, ground arith, (refl, refl))
    | inr e ↦ rw e (refl, ground arith, (refl, refl))
  ]

  -- At most 256 approval ids are kept, whatever was kept before within that bound.
  pub detect_alerts_bounded :
      (previous : Option SessionAlertState) (snapshot : SessionSnapshot) (ids : List String)
      → IsBounded previous
      → length (detect_alerts sha256_hex previous snapshot ids).next_state.known_approval_ids
        ≤ max_known
  unfolding detect_alerts
  detect_alerts_bounded none snapshot ids h = keep_latest-length (remember [] ids)
  detect_alerts_bounded (some p) snapshot ids h = elim (Bool-cases (is_stale p snapshot)) [
    | inl e ↦ rw e h
    | inr e ↦ rw e (keep_latest-length (remember p.known_approval_ids ids))
  ]
