-- ===== src/AlertMonitor.antt =====
-- crates/bridge-core/src/alert_monitor.rs: Codex is asked for its threads, and what changed in them is
-- alerted. Durations are milliseconds. What Codex answers is a parameter of a cycle, `none` an error.
pub mod Backoff
use codex_app.Codex.{CodexThread, CodexPendingApproval}
use codex_app.Protocol.{SessionSnapshot, SessionStatus, AlertEvent}
use codex_app.Database.Schema.{DeviceNotificationSettings, SessionAlertState}
use codex_app.AlertDetector.{DetectionResult, detect_alerts, is_nil}
use codex_app.NotificationStore.{enabled_settings, alert_state_for_thread, save_alert_state}
use codex_app.NotificationDispatcher.{dispatch}
use codex_app.Normalizer.Snapshots.{snapshot_from_thread}
use codex_app.EventHub.{PublishedEvent}
use codex_app.PublicAccess.{PublicAccessContext}
use codex_app.WebPush.{PushPayload}
use codex_app.Bridge.{Bridge, Failure, Action, on_db}
use codex_app.Prelude.{
  ℕ, suc, String, ◌-◌, ◌*◌, ◌^◌, min, Bool, true, false, Option, none, some, List, [], ◌∷◌, ◌==◌,
  map, any_by, filter_by, Result, ok, err, pure, raise, ◌>>=◌, ◌>>◌, saturating_add, saturating_mul,
  u64_max, if◌then◌else◌,
}

pub record AlertMonitorConfig : Type 0 where
  pub active_poll : ℕ
  pub idle_poll : ℕ
  pub max_error_backoff : ℕ

abbrev pub default_monitor_config : AlertMonitorConfig
default_monitor_config = record {
  active_poll = 5_000;
  idle_poll = 30_000;
  max_error_backoff = 30_000;
}

abbrev answered : {A : Type 0} → Option A → Action A
answered none = raise Failure.adapter
answered (some a) = pure a

-- The requests that `approvals_by_thread` holds for a thread, in the order in which they came.
abbrev pub approvals_for : String → List CodexPendingApproval → List String
approvals_for thread_id approvals =
    map (λ a. a.request_id) (filter_by (λ a. a.thread_id == thread_id) approvals)

abbrev pub is_active : SessionSnapshot → Bool
is_active snapshot = elim snapshot.status [
  | SessionStatus.idle ↦ false
  | SessionStatus.running ↦ true
  | SessionStatus.waiting_for_input ↦ true
  | SessionStatus.waiting_for_approval ↦ true
  | SessionStatus.error ↦ true
]

-- What `run` does with the outcome of a cycle: the consecutive failures, and how long it sleeps.
unfoldable pub after_cycle : {E : Type 0} → AlertMonitorConfig → Result E ℕ → ℕ → ℕ × ℕ
after_cycle config (ok next_delay) failures = (0, next_delay)
after_cycle config (err e) failures =
    let count = saturating_add (2 ^ 32 - 1) failures 1 in
    let seconds = saturating_mul u64_max 5 (2 ^ min (count - 1) 3) in
    (count, min (seconds * 1_000) config.max_error_backoff)

module _ (push_runtime : Bool) (receivers : List PublishedEvent → PublishedEvent → Option ℕ)
    (access : ℕ → PublicAccessContext) (to_json : PushPayload → Option String)
    (sha256_hex : List ℕ → String) (now : AlertEvent → String → ℕ) where
  unfoldable pub dispatch_events : List AlertEvent → Action (Unit {0})
  dispatch_events [] = pure tt
  dispatch_events (event ∷ events) = do
    dispatch push_runtime receivers access to_json event (now event)
    dispatch_events events

  abbrev save_detected : DetectionResult → Action (Unit {0})
  save_detected result =
      if result.ignored_as_stale then pure tt else on_db (save_alert_state result.next_state)

  unfoldable pub watch_snapshot : List CodexPendingApproval → SessionSnapshot → Action (Unit {0})
  unfolding dispatch_events
  watch_snapshot approvals snapshot = do
    previous ← on_db (alert_state_for_thread snapshot.thread_id)
    let result =
        detect_alerts sha256_hex previous snapshot (approvals_for snapshot.thread_id approvals)
    save_detected result
    dispatch_events result.events

  unfoldable pub watch_snapshots :
      List CodexPendingApproval → List SessionSnapshot → Action (Unit {0})
  unfolding watch_snapshot
  watch_snapshots approvals [] = pure tt
  watch_snapshots approvals (snapshot ∷ snapshots) = do
    watch_snapshot approvals snapshot
    watch_snapshots approvals snapshots

  -- A cycle, once some device wants alerts.
  unfoldable pub watch_threads :
      AlertMonitorConfig
      → List DeviceNotificationSettings
      → Option (List CodexThread)
      → Option (List CodexPendingApproval)
      → Action ℕ
  unfolding watch_snapshots snapshot_from_thread
  watch_threads config enabled list_threads list_pending_approvals = do
    threads ← answered list_threads
    approvals ←
        if any_by (λ settings. settings.alert_kinds.approval_required) enabled
        then answered list_pending_approvals
        else pure []
    let snapshots = map snapshot_from_thread threads
    watch_snapshots approvals snapshots
    pure (if any_by is_active snapshots then config.active_poll else config.idle_poll)

  -- The delay before the next cycle.
  unfoldable pub run_cycle :
      AlertMonitorConfig → Option (List CodexThread) → Option (List CodexPendingApproval) → Action ℕ
  unfolding watch_threads
  run_cycle config list_threads list_pending_approvals = do
    enabled ← on_db enabled_settings
    (if is_nil enabled
        then pure config.idle_poll
        else watch_threads config enabled list_threads list_pending_approvals)
