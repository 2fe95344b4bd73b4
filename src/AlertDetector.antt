-- ===== src/AlertDetector.antt =====
-- crates/bridge-core/src/alert_detector.rs: which alerts a new snapshot of a session raises.
-- The SHA-256 digest, in lower-case hexadecimal, is a parameter.
pub mod Ids
pub mod Events
pub mod Repeat
use Prim.Native.String.{◌++◌ as append_text}
use codex_app.Prelude.{
  ℕ, String, ◌-◌, Bool, true, false, not, ◌&&◌, Option, none, some, List, [], ◌∷◌, ◌++◌, map,
  length, drop, filter_by, contains, ltb, nat_eq, add_u64, as_bytes, to_string, to_be_bytes,
  if◌then◌else◌,
}
use codex_app.Protocol.{SessionStatus, SessionSnapshot, AlertKind, AlertEvent, same_status}
use codex_app.Database.Schema.{SessionAlertState}

pub record DetectionResult : Type 0 where
  pub next_state : SessionAlertState
  pub events : List AlertEvent
  pub ignored_as_stale : Bool

-- The bytes that are hashed: for each part its length as a big-endian u64, then its bytes.
abbrev pub hashed_bytes : List (List ℕ) → List ℕ
hashed_bytes [] = []
hashed_bytes (part ∷ parts) = to_be_bytes 8 (length part) ++ (part ++ hashed_bytes parts)

-- Two optional numbers that are compared as `left == Some(right)`.
abbrev pub is_cycle : Option ℕ → ℕ → Bool
is_cycle none n = false
is_cycle (some m) n = nat_eq m n

-- `for id in native { if !known.contains(id) { known.push(id) } }`
abbrev pub remember : List String → List String → List String
remember known [] = known
remember known (id ∷ ids) = remember (if contains known id then known else known ++ id ∷ []) ids

abbrev pub max_known : ℕ
max_known = 256

-- `known.drain(0..known.len() - 256)` where there are more
abbrev pub keep_latest : List String → List String
keep_latest known =
    if ltb max_known (length known) then drop (length known - max_known) known else known

-- The native ids that are not known yet.
abbrev pub unknown_ids : List String → List String → List String
unknown_ids known ids = filter_by (λ id. not (contains known id)) ids

abbrev pub is_nil {ℓ} : {A : Type ℓ} → List A → Bool
is_nil [] = true
is_nil (x ∷ xs) = false

abbrev pub waiting : SessionStatus → Bool
waiting s = same_status s SessionStatus.waiting_for_approval

abbrev pub kind_name : AlertKind → String
kind_name AlertKind.completed = "completed"
kind_name AlertKind.approval_required = "approval_required"
kind_name AlertKind.input_required = "input_required"
kind_name AlertKind.error = "error"

abbrev pub alert : SessionSnapshot → AlertKind → String → AlertEvent
alert snapshot kind event_id = record {
  event_id = event_id;
  kind = kind;
  thread_id = snapshot.thread_id;
  thread_title = snapshot.title;
  occurred_at = snapshot.updated_at;
}

-- The state before a fallback approval is noted, from what was known of the session.
abbrev pub observed : SessionSnapshot → List String → ℕ → Option ℕ → SessionAlertState
observed snapshot known state_cycle fallback = record {
  thread_id = snapshot.thread_id;
  status = snapshot.status;
  updated_at = snapshot.updated_at;
  state_cycle = state_cycle;
  known_approval_ids = known;
  fallback_approval_cycle = if waiting snapshot.status then fallback else none;
}

-- Tests on the previous state and the snapshot.
abbrev pub is_stale : SessionAlertState → SessionSnapshot → Bool
is_stale previous snapshot = ltb snapshot.updated_at previous.updated_at

abbrev pub next_cycle : SessionAlertState → SessionSnapshot → ℕ
next_cycle previous snapshot =
    add_u64 previous.state_cycle (if same_status previous.status snapshot.status then 0 else 1)

-- Native ids that come late, for an approval that was alerted without one.
abbrev pub absorbs : SessionAlertState → List String → Bool
absorbs previous new =
    waiting previous.status
    && is_cycle previous.fallback_approval_cycle previous.state_cycle
    && is_nil previous.known_approval_ids
    && not (is_nil new)

abbrev pub has_completed : SessionAlertState → SessionSnapshot → Bool
has_completed previous snapshot =
    same_status previous.status SessionStatus.running
    && same_status snapshot.status SessionStatus.idle

abbrev pub needs_input : SessionAlertState → SessionSnapshot → Bool
needs_input previous snapshot =
    not (same_status previous.status SessionStatus.waiting_for_input)
    && same_status snapshot.status SessionStatus.waiting_for_input

abbrev pub has_failed : SessionAlertState → SessionSnapshot → Bool
has_failed previous snapshot =
    not (same_status previous.status SessionStatus.error)
    && same_status snapshot.status SessionStatus.error

abbrev pub falls_back : SessionAlertState → SessionSnapshot → List String → Bool
falls_back previous snapshot new =
    not (waiting previous.status) && waiting snapshot.status && is_nil new

module _ (sha256_hex : List ℕ → String) where
  unfoldable pub stable_event_id : List String → String
  stable_event_id parts = append_text "alert-" (sha256_hex (hashed_bytes (map as_bytes parts)))

  abbrev pub cycle_alert : SessionSnapshot → AlertKind → ℕ → AlertEvent
  cycle_alert snapshot kind cycle =
      alert snapshot kind
        (stable_event_id (kind_name kind ∷ snapshot.thread_id ∷ to_string cycle ∷ []))

  abbrev pub native_alert : SessionSnapshot → String → AlertEvent
  native_alert snapshot approval_id =
      alert snapshot AlertKind.approval_required
        (stable_event_id ("approval_required" ∷ snapshot.thread_id ∷ approval_id ∷ []))

  abbrev pub completed_alert : SessionAlertState → SessionSnapshot → AlertEvent
  completed_alert previous snapshot = alert snapshot AlertKind.completed (
      stable_event_id (
        "completed"
        ∷ snapshot.thread_id
        ∷ to_string previous.updated_at
        ∷ to_string snapshot.updated_at
        ∷ []))

  -- The events in the order in which they are pushed.
  abbrev pub raised : SessionAlertState → SessionSnapshot → List String → List AlertEvent
  raised previous snapshot new =
      let cycle = next_cycle previous snapshot in
      (if absorbs previous new then [] else map (native_alert snapshot) new)
      ++ ((if has_completed previous snapshot then completed_alert previous snapshot ∷ [] else [])
          ++ ((if needs_input previous snapshot
                then cycle_alert snapshot AlertKind.input_required cycle ∷ []
                else [])
              ++ ((if has_failed previous snapshot
                    then cycle_alert snapshot AlertKind.error cycle ∷ []
                    else [])
                  ++ (if falls_back previous snapshot new
                      then cycle_alert snapshot AlertKind.approval_required cycle ∷ []
                      else []))))

  unfoldable pub detect_alerts :
      Option SessionAlertState → SessionSnapshot → List String → DetectionResult
  detect_alerts none snapshot ids = record {
    next_state = observed snapshot (keep_latest (remember [] ids)) 0 none;
    events = [];
    ignored_as_stale = false;
  }
  detect_alerts (some previous) snapshot ids =
      if is_stale previous snapshot
      then record { next_state = previous; events = []; ignored_as_stale = true }
      else (let new = unknown_ids previous.known_approval_ids ids in
          let cycle = next_cycle previous snapshot in
          record {
            next_state =
                observed snapshot (keep_latest (remember previous.known_approval_ids ids)) cycle (
                  if falls_back previous snapshot new
                  then some cycle
                  else previous.fallback_approval_cycle);
            events = raised previous snapshot new;
            ignored_as_stale = false;
          })
