-- ===== src/AlertDetector/Repeat.antt =====
-- Polling the same snapshot again raises nothing.
use codex_app.Prelude.{
  ℕ, String, ◌≡◌, ◌≤◌, ◌^◌, ◌<◌, refl, Bool, true, false, not, ◌&&◌, Option, none, some, List, [],
  arith, length, inl, inr, Bool-cases, if◌then◌else◌,
}
use codex_app.Protocol.{SessionStatus, SessionSnapshot, same_status}
use codex_app.Database.Schema.{SessionAlertState}
use codex_app.AlertDetector.{
  detect_alerts, is_stale, max_known, raised, unknown_ids, absorbs, has_completed, needs_input,
  has_failed, falls_back, next_cycle, observed, keep_latest, remember, waiting, is_nil,
}
use codex_app.AlertDetector.Ids.{keep_latest_short, remember-all, remember_known, unknown_ids_known}

same_status_refl : (s : SessionStatus) → same_status s s ≡ true
same_status_refl s = ground arith

-- The tests of the detector where the status has not changed.
module _ (previous : SessionAlertState) (snapshot : SessionSnapshot)
    (same : previous.status ≡ snapshot.status) where
  not-completed : has_completed previous snapshot ≡ false
  not-completed = rw same (table snapshot.status)
    where
      table :
          (s : SessionStatus)
          → (same_status s SessionStatus.running && same_status s SessionStatus.idle) ≡ false
      table s = ground arith

  not-input : needs_input previous snapshot ≡ false
  not-input = rw same (table snapshot.status)
    where
      table :
          (s : SessionStatus)
          → (not (same_status s SessionStatus.waiting_for_input)
              && same_status s SessionStatus.waiting_for_input)
            ≡ false
      table s = ground arith

  not-failed : has_failed previous snapshot ≡ false
  not-failed = rw same (table snapshot.status)
    where
      table :
          (s : SessionStatus)
          → (not (same_status s SessionStatus.error) && same_status s SessionStatus.error) ≡ false
      table s = ground arith

  not-fallback : (new : List String) → falls_back previous snapshot new ≡ false
  not-fallback new = rw same (table snapshot.status (is_nil new))
    where
      table : (s : SessionStatus) (b : Bool) → (not (waiting s) && waiting s && b) ≡ false
      table s b = ground arith

  same-cycle : previous.state_cycle < 2 ^ 64 → next_cycle previous snapshot ≡ previous.state_cycle
  same-cycle h = rw (same, same_status_refl snapshot.status) (omega arith)

-- A state that a snapshot has been taken into, with the ids of the same poll.
record Settled (snapshot : SessionSnapshot) (ids : List String) (s : SessionAlertState)
    : Type 0 where
  status : s.status ≡ snapshot.status
  updated_at : s.updated_at ≡ snapshot.updated_at
  thread : s.thread_id ≡ snapshot.thread_id
  cycle : s.state_cycle < 2 ^ 64
  known : remember s.known_approval_ids ids ≡ s.known_approval_ids
  nothing_new : unknown_ids s.known_approval_ids ids ≡ []
  short : length s.known_approval_ids ≤ max_known
  fallback :
      (if waiting snapshot.status then s.fallback_approval_cycle else none)
      ≡ s.fallback_approval_cycle

module _ (sha256_hex : List ℕ → String) (snapshot : SessionSnapshot) (ids : List String) where
  raised-silent :
      (s : SessionAlertState) → s.status ≡ snapshot.status → raised sha256_hex s snapshot [] ≡ []
  raised-silent s e =
      rw
        (
          not-completed s snapshot e,
          not-input s snapshot e,
          not-failed s snapshot e,
          not-fallback s snapshot e [],
        )
        (elim (Bool-cases (absorbs s [])) [ inl a ↦ rw a | inr a ↦ rw a ])

  rebuilt :
      (s : SessionAlertState)
      → Settled snapshot ids s
      → observed snapshot s.known_approval_ids s.state_cycle s.fallback_approval_cycle ≡ s
  rebuilt s h = cc (h.status, h.updated_at, h.thread, h.fallback)

  Settled-silent :
      (s : SessionAlertState)
      → Settled snapshot ids s
      → ((detect_alerts sha256_hex (some s) snapshot ids).events ≡ [])
        × ((detect_alerts sha256_hex (some s) snapshot ids).next_state ≡ s)
  unfolding detect_alerts
  Settled-silent s h =
      rw (not_stale, h.nothing_new)
        (
          raised-silent s h.status,
          rw
              (
                h.known,
                keep_latest_short s.known_approval_ids h.short,
                not-fallback s snapshot h.status [],
                same-cycle s snapshot h.status h.cycle,
              )
              (rebuilt s h),
        )
    where
      not_stale : is_stale s snapshot ≡ false
      not_stale = ground arith

  -- The state that is taken from a snapshot, where the remembered ids fit.
  taken-Settled :
      (known : List String) (cycle : ℕ) (fallback : Option ℕ)
      → length (remember known ids) ≤ max_known
      → cycle < 2 ^ 64
      → Settled snapshot ids (observed snapshot (keep_latest (remember known ids)) cycle fallback)
  taken-Settled known cycle fallback fits small =
      rw (keep_latest_short (remember known ids) fits) (record {
        status = refl;
        updated_at = refl;
        thread = refl;
        cycle = small;
        known = remember_known (remember known ids) ids (remember-all known ids);
        nothing_new = unknown_ids_known (remember known ids) ids (remember-all known ids);
        short = fits;
        fallback = twice (waiting snapshot.status) fallback;
      })
    where
      twice :
          (b : Bool) (o : Option ℕ)
          → (if b then (if b then o else none) else none) ≡ (if b then o else none)
      twice b o = ground arith

  abbrev pub known_before : Option SessionAlertState → List String
  known_before none = []
  known_before (some p) = p.known_approval_ids

  abbrev pub is_older : Option SessionAlertState → Bool
  is_older none = false
  is_older (some p) = is_stale p snapshot

  detect-Settled :
      (previous : Option SessionAlertState)
      → is_older previous ≡ false
      → length (remember (known_before previous) ids) ≤ max_known
      → Settled snapshot ids (detect_alerts sha256_hex previous snapshot ids).next_state
  unfolding detect_alerts
  detect-Settled none fresh fits = taken-Settled [] 0 none fits (omega arith)
  detect-Settled (some p) fresh fits =
      rw fresh (taken-Settled p.known_approval_ids (next_cycle p snapshot) _ fits (omega arith))

  -- A snapshot that is not stale, polled again with the same approval ids, raises no event and leaves
  -- the state as the first poll left it, provided that the ids known after the first are at most 256.
  pub detect_alerts_repeat :
      (previous : Option SessionAlertState)
      → is_older previous ≡ false
      → length (remember (known_before previous) ids) ≤ max_known
      → let first = detect_alerts sha256_hex previous snapshot ids in
        let again = detect_alerts sha256_hex (some first.next_state) snapshot ids in
        (again.events ≡ []) × (again.next_state ≡ first.next_state)
  detect_alerts_repeat previous fresh fits = Settled-silent _ (detect-Settled previous fresh fits)
