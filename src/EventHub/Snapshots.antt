-- ===== src/EventHub/Snapshots.antt =====
-- The snapshots that event_hub.rs keeps and replays.
use codex_app.Prelude.{
  ℕ, String, ◌≡◌, ◌≤◌, Bool, true, false, Option, some, List, arith, ◌==◌, upsert_lookup,
  Descending, sort_by-Descending, count_by, count_by-sort_by, if◌then◌else◌,
}
use codex_app.Protocol.{SessionSnapshot}
use codex_app.EventHub.{
  EventHub, PublishedEvent, set_snapshot, snapshot_for_thread, all_snapshots, shown_first,
}

-- After a snapshot is set, a search for its thread finds it, and one for another thread what it found
-- before.
pub set_snapshot_found :
    (receivers : List PublishedEvent → PublishedEvent → Option ℕ) (hub : EventHub)
    (snapshot : SessionSnapshot) (thread_id : String)
    → snapshot_for_thread (set_snapshot receivers hub snapshot).0 thread_id ≡ (
        if snapshot.thread_id == thread_id
        then some snapshot
        else snapshot_for_thread hub thread_id)
unfolding set_snapshot snapshot_for_thread
set_snapshot_found receivers hub snapshot thread_id =
    upsert_lookup (λ s. s.thread_id) snapshot thread_id hub.snapshots

shown_first-ge : (x y : SessionSnapshot) → shown_first x y ≡ true → y.updated_at ≤ x.updated_at
shown_first-ge x y h = ground arith

shown_first-le : (x y : SessionSnapshot) → shown_first x y ≡ false → x.updated_at ≤ y.updated_at
shown_first-le x y h = ground arith

-- The snapshots are listed newest first, and are those that are kept: as many pass any test.
pub all_snapshots_newest :
    (hub : EventHub) (q : SessionSnapshot → Bool)
    → Descending (λ s. s.updated_at) (all_snapshots hub)
      × (count_by q (all_snapshots hub) ≡ count_by q hub.snapshots)
unfolding all_snapshots
all_snapshots_newest hub q = (
  sort_by-Descending (λ s. s.updated_at) shown_first shown_first-ge shown_first-le hub.snapshots,
  count_by-sort_by q shown_first hub.snapshots,
)
