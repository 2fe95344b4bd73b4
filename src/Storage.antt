-- ===== src/Storage.antt =====
-- crates/bridge-core/src/storage.rs: the paired devices and the event cursors.
pub mod Devices
use codex_app.Prelude.{
  ℕ, String, Bool, Option, none, some, List, ◌&&◌, ◌||◌, ◌==◌, not, is_some, filter_by, find_by,
  update_where, upsert, sort_by, ltb, nat_eq, text_le, map_option,
}
use codex_app.Database.{Sql, query, execute, statement}
use codex_app.Database.Schema.{Device, EventCursor, Tables}

-- ON CONFLICT(device_id) DO UPDATE SET …: the time of creation is kept.
abbrev pub replaced : Device → Device → Device
replaced device row = record device { created_at = row.created_at }

unfoldable pub insert_device : Device → Sql (Unit {0})
unfolding statement
insert_device device = execute (λ t. record t {
  devices = upsert (λ row. row.device_id == device.device_id) (replaced device) device t.devices;
})

unfoldable pub revoke_device : String → ℕ → Sql (Unit {0})
unfolding statement
revoke_device device_id revoked_at = execute (λ t. record t {
  devices =
      update_where (λ row. row.device_id == device_id)
        (λ row. record row { revoked_at = some revoked_at }) t.devices;
})

unfoldable pub device_by_id : String → Sql (Option Device)
unfolding statement
device_by_id device_id = query (λ t. find_by (λ row. row.device_id == device_id) t.devices)

-- ORDER BY created_at ASC, device_id ASC
abbrev pub created_first : Device → Device → Bool
created_first a b =
    ltb a.created_at b.created_at
    || (nat_eq a.created_at b.created_at && text_le a.device_id b.device_id)

unfoldable pub active_devices : Sql (List Device)
unfolding statement
active_devices =
    query (λ t. sort_by created_first (filter_by (λ d. not (is_some d.revoked_at)) t.devices))

unfoldable pub record_event_cursor : String → String → ℕ → Sql (Unit {0})
unfolding statement
record_event_cursor thread_id cursor updated_at =
    let row : EventCursor = record {
      thread_id = thread_id;
      cursor = cursor;
      updated_at = updated_at;
    } in
    execute (λ t. record t {
      event_cursors = upsert (λ x. x.thread_id == row.thread_id) (λ _. row) row t.event_cursors;
    })

unfoldable pub latest_event_cursor : String → Sql (Option String)
unfolding statement
latest_event_cursor thread_id =
    query
      (λ t. map_option (λ x. x.cursor) (find_by (λ x. x.thread_id == thread_id) t.event_cursors))
