-- ===== src/NotificationStore/AlertStates.antt =====
-- notification_store.rs: the alert state of a thread.
use codex_app.Prelude.{String, Bool, Option, find_by, upsert, ◌==◌}
use codex_app.Database.{Sql, query, execute, statement}
use codex_app.Database.Schema.{SessionAlertState}

abbrev pub of_thread : String → SessionAlertState → Bool
of_thread thread_id row = row.thread_id == thread_id

unfoldable pub alert_state_for_thread : String → Sql (Option SessionAlertState)
unfolding statement
alert_state_for_thread thread_id = query (λ t. find_by (of_thread thread_id) t.session_alert_state)

unfoldable pub save_alert_state : SessionAlertState → Sql (Unit {0})
unfolding statement
save_alert_state state = execute (λ t. record t {
  session_alert_state = upsert (of_thread state.thread_id) (λ _. state) state t.session_alert_state;
})
