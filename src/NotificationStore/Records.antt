-- ===== src/NotificationStore/Records.antt =====
-- What settings, subscriptions and alert states of notification_store.rs guarantee.
use codex_app.Prelude.{
  upsert_lookup, ℕ, String, ◌≡◌, refl, ap, ◌∙◌, Bool, true, false, Option, none, some, List, [],
  ◌∷◌, arith, ◌==◌, ◌&&◌, ◌⊎◌, ok, err, unwrap_or, inl, inr, All, All-map, any_by, count_by,
  find_by, any_by-delete_where, filter_by, All-sort_by, All-filter_by, eq_iff, if◌then◌else◌,
  Result, upsert, update_where, count_by-sort_by,
}
use codex_app.Database.{Db, DbError}
use codex_app.Database.Schema.{
  Tables, Device, DeviceNotificationSettings, PushSubscriptionRecord, SessionAlertState,
  defaults_for,
}
use codex_app.Database.Transactions.{transaction_atomic}
use codex_app.NotificationStore.{
  of_device, settings_for_device, save_settings, write_settings, not_revoked, select_enabled,
  enabled_settings, delete_device_notification_data, delete_settings_rows, delete_subscription_rows,
  delete_delivery_rows, delete_data_rows, of_thread, save_alert_state, alert_state_for_thread,
  subscribed, subscribed_active, set_invalidated, active_subscription, invalidate_subscription,
}

module _ (settings : DeviceNotificationSettings) (db : Db) where
  save_settings_ok :
      (save_settings settings db).0 ≡ ok tt
      → (save_settings settings db).1.tables ≡ write_settings settings db.tables
  unfolding save_settings
  save_settings_ok h = ground arith

settings_read :
    (device_id : String) (db : Db) (s : DeviceNotificationSettings)
    → (settings_for_device device_id db).0 ≡ ok s
    → s
      ≡ unwrap_or
          (find_by (of_device device_id) db.tables.device_notification_settings)
          (defaults_for device_id)
unfolding settings_for_device
settings_read device_id db s h = ground arith

-- After an accepted save, an accepted read of the same device answers what was saved, and one of
-- another device answers what it would have answered before: its row, or the defaults (disabled).
pub save_settings_read_back :
    (settings s : DeviceNotificationSettings) (device_id : String) (db : Db)
    → (save_settings settings db).0 ≡ ok tt
    → (settings_for_device device_id (save_settings settings db).1).0 ≡ ok s
    → s ≡ (
        if settings.device_id == device_id
        then settings
        else unwrap_or
            (find_by (of_device device_id) db.tables.device_notification_settings)
            (defaults_for device_id))
save_settings_read_back settings s device_id db saved read =
    settings_read device_id _ s read
    ∙ rw (save_settings_ok settings db saved) (
        ap (λ o. unwrap_or o (defaults_for device_id))
          (upsert_lookup (λ x. x.device_id) settings device_id
            db.tables.device_notification_settings)
        ∙ ground arith)

alert_state_read :
    (thread_id : String) (db : Db) (o : Option SessionAlertState)
    → (alert_state_for_thread thread_id db).0 ≡ ok o
    → o ≡ find_by (of_thread thread_id) db.tables.session_alert_state
unfolding alert_state_for_thread
alert_state_read thread_id db o h = ground arith

save_alert_state_ok :
    (state : SessionAlertState) (db : Db)
    → (save_alert_state state db).0 ≡ ok tt
    → (save_alert_state state db).1.tables.session_alert_state
      ≡ upsert (of_thread state.thread_id) (λ _. state) state db.tables.session_alert_state
unfolding save_alert_state
save_alert_state_ok state db h = ground arith

-- After an accepted save, an accepted read of the thread answers the saved state; one of another
-- thread answers what it would have answered before.
pub save_alert_state_read_back :
    (state : SessionAlertState) (thread_id : String) (db : Db) (o : Option SessionAlertState)
    → (save_alert_state state db).0 ≡ ok tt
    → (alert_state_for_thread thread_id (save_alert_state state db).1).0 ≡ ok o
    → o ≡ (
        if state.thread_id == thread_id
        then some state
        else find_by (of_thread thread_id) db.tables.session_alert_state)
save_alert_state_read_back state thread_id db o saved read =
    alert_state_read thread_id _ o read
    ∙ rw (save_alert_state_ok state db saved)
        (upsert_lookup (λ x. x.thread_id) state thread_id db.tables.session_alert_state)

invalidated_rows :
    (now : ℕ) (device_id other : String) (rows : List PushSubscriptionRecord)
    → find_by
        (subscribed_active other)
        (update_where (subscribed device_id) (set_invalidated now) rows)
      ≡ (if device_id == other then none else find_by (subscribed_active other) rows)
invalidated_rows now device_id other [] = ground arith
invalidated_rows now device_id other (x ∷ rows) = ground (
  arith,
  eq_iff x.device_id device_id,
  eq_iff x.device_id other,
  eq_iff device_id other,
  invalidated_rows now device_id other rows,
)

active_read :
    (device_id : String) (db : Db) (o : Option PushSubscriptionRecord)
    → (active_subscription device_id db).0 ≡ ok o
    → o ≡ find_by (subscribed_active device_id) db.tables.push_subscriptions
unfolding active_subscription
active_read device_id db o h = ground arith

invalidate_ok :
    (device_id : String) (now : ℕ) (db : Db)
    → (invalidate_subscription device_id now db).0 ≡ ok tt
    → (invalidate_subscription device_id now db).1.tables.push_subscriptions
      ≡ update_where (subscribed device_id) (set_invalidated now) db.tables.push_subscriptions
unfolding invalidate_subscription
invalidate_ok device_id now db h = ground arith

-- After an accepted invalidation the device has no active subscription; the active subscription of
-- any other device is what it was.
pub invalidate_subscription_inactive :
    (device_id other : String) (now : ℕ) (db : Db) (o : Option PushSubscriptionRecord)
    → (invalidate_subscription device_id now db).0 ≡ ok tt
    → (active_subscription other (invalidate_subscription device_id now db).1).0 ≡ ok o
    → o ≡ (
        if device_id == other
        then none
        else find_by (subscribed_active other) db.tables.push_subscriptions)
invalidate_subscription_inactive device_id other now db o done read =
    active_read other _ o read
    ∙ rw (invalidate_ok device_id now db done)
        (invalidated_rows now device_id other db.tables.push_subscriptions)

abbrev pub may_alert : List Device → DeviceNotificationSettings → Bool
may_alert devices s = not_revoked devices s.device_id && s.enabled

pub count_by-filter_by :
    {A : Type 0} (q p : A → Bool) (xs : List A)
    → count_by q (filter_by p xs) ≡ count_by (λ x. p x && q x) xs
count_by-filter_by q p [] = refl
count_by-filter_by q p (x ∷ xs) = ground (arith, count_by-filter_by q p xs)

All-trivial : {A : Type 0} (xs : List A) → All (λ _. Unit {0}) xs
All-trivial [] = tt
All-trivial (x ∷ xs) = (tt, All-trivial xs)

enabled_read :
    (db : Db) (l : List DeviceNotificationSettings)
    → (enabled_settings db).0 ≡ ok l
    → l ≡ select_enabled db.tables
unfolding enabled_settings
enabled_read db l h = ground arith

-- An accepted read of the enabled settings answers rows that are enabled, of registered devices that
-- are not revoked, and for every test as many rows that pass it as the table has such rows.
pub enabled_settings_exact :
    (db : Db) (l : List DeviceNotificationSettings) (q : DeviceNotificationSettings → Bool)
    → (enabled_settings db).0 ≡ ok l
    → All (λ s. (s.enabled ≡ true) × (not_revoked db.tables.devices s.device_id ≡ true)) l
      × (count_by q l
          ≡ count_by
              (λ s. may_alert db.tables.devices s && q s)
              db.tables.device_notification_settings)
unfolding select_enabled
enabled_settings_exact db l q h = rw (enabled_read db l h) (
  All-sort_by _ _ _ (
      All-map _ _ _ (λ s k. split (not_revoked db.tables.devices s.device_id) s.enabled k.0)
        (All-filter_by (λ _. Unit {0}) (may_alert db.tables.devices)
          db.tables.device_notification_settings (All-trivial _))),
  count_by-sort_by q _ _
      ∙ count_by-filter_by q (may_alert db.tables.devices) db.tables.device_notification_settings,
)
  where
    split : (a b : Bool) → (a && b) ≡ true → (b ≡ true) × (a ≡ true)
    split a b e = ground arith

delete_ok :
    (device_id : String) (db : Db)
    → (delete_device_notification_data device_id db).0 ≡ ok tt
    → (delete_device_notification_data device_id db).1.tables
      ≡ delete_delivery_rows device_id
          (delete_subscription_rows device_id (delete_settings_rows device_id db.tables))
unfolding delete_device_notification_data
delete_ok device_id db h = ground arith

delete_refused :
    (device_id : String) (db : Db) (e : DbError)
    → (delete_device_notification_data device_id db).0 ≡ err e
    → (delete_device_notification_data device_id db).1.tables ≡ db.tables
unfolding delete_device_notification_data
delete_refused device_id db e h = transaction_atomic (delete_data_rows device_id) db e h

abbrev pub HasNoData : String → Tables → Type 0
HasNoData device_id t =
    (any_by (of_device device_id) t.device_notification_settings ≡ false)
    × (any_by (subscribed device_id) t.push_subscriptions ≡ false)
    × (any_by (λ d. d.device_id == device_id) t.notification_deliveries ≡ false)

-- The deletion of a device's notification data is all or nothing: if it is accepted, none of its
-- settings, subscriptions and deliveries is left; if any of its statements is refused, no table has
-- changed.
pub delete_device_atomic :
    (device_id : String) (db : Db)
    → let (r, after) = delete_device_notification_data device_id db in
      ((r ≡ ok tt) × HasNoData device_id after.tables)
      ⊎ ((r ≡ err DbError.engine_fault) × (after.tables ≡ db.tables))
delete_device_atomic device_id db = go (delete_device_notification_data device_id db).0 refl
  where
    go :
        (r : Result DbError (Unit {0}))
        → (delete_device_notification_data device_id db).0 ≡ r
        → (((delete_device_notification_data device_id db).0 ≡ ok tt)
            × HasNoData device_id (delete_device_notification_data device_id db).1.tables)
          ⊎ (((delete_device_notification_data device_id db).0 ≡ err DbError.engine_fault)
              × ((delete_device_notification_data device_id db).1.tables ≡ db.tables))
    go (ok tt) e = inl (
      e,
      rw (delete_ok device_id db e) (
        any_by-delete_where _ db.tables.device_notification_settings,
        any_by-delete_where _ db.tables.push_subscriptions,
        any_by-delete_where _ db.tables.notification_deliveries,
      ),
    )
    go (err DbError.engine_fault) e = inr (e, delete_refused device_id db DbError.engine_fault e)
