-- ===== src/NotificationDispatcher/Targets.antt =====
-- To whom an alert is published.
use codex_app.Prelude.{
  ℕ, String, ◌≡◌, ◌+◌, refl, sym, ap, ◌∙◌, Bool, true, false, Option, none, some, List, [], ◌∷◌,
  ◌++◌, map, filter_by, Result, ok, err, continue, pure, ◌>>=◌, ◌==◌, arith, if◌then◌else◌,
}
use codex_app.Prelude.{
  TextAscending, sort_by-TextAscending, filter_by-TextAscending, count_by, count_by-sort_by, any_by,
  not, is_some, ◌&&◌,
}
use codex_app.NotificationStore.Records.{may_alert, count_by-filter_by}
use codex_app.Protocol.{AlertKind, AlertEvent, ServerEnvelope}
use codex_app.Database.{Db, DbError}
use codex_app.Database.Schema.{DeviceNotificationSettings, kind_enabled}
use codex_app.NotificationStore.{enabled_settings, select_enabled}
use codex_app.EventHub.{PublishedEvent, publish_to_device}
use codex_app.PublicAccess.{PublicAccessContext}
use codex_app.WebPush.{PushPayload}
use codex_app.Bridge.{Bridge, Failure, lift, on_db, current}
use codex_app.NotificationDispatcher.{
  current_push_access, send_to, enqueue_push, dispatch_to, dispatch,
}
use codex_app.NotificationDispatcher.Quiet.{enqueue_push-Quiet}

append_assoc :
    {A : Type 0} (xs : List A) (y : A) (zs : List A) → (xs ++ y ∷ []) ++ zs ≡ xs ++ y ∷ zs
append_assoc [] y zs = refl
append_assoc (x ∷ xs) y zs = ap (◌∷◌ x) (append_assoc xs y zs)

append_nil : {A : Type 0} (xs : List A) → xs ++ [] ≡ xs
append_nil [] = refl
append_nil (x ∷ xs) = ap (◌∷◌ x) (append_nil xs)

-- The switch of a device for a kind of alert.
abbrev pub switched_on : AlertKind → DeviceNotificationSettings → Bool
switched_on AlertKind.completed s = s.alert_kinds.completed
switched_on AlertKind.approval_required s = s.alert_kinds.approval_required
switched_on AlertKind.input_required s = s.alert_kinds.input_required
switched_on AlertKind.error s = s.alert_kinds.error

same_test :
    (kind : AlertKind) (a : Bool) (s : DeviceNotificationSettings)
    (q : DeviceNotificationSettings → Bool)
    → (a && (kind_enabled s kind && q s)) ≡ (a && (switched_on kind s && q s))
unfolding kind_enabled
same_test AlertKind.completed a s q = refl
same_test AlertKind.approval_required a s q = refl
same_test AlertKind.input_required a s q = refl
same_test AlertKind.error a s q = refl

count_by-same :
    {A : Type 0} (p q : A → Bool)
    → ((x : A) → p x ≡ q x)
    → (xs : List A) → count_by p xs ≡ count_by q xs
count_by-same p q same [] = refl
count_by-same p q same (x ∷ xs) = rw (same x, count_by-same p q same xs) refl

module _ (push_runtime : Bool) (receivers : List PublishedEvent → PublishedEvent → Option ℕ)
    (access : ℕ → PublicAccessContext) (to_json : PushPayload → Option String) where
  abbrev alerts_for : AlertEvent → List DeviceNotificationSettings → List PublishedEvent
  alerts_for event =
      map (λ s. PublishedEvent.envelope (some s.device_id) (ServerEnvelope.alert_event event))

  dispatch_to-events :
      (targets : List DeviceNotificationSettings) (event : AlertEvent)
      (context : Option PublicAccessContext) (now : String → ℕ) (deliveries n : ℕ) (b : Bridge)
      → (dispatch_to push_runtime receivers access to_json targets event context now deliveries b).0
        ≡ ok n
      → (dispatch_to push_runtime receivers access to_json targets event context now deliveries
          b).1.hub.events
        ≡ b.hub.events ++ alerts_for event targets
  unfolding dispatch_to publish_to_device
  dispatch_to-events [] event context now deliveries n b h = sym (append_nil b.hub.events)
  dispatch_to-events (settings ∷ targets) event context now deliveries n b h =
      let (sent, published) =
        send_to push_runtime receivers access to_json settings.device_id event b in
      let (r, after) =
        enqueue_push push_runtime receivers access to_json settings event false context
          (now settings.device_id) published in
      go (λ k b' e. dispatch_to-events targets event context now k n b' e) r after
        ((enqueue_push-Quiet push_runtime receivers access to_json published.hub settings event
            false context (now settings.device_id)).at
          published refl)
        _ h
    where
      hub_events : List PublishedEvent
      hub_events = b.hub.events ++ alerts_for event (settings ∷ [])

      go :
          ((k : ℕ) (b' : Bridge)
            → (dispatch_to push_runtime receivers access to_json targets event context now k b').0
              ≡ ok n
            → (dispatch_to push_runtime receivers access to_json targets event context now k
                b').1.hub.events
              ≡ b'.hub.events ++ alerts_for event targets)
          → (r : Result Failure Bool) (b' : Bridge) → b'.hub ≡ record b.hub { events = hub_events }
          → (k : ℕ)
          → (continue
              (r, b')
              (λ _.
                dispatch_to push_runtime receivers access to_json targets event context now k)).0
            ≡ ok n
          → (continue
              (r, b')
              (λ _.
                dispatch_to push_runtime receivers access to_json targets event context now
                  k)).1.hub.events
            ≡ b.hub.events ++ alerts_for event (settings ∷ targets)
      go rest (ok x) b' hub k e =
          rest k b' e
          ∙ ap (λ g. g.events ++ alerts_for event targets) hub
          ∙ append_assoc b.hub.events _ (alerts_for event targets)
      go rest (err x) b' hub k e = cc

  enabled_ok :
      (db : Db) (l : List DeviceNotificationSettings)
      → (enabled_settings db).0 ≡ ok l
      → l ≡ select_enabled db.tables
  unfolding enabled_settings
  enabled_ok db l h = ground arith

  dispatched_events :
      (event : AlertEvent) (now : String → ℕ) (n : ℕ) (b : Bridge)
      → (dispatch push_runtime receivers access to_json event now b).0 ≡ ok n
      → (dispatch push_runtime receivers access to_json event now b).1.hub.events
        ≡ b.hub.events
          ++ map
              (λ s. PublishedEvent.envelope (some s.device_id) (ServerEnvelope.alert_event event))
              (filter_by (λ s. kind_enabled s event.kind) (select_enabled b.db.tables))
  unfolding dispatch current_push_access
  dispatched_events event now n b h = go push_runtime h
    where
      after_read :
          (context : Option PublicAccessContext)
          (r : Result DbError (List DeviceNotificationSettings)) (db : Db) (b' : Bridge)
          → ((l : List DeviceNotificationSettings) → r ≡ ok l → l ≡ select_enabled b.db.tables)
          → b'.hub ≡ b.hub
          → (continue (lift (r, db) b') (λ l.
              dispatch_to push_runtime receivers access to_json
                (filter_by (λ s. kind_enabled s event.kind) l)
                event
                context
                now
                0)).0
            ≡ ok n
          → (continue (lift (r, db) b') (λ l.
              dispatch_to push_runtime receivers access to_json
                (filter_by (λ s. kind_enabled s event.kind) l)
                event
                context
                now
                0)).1.hub.events
            ≡ b.hub.events
              ++ alerts_for event
                  (filter_by (λ s. kind_enabled s event.kind) (select_enabled b.db.tables))
      after_read context (ok l) db b' known hub e =
          dispatch_to-events _ event context now 0 n (record b' { db = db }) e
          ∙ ap (λ g. g.events ++ alerts_for event (filter_by (λ s. kind_enabled s event.kind) l))
              hub
          ∙ ap
              (λ rows.
                b.hub.events ++ alerts_for event (filter_by (λ s. kind_enabled s event.kind) rows))
              (known l refl)
      after_read context (err x) db b' known hub e = cc

      go :
          (runtime : Bool)
          → (continue
              ((if runtime then (do context ← current access; pure (some context)) else pure none)
                b)
              (λ context. on_db enabled_settings >>= λ l.
                dispatch_to push_runtime receivers access to_json
                  (filter_by (λ s. kind_enabled s event.kind) l)
                  event
                  context
                  now
                  0)).0
            ≡ ok n
          → (continue
              ((if runtime then (do context ← current access; pure (some context)) else pure none)
                b)
              (λ context. on_db enabled_settings >>= λ l.
                dispatch_to push_runtime receivers access to_json
                  (filter_by (λ s. kind_enabled s event.kind) l)
                  event
                  context
                  now
                  0)).1.hub.events
            ≡ b.hub.events
              ++ alerts_for event
                  (filter_by (λ s. kind_enabled s event.kind) (select_enabled b.db.tables))
      go true e =
          let (r, db) = enabled_settings b.db in
          after_read (some (access b.reads)) r db (record b { reads = b.reads + 1 })
            (enabled_ok b.db) refl e
      go false e =
          let (r, db) = enabled_settings b.db in after_read none r db b (enabled_ok b.db) refl e

  -- A dispatch that succeeds hands the alert to the channel once for each row of a list, addressed to
  -- the row's device alone, and nothing else, whatever becomes of the pushes. The rows are in the
  -- order of their device ids, and are the enabled ones of registered devices that are not revoked
  -- in which the alert's kind is switched on: for every test as many rows pass it as the table has
  -- such rows.
  pub dispatch_targets :
      (event : AlertEvent) (now : String → ℕ) (n : ℕ) (b : Bridge)
      (q : DeviceNotificationSettings → Bool)
      → (dispatch push_runtime receivers access to_json event now b).0 ≡ ok n
      → (targets : List DeviceNotificationSettings) × ((dispatch push_runtime receivers access
            to_json event now b).1.hub.events
          ≡ b.hub.events
            ++ map
                (λ s. PublishedEvent.envelope (some s.device_id) (ServerEnvelope.alert_event event))
                targets)
        × TextAscending (λ s. s.device_id) targets
        × (count_by q targets
            ≡ count_by
                (λ s.
                  (any_by
                      (λ d. d.device_id == s.device_id && not (is_some d.revoked_at))
                      b.db.tables.devices
                    && s.enabled)
                  && (switched_on event.kind s && q s))
                b.db.tables.device_notification_settings)
  unfolding select_enabled
  dispatch_targets event now n b q h = (
    filter_by (λ s. kind_enabled s event.kind) (select_enabled b.db.tables),
    dispatched_events event now n b h,
    filter_by-TextAscending (λ s. s.device_id) _ _ (sort_by-TextAscending (λ s. s.device_id) _),
    count_by-filter_by q (λ s. kind_enabled s event.kind) _
        ∙ count_by-sort_by (λ s. kind_enabled s event.kind && q s) _ _
        ∙ count_by-filter_by (λ s. kind_enabled s event.kind && q s) (may_alert b.db.tables.devices)
            b.db.tables.device_notification_settings
        ∙ count_by-same _ _ (λ s. same_test event.kind (may_alert b.db.tables.devices s) s q)
            b.db.tables.device_notification_settings,
  )
