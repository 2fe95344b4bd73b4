-- ===== src/NotificationDispatcher/Pushes.antt =====
-- When a push is enqueued.
use codex_app.Prelude.{
  ℕ, String, ◌≡◌, refl, ap, ◌∙◌, Bool, true, false, Option, none, some, List, Result, ok, err,
  continue, pure, ◌>>=◌, ◌==◌, arith, eq_iff, find_by, inl, inr, Bool-cases, if◌then◌else◌,
}
use codex_app.Protocol.{AlertEvent}
use codex_app.Database.{Db, DbError}
use codex_app.Database.Schema.{DeviceNotificationSettings, PushSubscriptionRecord}
use codex_app.NotificationStore.{active_subscription, subscribed_active}
use codex_app.EventHub.{PublishedEvent}
use codex_app.PublicAccess.{PublicAccessMode, PublicAccessContext, is_named}
use codex_app.WebPush.{PushPayload}
use codex_app.Bridge.{Bridge, Failure, Action, lift, on_db}
use codex_app.NotificationDispatcher.{enqueue_push, enqueue_to, push_origin}

-- What is known of the public access and the device when a push is enqueued.
pub record Reachable (context : Option PublicAccessContext) (device_id : String)
    (rows : List PushSubscriptionRecord) : Type 0 where
  pub access : PublicAccessContext
  pub subscription : PushSubscriptionRecord
  pub at_access : context ≡ some access
  pub named : access.mode ≡ PublicAccessMode.named
  pub active : find_by (subscribed_active device_id) rows ≡ some subscription
  pub same_origin : access.public_origin ≡ some subscription.origin

refused : ◌≡◌ {A = Result Failure Bool} (ok false) (ok true) → ⊥
refused p = cc

named_only : (mode : PublicAccessMode) → is_named mode ≡ true → mode ≡ PublicAccessMode.named
named_only PublicAccessMode.local h = cc
named_only PublicAccessMode.quick h = cc
named_only PublicAccessMode.named h = refl

read_active :
    (device_id : String) (db : Db) (o : Option PushSubscriptionRecord)
    → (active_subscription device_id db).0 ≡ ok o
    → find_by (subscribed_active device_id) db.tables.push_subscriptions ≡ o
unfolding active_subscription
read_active device_id db o h = ground arith

module _ (push_runtime : Bool) (receivers : List PublishedEvent → PublishedEvent → Option ℕ)
    (access : ℕ → PublicAccessContext) (to_json : PushPayload → Option String) where
  origin_of :
      (context : Option PublicAccessContext) (origin : String)
      → push_origin push_runtime receivers access to_json context ≡ some origin
      → (c : PublicAccessContext) × (context ≡ some c)
        × (c.mode ≡ PublicAccessMode.named)
        × (c.public_origin ≡ some origin)
  origin_of none origin h = cc
  origin_of (some c) origin h = elim (Bool-cases (is_named c.mode)) [
    | inl e ↦ (c, refl, named_only c.mode e, rw e at h)
    | inr e ↦ absurd (nothing (rw e at h))
  ]
    where
      nothing : none ≡ some origin → ⊥
      nothing p = cc

  -- What follows the origin.
  abbrev pushed_at :
      DeviceNotificationSettings → AlertEvent → Bool → ℕ → Option String → Action Bool
  pushed_at settings event force now o = elim o [
    | none ↦ pure false
    | some public_origin ↦ do
      subscription ← on_db (active_subscription settings.device_id)
      enqueue_to push_runtime receivers access to_json settings event force now public_origin
          subscription
  ]

  -- A push is enqueued only if a named tunnel is up and the device has an active subscription at the
  -- origin of that tunnel.
  pub enqueue_push-Reachable :
      (settings : DeviceNotificationSettings) (event : AlertEvent) (force : Bool)
      (context : Option PublicAccessContext) (now : ℕ) (b : Bridge)
      → (enqueue_push push_runtime receivers access to_json settings event force context now b).0
        ≡ ok true
      → Reachable context settings.device_id b.db.tables.push_subscriptions
  unfolding enqueue_push
  enqueue_push-Reachable settings event force context now b h = with_runtime push_runtime h
    where
      after_read :
          (origin : String)
          → push_origin push_runtime receivers access to_json context ≡ some origin
          → (r : Result DbError (Option PushSubscriptionRecord)) (db : Db)
          → ((o : Option PushSubscriptionRecord)
              → r ≡ ok o
              → find_by (subscribed_active settings.device_id) b.db.tables.push_subscriptions ≡ o)
          → (continue
              (lift (r, db) b)
              (enqueue_to push_runtime receivers access to_json settings event force now origin)).0
            ≡ ok true
          → Reachable context settings.device_id b.db.tables.push_subscriptions
      after_read origin e (err x) db found k = cc
      after_read origin e (ok none) db found k = cc
      after_read origin e (ok (some s)) db found k = elim (Bool-cases (s.origin == origin)) [
        | inl same ↦
            let (c, is_context, named, at_origin) = origin_of context origin e in
            record {
              access = c;
              subscription = s;
              at_access = is_context;
              named = named;
              active = found (some s) refl;
              same_origin = at_origin ∙ ap some (ground (arith, eq_iff s.origin origin));
            }
        | inr other ↦ absurd (refused (rw other at k))
      ]

      at_origin :
          (o : Option String)
          → push_origin push_runtime receivers access to_json context ≡ o
          → (pushed_at settings event force now o b).0 ≡ ok true
          → Reachable context settings.device_id b.db.tables.push_subscriptions
      at_origin none e k = cc
      at_origin (some origin) e k =
          let (r, db) = active_subscription settings.device_id b.db in
          after_read origin e r db (read_active settings.device_id b.db) k

      with_runtime :
          (runtime : Bool)
          → ((if runtime
                then pushed_at settings event force now
                    (push_origin push_runtime receivers access to_json context)
                else pure false)
              b).0
            ≡ ok true
          → Reachable context settings.device_id b.db.tables.push_subscriptions
      with_runtime true k =
          at_origin (push_origin push_runtime receivers access to_json context) refl k
      with_runtime false k = cc
