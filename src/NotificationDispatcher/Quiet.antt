-- ===== src/NotificationDispatcher/Quiet.antt =====
-- The making of a push leaves the event hub as it was.
use codex_app.Prelude.{
  ℕ, String, ◌≡◌, Bool, true, false, Option, none, some, List, Result, ok, err, pure, ◌>>=◌, ◌==◌,
  if◌then◌else◌, Preserves, Preserves-pure, Preserves-raise, Preserves-bind,
}
use codex_app.Protocol.{AlertEvent}
use codex_app.Database.{Db, DbError, Sql}
use codex_app.Database.Schema.{DeviceNotificationSettings, PushSubscriptionRecord}
use codex_app.NotificationStore.{active_subscription, enqueue_delivery}
use codex_app.EventHub.{PublishedEvent, EventHub}
use codex_app.PublicAccess.{PublicAccessContext}
use codex_app.WebPush.{PushPayload}
use codex_app.Bridge.{Bridge, Failure, Action, lift, on_db}
use codex_app.NotificationDispatcher.{
  notify, new_delivery, payload_for, encoded, enqueue_to, push_origin, enqueue_push,
}

if-Preserves :
    {A : Type 0} {I : Bridge → Type 0} (c : Bool) {m n : Action A}
    → Preserves I m
    → Preserves I n
    → Preserves I (if c then m else n)
if-Preserves true k l = k
if-Preserves false k l = l

module _ (hub : EventHub) where
  -- The event hub is as it was.
  abbrev pub Quiet : Bridge → Type 0
  Quiet b = b.hub ≡ hub

  on_db-Quiet : {A : Type 0} (m : Sql A) → Preserves Quiet (on_db m)
  on_db-Quiet m = record { at = λ b h. let (r, db) = m b.db in go r db b h }
    where
      go :
          {A : Type 0} (r : Result DbError A) (db : Db) (b : Bridge)
          → Quiet b
          → Quiet (lift (r, db) b).1
      go (ok a) db b h = h
      go (err e) db b h = h

module _ (push_runtime : Bool) (receivers : List PublishedEvent → PublishedEvent → Option ℕ)
    (access : ℕ → PublicAccessContext) (to_json : PushPayload → Option String) where
  module _ (hub : EventHub) where
    notify-Quiet :
        (enqueued : Bool)
        → Preserves (Quiet hub) (notify push_runtime receivers access to_json enqueued)
    notify-Quiet true = record { at = λ b h. h }
    notify-Quiet false = record { at = λ b h. h }

    encoded-Quiet :
        (o : Option String)
        → Preserves (Quiet hub) (encoded push_runtime receivers access to_json o)
    encoded-Quiet none = Preserves-raise _
    encoded-Quiet (some json) = Preserves-pure _

    enqueue_to-Quiet :
        (settings : DeviceNotificationSettings) (event : AlertEvent) (force : Bool) (now : ℕ)
        (origin : String) (s : Option PushSubscriptionRecord)
        → Preserves
            (Quiet hub)
            (enqueue_to push_runtime receivers access to_json settings event force now origin s)
    enqueue_to-Quiet settings event force now origin none = Preserves-pure _
    enqueue_to-Quiet settings event force now origin (some s) =
        if-Preserves (s.origin == origin)
          (Preserves-bind
            (encoded push_runtime receivers access to_json
              (to_json (payload_for push_runtime receivers access to_json settings event force)))
            _ (encoded-Quiet _)
            λ json.
              Preserves-bind
                (on_db (
                  enqueue_delivery
                    (new_delivery push_runtime receivers access to_json settings event json now)))
                _ (on_db-Quiet hub _) notify-Quiet)
          (Preserves-pure _)

    pub enqueue_push-Quiet :
        (settings : DeviceNotificationSettings) (event : AlertEvent) (force : Bool)
        (context : Option PublicAccessContext) (now : ℕ)
        → Preserves
            (Quiet hub)
            (enqueue_push push_runtime receivers access to_json settings event force context now)
    unfolding enqueue_push
    enqueue_push-Quiet settings event force context now =
        if-Preserves push_runtime (go (push_origin push_runtime receivers access to_json context))
          (Preserves-pure _)
      where
        go :
            (origin : Option String)
            → Preserves {E = Failure} {S = Bridge} {A = Bool} (Quiet hub) (elim origin [
              | none ↦ pure false
              | some public_origin ↦ do
                subscription ← on_db (active_subscription settings.device_id)
                enqueue_to push_runtime receivers access to_json settings event force now
                    public_origin subscription
            ])
        go none = Preserves-pure _
        go (some origin) =
            Preserves-bind (on_db (active_subscription settings.device_id)) _ (on_db-Quiet hub _)
              (enqueue_to-Quiet settings event force now origin)
