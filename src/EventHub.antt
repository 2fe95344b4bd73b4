-- ===== src/EventHub.antt =====
-- crates/bridge-core/src/event_hub.rs: published events, the latest snapshots, and subscribers.
-- The broadcast channel is not modelled: what `send` answers and what a receiver yields are given.
pub mod Receiving
pub mod Snapshots
use codex_app.Prelude.{
  ℕ, String, ◌+◌, Bool, true, false, Option, none, some, List, [], ◌∷◌, ◌++◌, map, Result, ok, err,
  ltb, nat_eq, text_le, unwrap_or, same_text_option, upsert, find_by, sort_by, ◌==◌, if◌then◌else◌,
  ◌&&◌, ◌||◌,
}
use codex_app.Protocol.{SessionSnapshot, ServerEnvelope}

pub data PublishedEvent : Type 0 where
  envelope : Option String → ServerEnvelope → PublishedEvent
  disconnect_device : String → PublishedEvent

pub data EventReceiveError : Type 0 where
  device_disconnected : EventReceiveError
  lagged : ℕ → EventReceiveError
  closed : EventReceiveError

-- What `receiver.recv().await` yields.
pub data Received : Type 0 where
  value : PublishedEvent → Received
  lagged : ℕ → Received
  closed : Received

-- The events that were handed to the channel, oldest first, and the snapshot of each thread.
pub record EventHub : Type 0 where
  pub events : List PublishedEvent
  pub snapshots : List SessionSnapshot

pub record EventSubscriber : Type 0 where
  pub replay : List ServerEnvelope
  pub incoming : List Received
  pub device_id : Option String

abbrev pub new : EventHub
new = record { events = []; snapshots = [] }

-- `receivers` is what the channel's `send` answers after what was sent: the number of receivers, or
-- nothing where there are none.
module _ (receivers : List PublishedEvent → PublishedEvent → Option ℕ) where
  abbrev pub send : EventHub → PublishedEvent → EventHub × ℕ
  send hub event =
      (record hub { events = hub.events ++ event ∷ [] }, unwrap_or (receivers hub.events event) 0)

  unfoldable pub publish : EventHub → ServerEnvelope → EventHub × ℕ
  publish hub e = send hub (envelope none e)

  unfoldable pub publish_to_device : EventHub → String → ServerEnvelope → EventHub × ℕ
  publish_to_device hub device_id e = send hub (envelope (some device_id) e)

  unfoldable pub disconnect : EventHub → String → EventHub × ℕ
  disconnect hub device_id = send hub (disconnect_device device_id)

  unfoldable pub set_snapshot : EventHub → SessionSnapshot → EventHub × ℕ
  unfolding publish
  set_snapshot hub snapshot =
      publish
        (record hub {
          snapshots =
              upsert (λ s. s.thread_id == snapshot.thread_id) (λ _. snapshot) snapshot
                hub.snapshots;
        })
        (ServerEnvelope.session_snapshot snapshot)

unfoldable pub snapshot_for_thread : EventHub → String → Option SessionSnapshot
snapshot_for_thread hub thread_id = find_by (λ s. s.thread_id == thread_id) hub.snapshots

-- Newest first, then by thread.
abbrev pub shown_first : SessionSnapshot → SessionSnapshot → Bool
shown_first left right =
    ltb right.updated_at left.updated_at
    || (nat_eq right.updated_at left.updated_at && text_le left.thread_id right.thread_id)

unfoldable pub all_snapshots : EventHub → List SessionSnapshot
all_snapshots hub = sort_by shown_first hub.snapshots

-- A new subscriber, with what its receiver will yield.
unfoldable pub subscribe_with_device : EventHub → Option String → List Received → EventSubscriber
unfolding all_snapshots
subscribe_with_device hub device_id incoming = record {
  replay = map ServerEnvelope.session_snapshot (all_snapshots hub);
  incoming = incoming;
  device_id = device_id;
}

unfoldable pub subscribe : EventHub → List Received → EventSubscriber
unfolding subscribe_with_device
subscribe hub incoming = subscribe_with_device hub none incoming

unfoldable pub subscribe_for_device : EventHub → String → List Received → EventSubscriber
unfolding subscribe_with_device
subscribe_for_device hub device_id incoming = subscribe_with_device hub (some device_id) incoming

-- The loop of `recv`: nothing while the receiver yields nothing that ends it.
unfoldable pub recv_loop :
    Option String → List Received → Option (Result EventReceiveError ServerEnvelope × List Received)
recv_loop device_id [] = none
recv_loop device_id (value (envelope none e) ∷ rest) = some (ok e, rest)
recv_loop device_id (value (envelope (some target) e) ∷ rest) =
    let others = recv_loop device_id rest in
    if same_text_option device_id (some target) then some (ok e, rest) else others
recv_loop device_id (value (disconnect_device target) ∷ rest) =
    let others = recv_loop device_id rest in
    if same_text_option device_id (some target)
    then some (err EventReceiveError.device_disconnected, rest)
    else others
recv_loop device_id (Received.lagged count ∷ rest) =
    some (err (EventReceiveError.lagged count), rest)
recv_loop device_id (Received.closed ∷ rest) = some (err EventReceiveError.closed, rest)

abbrev recv_after :
    EventSubscriber
    → List ServerEnvelope
    → Option (Result EventReceiveError ServerEnvelope × EventSubscriber)
recv_after s (e ∷ replay) = some (ok e, record s { replay = replay })
recv_after s [] = elim (recv_loop s.device_id s.incoming) [
  | none ↦ none
  | some (r, rest) ↦ some (r, record s { incoming = rest })
]

unfoldable pub recv :
    EventSubscriber → Option (Result EventReceiveError ServerEnvelope × EventSubscriber)
unfolding recv_loop
recv s = recv_after s s.replay
