-- ===== src/Lib.antt =====
-- The core of the bridge of codex_app: a program on the desktop that watches coding sessions and
-- alerts paired phones, over a stream of events and by Web Push.
--
-- Parts and files, the sources under crates/bridge-core/src:
--   Protocol                protocol.rs: the messages
--   Database                the SQLite connection of storage.rs and notification_store.rs; its rows
--                           (Schema), what a transaction guarantees (Transactions), rules for
--                           invariants (Invariants), the texts of the delivery statuses (Statuses)
--   Storage                 storage.rs: devices and event cursors; Devices compares the table with a map
--   NotificationStore       notification_store.rs: settings, subscriptions, the delivery queue and the
--                           alert state of each session; Queue and Records hold the proofs
--   AlertDetector           alert_detector.rs: detect_alerts and what it raises
--   EventHub                event_hub.rs: publishing, snapshots, and recv of a subscriber
--   PublicAccess            public_access.rs: which public origin is accepted
--   WebPush                 web_push.rs: the payload, and the classes of failures
--   Bridge                  the state that the parts share, and rules for actions on it
--   NotificationDispatcher  notification_dispatcher.rs: an alert to the devices that want it;
--                           Pushes, Quiet and Targets hold the proofs
--   PushDeliveryWorker      push_delivery_worker.rs: the loop over the due deliveries
--   Pairing                 pairing.rs: pairing tokens, sessions and revocation
--   LocalAssets             local_assets.rs: the tokens of images; its children hold the proofs on its
--                           two maps (Pairs, Consistency, Registration), on its capacity (Eviction,
--                           Capacity), on what a fetch answers (Lookup), and on sequences of calls
--   Codex                   codex_rpc.rs: the records of threads, turns and events
--   Normalizer              normalizer.rs, by its parts: Fields, Status, Labels, Agents, Text,
--                           Attachments, Roles, Commands, Activity, Events, Notifications, Snapshots;
--                           Lifecycle, Identifiers and Details hold the proofs
--   Approval                approval.rs: the requests for approval; Methods compares them with the
--                           normalizer's events
--   AlertMonitor            alert_monitor.rs: a cycle, and the sleep after it (Backoff)
--   RemoteAccessConfig      crates/desktop-core/src/remote_access_config.rs: a disk that may fail, what a
--                           save leaves on it (Saving), the profiles that are accepted (Profiles), and
--                           what a load makes of a saved file (Reading)
--   Workspace               workspace.rs: which directories are offered (Offers) and accepted (Allowed)
--   Tunnel                  tunnel.rs of crates/desktop-core/src: the quick tunnel (Starting, Urls), its
--                           states (Consistency) and the end of its waits (Waits, Deadlines)
--   Json                    the values of the serde_json crate, as the source reads them
--   Prelude                 lists, tables as lists of rows, tests, texts as bytes and as characters,
--                           the order of texts, stateful actions
--   Tests                   the theorems at concrete inputs
--
-- How they interact: the monitor asks Codex for its threads, normalizes each to a snapshot, asks the
-- detector what changed, saves the new alert state and gives the alerts to the dispatcher. The
-- dispatcher reads the settings from the store, publishes to the hub, and
-- enqueues deliveries for the worker, which claims them one by one, sends them, and records the
-- outcome. The tunnel gives the bridge its public URL. The maps of the local assets are lists of
-- entries in the order in which they are iterated. A method that changes a state and may fail is an action, a function from the state to a
-- result and the next state (Prelude/Effects). Functions keep their names; an action on the bridge
-- takes the bridge, whose fields stand for what the Arc-shared fields of the parts point to.
--
-- The database: each statement reads or rewrites the tables, or is refused. Which ones are refused
-- is a schedule given with the database (its field `faults`), so that what is stated of all databases
-- holds whatever the engine refuses. A transaction that fails is rolled back. Columns have the types
-- of the values that the program writes and reads; a stored list is a list, not its JSON text.
--
-- Numbers: u32 and u64 are natural numbers. Where the source adds with saturation, the sum is cut
-- at the largest value; where it adds plainly, the sum wraps at 2 ^ 64, as a release build does.
--
-- Fuel: drain_due_once_at runs on fuel, one unit for each delivery claimed; it is enough to have
-- more of it than deliveries are due. receive_all runs on fuel, one unit for each call of recv. The
-- eviction of local assets runs on as much fuel as there are entries, since each round removes one. The
-- waits of a tunnel's start run on fuel, one unit for each round; more of it than the startup timeout
-- has ticks and the child prints lines is enough, if the clock never goes back, counts each
-- sleep whole, and the poll interval is not zero. The depth to which values are searched for text and images is the source's own, 7 levels.
--
-- Time of a tunnel: a sleep, and a wait for output that has run out, add their duration to the
-- manager's field `slept`; the clock shows this sum and what else has gone by, which is the
-- environment's. Durations and times are in ticks of the clock.
--
-- Parameters: the broadcast channel (how many receivers `send` answers, what a receiver yields), the
-- parser of the url crate, the SHA-256 digest, the generator of UUIDs, the clock, the JSON encoder and
-- decoder, and the transport of Web Push, which may answer differently at each send. The state of the
-- public access is read anew at each read and may change in between. What Codex answers to a cycle of the
-- monitor, what the file system answers of a path (canonicalize, and whether it is a directory), the
-- child process of a tunnel with its output, the health probe, and the text of a number of milliseconds
-- in seconds with one decimal, and the text of a JSON value, are parameters too. A path is carried as a text;
-- where the source turns a path into a text by to_string_lossy, this is a parameter as well, since a path
-- need not be UTF-8.
--
-- Not modelled: the HTTP interface (http_api.rs), the connection to Codex (cdp.rs, and codex_rpc.rs but
-- for its records), keys and diagnostics (vapid.rs, diagnostics.rs),
-- the choice of the tunnel's binary, named tunnels and the other parts of crates/desktop-core, the
-- desktop shell (apps), and the migration of old databases but for the recovery of deliveries. The
-- endless loops of the monitor and the worker are modelled by their rounds.
pub mod Prelude
pub mod Json
pub mod Codex
pub mod Normalizer
pub mod Approval
pub mod Tunnel
pub mod AlertMonitor
pub mod Workspace
pub mod RemoteAccessConfig
pub mod Protocol
pub mod Database
pub mod NotificationStore
pub mod AlertDetector
mod Tests
pub mod LocalAssets
pub mod EventHub
pub mod PublicAccess
pub mod WebPush
pub mod Bridge
pub mod Storage
pub mod Pairing
pub mod NotificationDispatcher
pub mod PushDeliveryWorker
