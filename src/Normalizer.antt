-- ===== src/Normalizer.antt =====
-- crates/bridge-core/src/normalizer.rs: the Codex app server's threads, turns and notifications as
-- the sessions and events that clients see. A `match` on a text is a test for one of some texts.
pub mod Fields
pub mod Status
pub mod Labels
pub mod Agents
pub mod Text
pub mod Attachments
pub mod Roles
pub mod Commands
pub mod Activity
pub mod Events
pub mod Notifications
pub mod Snapshots
pub mod Lifecycle
pub mod Identifiers
pub mod Details
