-- ===== src/NotificationStore.antt =====
-- crates/bridge-core/src/notification_store.rs, one function for each method; the statements are
-- those of the source, over the tables of Database.Schema.
mod Settings
mod Subscriptions
mod Deliveries
mod AlertStates
pub mod Queue
pub mod Records
unfoldable pub use Settings.*
unfoldable pub use Subscriptions.*
unfoldable pub use Deliveries.*
unfoldable pub use AlertStates.*
