-- ===== src/NotificationStore/Queue.antt =====
-- What the delivery queue of notification_store.rs guarantees.
pub mod Keys
pub mod Claim
pub mod Marks
