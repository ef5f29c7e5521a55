-- ===== src/Notifier.antt =====
-- src/notifier.rs: what stands between the channel of a subscription and the sockets of clients.
pub mod Subscriber
pub mod StateBuf
pub mod System
pub mod Latest
pub mod Settle
pub mod Bounds
pub mod Race
pub mod Tests
