-- ===== src/Gate.antt =====
-- Package zgate.
pub mod Session
pub mod Remote
pub mod Attempts
pub mod Fallback
pub mod Tracker
pub mod Samples
pub mod Server
pub mod Routed
pub mod Destination
pub mod Tests
