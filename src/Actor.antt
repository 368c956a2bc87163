-- ===== src/Actor.antt =====
-- Package zactor.
pub mod Breaker
pub mod Routes
pub mod Discovery
pub mod Cache
pub mod Restart
pub mod Async
pub mod Balance
pub mod Commands
pub mod Mailbox
pub mod Send
pub mod Group
pub mod Watchdog
pub mod Tests
