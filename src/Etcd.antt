-- ===== src/Etcd.antt =====
-- zdiscovery/etcd.go: the discovery over etcd, with its cache of the registered actors.
pub mod Cache
pub mod Keys
pub mod Events
pub mod Registry
pub mod Once
pub mod Latest
pub mod View
pub mod Backed
pub mod Choice
pub mod Search
pub mod Agree
pub mod Decimal
pub mod Tests
