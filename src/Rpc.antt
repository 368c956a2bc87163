-- ===== src/Rpc.antt =====
-- zactor/sender.go: the slots that match RPC replies to the calls that wait for them.
pub mod Slots
pub mod Reply
pub mod Claim
pub mod Alloc
pub mod Call
pub mod Versions
pub mod Late
pub mod Tests
