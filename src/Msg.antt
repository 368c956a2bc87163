-- ===== src/Msg.antt =====
-- Package zmsg: the message envelope, its wire format and its reference counts.
pub mod Bytes
pub mod Envelope
pub mod Encode
pub mod Decode
pub mod Accept
pub mod Refs
pub mod Tests
