-- ===== src/Route.antt =====
-- Package zroute.
pub mod Strategy
pub mod Winner
pub mod Rotation
pub mod Tests
