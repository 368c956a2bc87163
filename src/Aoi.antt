-- ===== src/Aoi.antt =====
-- Package zaoi.
pub mod Space
pub mod Static
pub mod Cells
pub mod Placed
pub mod Moves
pub mod Nearby
pub mod Tests
