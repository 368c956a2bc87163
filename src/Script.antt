-- ===== src/Script.antt =====
-- zscript/stats.go: the statistics of calls into scripts, which goroutines record at once.
pub mod Stats
pub mod Extremes
pub mod Tests
