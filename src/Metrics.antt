-- ===== src/Metrics.antt =====
-- zmetrics/metrics.go: the histograms and the numbers of the exposition.
pub mod Histogram
pub mod Number
pub mod Cumulative
pub mod Printed
pub mod Tests
