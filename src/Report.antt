-- ===== src/Report.antt =====
-- src/report: the measurements of the tests and what the results compute from them.
pub mod Throughput
pub mod Latency
