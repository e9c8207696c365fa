-- ===== src/Testing.antt =====
-- What the clients of the protocols share: the collector of the measurements, the progress bars, the
-- loop of a latency test, the configurations, the choice of the tests, and the command line's choice of a mode.
pub mod Collector
pub mod Probes
pub mod Index
pub mod Config
pub mod Progress
pub mod Runner
pub mod Clients
