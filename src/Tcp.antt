-- ===== src/Tcp.antt =====
-- src/performance/tcp.
pub mod Server
pub mod Client
