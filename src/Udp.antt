-- ===== src/Udp.antt =====
-- src/performance/udp: the STP transport.
pub mod Buf
pub mod Protocol
pub mod Congestion
pub mod Pacing
pub mod Client
pub mod Server
