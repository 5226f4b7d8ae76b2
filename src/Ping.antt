-- ===== src/Ping.antt =====
-- src/ping.c
pub mod Sqrt
pub mod State
pub mod Stats
pub mod Times
pub mod Options
pub mod Setup
pub mod Packet
pub mod Run
pub mod Settled
pub mod Request
pub mod Account
pub mod Reported
pub mod Print
pub mod Cisco
mod Tests
