-- ===== src/Traceroute.antt =====
-- src/traceroute.c
pub mod Match
pub mod Safe
pub mod Probe
pub mod Run
pub mod Unique
pub mod Hops
pub mod Answer
pub mod Options
pub mod Setup
pub mod Print
pub mod Text
pub mod Named
pub mod Measured
pub mod Cleared
pub mod Read
mod Tests
