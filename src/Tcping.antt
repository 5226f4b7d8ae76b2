-- ===== src/Tcping.antt =====
-- src/tcping.c
pub mod State
pub mod Options
pub mod Setup
pub mod Run
pub mod Settled
pub mod Answer
pub mod Account
pub mod Reported
pub mod Print
mod Tests
