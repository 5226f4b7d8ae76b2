-- ===== src/Arping.antt =====
-- src/arping.c
pub mod Options
pub mod Setup
pub mod Frame
pub mod Run
pub mod Settled
pub mod Account
pub mod Booked
pub mod Owed
pub mod Caused
pub mod Reported
pub mod Print
mod Tests
