-- ===== src/Sniff.antt =====
-- src/sniff.c
pub mod Options
pub mod Packet
pub mod Safe
pub mod Setup
pub mod Capture
pub mod Print
pub mod Dump
pub mod Pcap
mod Tests
