-- ===== src/Pscan.antt =====
-- src/pscan.c
pub mod State
pub mod Os
pub mod Ports
pub mod Packet
pub mod Safe
pub mod Banner
pub mod Report
pub mod Json
pub mod Grammar
pub mod Valid
pub mod Printed
pub mod Options
pub mod Setup
pub mod Probe
pub mod Answered
pub mod Open
pub mod Run
pub mod Scan
pub mod Refine
pub mod Quoted
pub mod Refused
pub mod Udp
pub mod Shown
pub mod OnceShown
pub mod Lines
mod Tests
