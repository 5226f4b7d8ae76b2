-- ===== src/Net.antt =====
-- src/base/net.c
pub mod Checksum
pub mod Tcp
pub mod Kernel
pub mod Sockets
pub mod Balance
pub mod Lookups
pub mod Keep
pub mod Bind
pub mod Held
pub mod First
pub mod Gateway
pub mod Bpf
pub mod Device
pub mod Records
pub mod Stream
pub mod Routes
pub mod Layout
pub mod Routed
mod Tests
