-- ===== src/Monitor.antt =====
-- crates/princess-bin/src/monitor.rs: the reports of QEMU's monitor.
pub mod Lines
pub mod Tables
pub mod Granularity
pub mod Blame
pub mod Flags
pub mod Digits
pub mod TlbRows
pub mod MemRows
pub mod Pairs
pub mod Boundary
pub mod Control
pub mod Walking
pub mod Qmp
mod Tests
pub mod Printed
pub mod Registers
