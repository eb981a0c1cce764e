-- ===== src/Serial.antt =====
-- crates/princess-run/src/serial.rs: the observer of the guest's serial lines.
pub mod Parse
pub mod Observer
pub mod Verdict
pub mod Gate
pub mod Verbatim
pub mod Tally
pub mod Hexadecimal
mod Tests
