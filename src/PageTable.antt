-- ===== src/PageTable.antt =====
-- crates/princess-bin/src/pagetable.rs: walking the x86_64 page table.
pub mod Registers
pub mod Entry
pub mod Canonical
pub mod Walk
pub mod Halves
pub mod Explain
pub mod Fields
pub mod Rounds
pub mod Path
pub mod Translation
pub mod Sound
pub mod Arrival
pub mod Reserved
pub mod Answers
pub mod Complete
pub mod Hole
pub mod Place
pub mod Absent
pub mod Pat
pub mod Panic
pub mod FromRegisters
mod Tests
