-- ===== src/Descriptor.antt =====
-- crates/princess-bin/src/descriptor.rs: the descriptor tables of x86_64.
pub mod Decode
pub mod Gdt
pub mod Pairs
pub mod Slots
pub mod Total
pub mod Fields
pub mod Idt
pub mod Gates
pub mod TaskState
mod Tests
