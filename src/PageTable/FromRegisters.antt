-- ===== src/PageTable/FromRegisters.antt =====
-- crates/princess-bin/src/pagetable.rs `walk_from_registers`: a walk with the control registers of a
-- monitor's report.
use princess_ide.Prelude.{ℕ, Result, ok, err, map_err, ◌>>=◌}
use princess_ide.Str.{codes}
use princess_ide.GuestMem.{GuestMemory}
use princess_ide.PageTable.Walk.{WalkError, PageTableWalk, new_walker, walk}
use princess_ide.Monitor.Registers.{RegistersReport, RegisterError, register_u64}

-- The three internal errors, with what their messages quote.
pub data RegistersError : Type 0 where
  cannot_read : RegisterError → RegistersError
  efer_unknown : RegistersError
  no_walker : (cr3 : ℕ) → WalkError → RegistersError

-- The end of the function, with the registers read.
unfoldable pub start_walk :
    GuestMemory
    → (cr0 cr3 cr4 efer address : ℕ) → Result RegistersError (Result WalkError PageTableWalk)
unfolding new_walker walk
start_walk guest cr0 cr3 cr4 efer address = elim (new_walker guest cr0 cr4 efer) [
  | ok walker ↦ ok (walk walker cr3 address)
  | err e ↦ err (no_walker cr3 e)
]

unfoldable pub walk_from_registers :
    GuestMemory → RegistersReport → ℕ → Result RegistersError (Result WalkError PageTableWalk)
unfolding register_u64 start_walk
walk_from_registers guest registers address = do
  cr0 ← map_err cannot_read (register_u64 registers (codes "CR0"))
  cr3 ← map_err cannot_read (register_u64 registers (codes "CR3"))
  cr4 ← map_err cannot_read (register_u64 registers (codes "CR4"))
  efer ← map_err (λ e. efer_unknown) (register_u64 registers (codes "EFER"))
  start_walk guest cr0 cr3 cr4 efer address
