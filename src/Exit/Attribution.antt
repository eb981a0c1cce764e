-- ===== src/Exit/Attribution.antt =====
-- The evidence behind each reason that a run is given for its end.
use princess_ide.Prelude.{true, false, Option, none, some, ◌≡◌, ◌↔◌, ◌⊎◌, arith}
use princess_ide.Exit.{
  ℤ, pos, negsuc, guest_shutdown, timeout, triple_fault, killed, QemuEvidence, exited_zero, reason,
}

exited_zero_iff : (c : Option ℤ) → (exited_zero c ≡ true) ↔ (c ≡ some (pos 0))
exited_zero_iff none = ground arith
exited_zero_iff (some (pos n)) = ground arith
exited_zero_iff (some (negsuc n)) = ground arith

-- The engine stopped the run, by cancellation or at its deadline.
abbrev pub Stopped : QemuEvidence → Type 0
Stopped e = (e.cancelled ≡ true) ⊎ (e.timed_out ≡ true)

-- The machine stopped cleanly: the guest asked for it, or the emulator exited with 0.
abbrev pub Clean : QemuEvidence → Type 0
Clean e = (e.guest_shutdown ≡ true) ⊎ (e.exit_code ≡ some (pos 0))

-- A run counts as a triple fault exactly when the log shows one and the engine did not stop the run;
-- as a timeout when its deadline fired and nobody cancelled it; as a guest shutdown when it was
-- clean, without a fault and not stopped by the engine; and as killed when it was cancelled, or was
-- not clean with neither a fault nor a deadline.
pub reason_iff :
    (e : QemuEvidence)
    → ((reason e ≡ triple_fault) ↔ ((e.triple_fault ≡ true) × ¬ Stopped e))
      × ((reason e ≡ timeout) ↔ ((e.timed_out ≡ true) × (e.cancelled ≡ false)))
      × ((reason e ≡ guest_shutdown) ↔ ((e.triple_fault ≡ false) × ¬ Stopped e × Clean e))
      × ((reason e ≡ killed)
          ↔ ((e.cancelled ≡ true) ⊎ ((e.timed_out ≡ false) × (e.triple_fault ≡ false) × ¬ Clean e)))
unfolding reason
reason_iff e = (
  ground (arith, exited_zero_iff e.exit_code),
  ground (arith, exited_zero_iff e.exit_code),
  ground (arith, exited_zero_iff e.exit_code),
  ground (arith, exited_zero_iff e.exit_code),
)
