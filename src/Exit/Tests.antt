-- ===== src/Exit/Tests.antt =====
-- A run in which a triple fault made the emulator exit with 0, as `-no-reboot` does.
use princess_ide.Prelude.{some, none, true, false, ◌≡◌, ◌↔◌, ◌⊎◌, refl}
use princess_ide.Exit.{pos, guest_shutdown, timeout, triple_fault, killed, QemuEvidence, reason}
use princess_ide.Exit.Attribution.{Stopped, Clean, reason_iff}

abbrev faulted : QemuEvidence
faulted = record {
  exit_code = some (pos 0);
  signal = none;
  timed_out = false;
  cancelled = false;
  triple_fault = true;
  guest_shutdown = false;
}

reason-faulted : reason faulted ≡ triple_fault
unfolding reason
reason-faulted = refl

reason_iff_example :
    ((reason faulted ≡ triple_fault) ↔ ((faulted.triple_fault ≡ true) × ¬ Stopped faulted))
    × ((reason faulted ≡ timeout) ↔ ((faulted.timed_out ≡ true) × (faulted.cancelled ≡ false)))
    × ((reason faulted ≡ guest_shutdown)
        ↔ ((faulted.triple_fault ≡ false) × ¬ Stopped faulted × Clean faulted))
    × ((reason faulted ≡ killed) ↔ (
        (faulted.cancelled ≡ true)
        ⊎ ((faulted.timed_out ≡ false) × (faulted.triple_fault ≡ false) × ¬ Clean faulted)))
reason_iff_example = reason_iff faulted
