-- ===== src/Exit.antt =====
-- crates/princess-run/src/exit.rs and crates/princess-core/src/traits.rs: why a run of the emulator
-- ended. `QemuEvidence`, `ExitFacts` and `classify_exit`; an `i32` is an integer.
use princess_ide.Prelude.{
  ℕ, Bool, true, false, not, ◌&&◌, ◌||◌, Option, none, some, ◌≡◌, ◌↔◌, arith, ◌==◌, if◌then◌else◌,
}
pub mod Attribution
mod Tests

pub data ℤ : Type 0 where
  pos negsuc : ℕ → ℤ

pub data ExitReason : Type 0 where
  guest_shutdown triple_fault timeout killed : ExitReason

pub record ExitFacts : Type 0 where
  pub exit_code : Option ℤ
  pub signal : Option ℤ
  pub timed_out : Bool
  pub cancelled : Bool
  pub guest_powered_off : Bool
  pub triple_fault : Bool

-- `Some(0)`.
abbrev pub exited_zero : Option ℤ → Bool
exited_zero (some (pos n)) = n == 0
exited_zero _ = false

unfoldable pub classify_exit : ExitFacts → ExitReason
classify_exit facts =
    if facts.cancelled
    then killed
    else if facts.timed_out
    then timeout
    else if facts.triple_fault
    then triple_fault
    else if facts.guest_powered_off
    then guest_shutdown
    else if exited_zero facts.exit_code
    then guest_shutdown
    else killed

pub record QemuEvidence : Type 0 where
  pub exit_code : Option ℤ
  pub signal : Option ℤ
  pub timed_out : Bool
  pub cancelled : Bool
  pub triple_fault : Bool
  pub guest_shutdown : Bool

unfoldable pub into_facts : QemuEvidence → ExitFacts
into_facts e = record {
  exit_code = e.exit_code;
  signal = e.signal;
  timed_out = e.timed_out;
  cancelled = e.cancelled;
  guest_powered_off = e.guest_shutdown && not e.timed_out && not e.cancelled && not e.triple_fault;
  triple_fault = e.triple_fault;
}

unfoldable pub reason : QemuEvidence → ExitReason
unfolding into_facts classify_exit
reason e = classify_exit (into_facts e)
