-- ===== src/Serial/Tests.antt =====
-- The tail of the paging fixture's serial log.
use princess_ide.Prelude.{ℕ, ◌≡◌, refl, none, some, List, [], ◌∷◌}
use princess_ide.Str.{codes, contains, trim, starts_with}
use princess_ide.Serial.Parse.{parse_hex_u64, parse_vector, parse_fault}
use princess_ide.Serial.Observer.{
  paging_confirmed, new_observer, feed, complete, gate_for, fault_rip_in_log,
}
use princess_ide.Serial.Verdict.{feed_all}
use princess_ide.Serial.Gate.{Sound, feed_all-Sound}

abbrev fault_line : List ℕ
fault_line = codes "FAULT_RIP=0x1011dd cs=0x0008"

abbrev tail : List (List ℕ)
tail =
    codes "PrincessIDE paging"
    ∷ codes "CR0.PG=1"
    ∷ codes "EXCEPTION: vector=0x0e (#PF page"
    ∷ fault_line
    ∷ codes "FAULT_ERROR=0x2"
    ∷ codes "PANIC: halting"
    ∷ []

-- The page fault is confirmed, and the error code of the line after it is not in the fault.
tail_verdict :
    ((feed_all new_observer tail).0.page_fault_gate ≡ some paging_confirmed)
    × ((feed_all new_observer tail).0.fault
        ≡ some (record {
          vector_number = some 14;
          vector = codes "#PF";
          rip = 1053149;
          rip_text = codes "0x1011dd";
          error_code = 0;
          cs = some (codes "0x0008");
          rflags = none;
        }))
unfolding feed contains parse_fault parse_vector starts_with trim complete gate_for
tail_verdict = (refl, refl)

feed_all-Sound_example : Sound tail (feed_all new_observer tail).0
unfolding contains
feed_all-Sound_example = feed_all-Sound tail (refl, (refl, (refl, (refl, (refl, (refl, tt))))))

fault_in_log : fault_rip_in_log (codes "boot\r\nFAULT_RIP=0x1f,\nPANIC:") ≡ some 31
unfolding fault_rip_in_log
fault_in_log = refl

-- A token that is too large, or no number, is not a number.
no_number :
    (parse_hex_u64 (codes "0x10000000000000000") ≡ none) × (parse_hex_u64 (codes "0x") ≡ none)
unfolding parse_hex_u64
no_number = (refl, refl)
