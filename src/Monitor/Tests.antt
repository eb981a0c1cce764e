-- ===== src/Monitor/Tests.antt =====
-- Runs of the monitor's parsers on the recorded replies' shapes, and instances of the theorems.
use princess_ide.Prelude.{
  ℕ, ◌≡◌, ◌↔◌, refl, arith, true, false, some, List, [], ◌∷◌, ◌++◌, map, ok, err, ltb,
}
use princess_ide.Str.{
  codes, is_whitespace, trim, strip_prefix, split_once, split_whitespace, starts_with,
}
use princess_ide.GuestMem.{GuestMemory, not_in_ram}
use princess_ide.PageTable.FromRegisters.{walk_from_registers, start_walk}
use princess_ide.Serial.Parse.{is_empty, from_hex}
use princess_ide.Framing.{parse_usize, from_decimal}
use princess_ide.Monitor.Lines.{
  ParseError, parsed, failed, panic, panicked, split_inclusive, over_text, over_lines, number_lines,
  lines_with_offsets, no_colon,
}
use princess_ide.Monitor.Tables.{
  TlbFlags, InfoTlbEntry, InfoMemRange, parse_info_tlb, parse_info_mem, parse_info_cpus, tlb_line,
  tlb_row, strip_suffix, is_hex, parse_hex_u64, decode_tlb_flags, flag_bits, cpu_line, cpu_row,
}
use princess_ide.Monitor.Registers.{
  RegistersReport, empty_report, registers_line, parse_info_registers, parse_register_pairs,
  table_line, body_line, parse_segment_line, segment_name, two_letters, split_at_two,
}
use princess_ide.Monitor.Granularity.{
  page4k, huge2m, huge1g, resolve_granularities, but_last, stride, resolve_granularities-Contiguous,
}
use princess_ide.Monitor.Blame.{Blamed, joined, over_text-Blamed}
use princess_ide.Monitor.Printed.{printed}
use princess_ide.Monitor.TlbRows.{tlb_text, parse_info_tlb-printed}
use princess_ide.Monitor.MemRows.{mem_text, parse_info_mem-printed}
use princess_ide.Monitor.Pairs.{tight, before_equals, around_equals, parse_register_pairs-fields}
use princess_ide.Monitor.Boundary.{HasBoundary, registers_line-panicked_iff}
use princess_ide.Monitor.Control.{control_text}
use princess_ide.Monitor.Walking.{walk_from_registers-printed}

abbrev no_flags_set : TlbFlags
no_flags_set = record {
  nx = false;
  global = false;
  ps = false;
  dirty = false;
  accessed = false;
  pcd = false;
  pwt = false;
  user = false;
  writable = false;
}

abbrev small : InfoTlbEntry
small = record {
  virtual_address = 0x1ff000;
  physical_address = 0x1ff000;
  flags = record no_flags_set { writable = true };
}

abbrev huge : InfoTlbEntry
huge = record {
  virtual_address = 0x200000;
  physical_address = 0x200000;
  flags = record no_flags_set { ps = true; writable = true };
}

parse_info_tlb-printed_example :
    parse_info_tlb (printed true (map tlb_text (small ∷ huge ∷ []))) ≡ parsed (small ∷ huge ∷ [])
parse_info_tlb-printed_example =
    parse_info_tlb-printed true (small ∷ huge ∷ [])
      ((omega arith, omega arith), ((omega arith, omega arith), tt))

abbrev range : InfoMemRange
range = record {
  start = 0;
  end = 0x1ff000;
  size = 0x1ff000;
  user = false;
  readable = true;
  writable = true;
}

parse_info_mem-printed_example :
    parse_info_mem (printed false (map mem_text (range ∷ []))) ≡ parsed (range ∷ [])
parse_info_mem-printed_example =
    parse_info_mem-printed false (range ∷ []) ((omega arith, omega arith, omega arith), tt)

resolve_granularities-Contiguous_example :
    resolve_granularities (small ∷ huge ∷ []) ≡ but_last (page4k ∷ huge1g ∷ [])
resolve_granularities-Contiguous_example =
    resolve_granularities-Contiguous (small ∷ huge ∷ []) (page4k ∷ huge1g ∷ [])
      (page4k, huge1g ∷ [], refl, refl, refl, (huge1g, refl, refl))

-- A huge page of 2 MiB in front of a gap is taken for one of 1 GiB.
abbrev far : InfoTlbEntry
far = record huge { virtual_address = 0x80000000 }

huge-before_gap : resolve_granularities (huge ∷ far ∷ []) ≡ huge1g ∷ huge2m ∷ []
unfolding resolve_granularities stride
huge-before_gap = refl

parse_register_pairs-fields_example :
    parse_register_pairs (codes "RAX=00 R8 =01 R9 = 02")
    ≡ some ((codes "RAX", codes "00") ∷ (codes "R8", codes "01") ∷ (codes "R9", codes "02") ∷ [])
unfolding is_hex
parse_register_pairs-fields_example =
    parse_register_pairs-fields
      (record { name = codes "RAX"; value = codes "00"; padding = tight }
        ∷ record { name = codes "R8"; value = codes "01"; padding = before_equals }
        ∷ record { name = codes "R9"; value = codes "02"; padding = around_equals }
        ∷ [])
      ((refl, refl), ((refl, refl), ((refl, refl), tt)))

registers_line-panicked_iff_example :
    (registers_line empty_report (codes " x ") ≡ panicked)
    ↔ ((is_empty (trim (codes " x ")) ≡ false) × (HasBoundary (trim (codes " x ")) → ⊥))
registers_line-panicked_iff_example = registers_line-panicked_iff empty_report (codes " x ")

-- A line of one character.
one_byte-panics : parse_info_registers (codes "x") ≡ panic
unfolding parse_info_registers over_text over_lines lines_with_offsets number_lines split_inclusive
    registers_line trim is_whitespace strip_prefix table_line body_line parse_segment_line
    segment_name two_letters split_at_two
one_byte-panics = refl

-- The second line lacks its colon: line 2, which begins at byte 15.
abbrev two_lines : List ℕ
two_lines = codes "0: 0 ---------\n0 0 ---------\n"

abbrev second_line : ParseError
second_line = record {
  context = codes "info tlb";
  line = 2;
  byte_offset = 15;
  text = codes "0 0 ---------";
  reason = no_colon (codes "0");
}

two_lines-failed : over_text tlb_line (codes "info tlb") [] two_lines ≡ failed second_line
unfolding over_text over_lines lines_with_offsets number_lines split_inclusive tlb_line tlb_row
    strip_suffix parse_hex_u64 is_hex from_hex decode_tlb_flags flag_bits trim is_whitespace
    split_whitespace
two_lines-failed = refl

over_text-Blamed_example :
    (b : Blamed tlb_line (codes "info tlb") [] 0 0 (split_inclusive two_lines) second_line)
    × (two_lines ≡ joined b.before ++ (b.piece ++ joined b.after))
over_text-Blamed_example =
    over_text-Blamed tlb_line (codes "info tlb") [] two_lines second_line two_lines-failed

abbrev guest : GuestMemory
guest = record {
  read_u64 = λ a. ok 0;
  read_bytes = λ a n. err (not_in_ram a);
  ram_size = some 0x1000000;
  is_ram = λ a. ltb a 0x1000000;
}

walk_from_registers-printed_example :
    (report : RegistersReport) × (parse_info_registers
        (control_text true 0x80000011 0 0x104000 0x20 0x500)
      ≡ parsed report)
    × (walk_from_registers guest report 0x1234
        ≡ start_walk guest 0x80000011 0x104000 0x20 0x500 0x1234)
walk_from_registers-printed_example =
    walk_from_registers-printed guest true 0x80000011 0 0x104000 0x20 0x500 0x1234 (omega arith)
      (omega arith) (omega arith) (omega arith)

cpus :
    parse_info_cpus (codes "* CPU #0: thread_id=333695\r\n")
    ≡ parsed (record { index = 0; thread_id = 333695; current = true } ∷ [])
unfolding parse_info_cpus over_text over_lines lines_with_offsets number_lines split_inclusive
    cpu_line cpu_row trim is_whitespace strip_prefix split_once starts_with parse_usize from_decimal
cpus = refl
