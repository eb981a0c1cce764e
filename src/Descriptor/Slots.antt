-- ===== src/Descriptor/Slots.antt =====
-- `Gdt::read` keeps one entry for each slot, in order, so that selectors stay honest.
use mathlib.Core.Path.{subst}
use mathlib.Core.List.{append-nil, append_assoc}
use princess_ide.Prelude.{
  false, ℕ, zero, suc, ◌+◌, ◌*◌, ◌/◌, ◌-◌, ◌^◌, ◌<◌, ◌≤◌, ◌≡◌, refl, sym, ap, ◌∙◌, arith, true,
  false, Option, none, some, List, [], ◌∷◌, ◌++◌, length, get_elem?, find, ◌==◌, ok, Result-cases,
  inl, inr,
}
use princess_ide.Bits.{and_field, test_bits}
use princess_ide.GuestMem.{GuestMemory}
use princess_ide.Descriptor.Decode.{decode_segment, decode_system, bit_s, as_u16}
use princess_ide.Descriptor.Gdt.{
  GdtEntry, null, segment, system, high_half, entry_offset, Gdt, slots_in, slot_count,
  entry_for_selector, Pushed, one, two, round, read_from, read,
}
use princess_ide.Descriptor.Pairs.{
  Paired, Alone, Together, is_16_bytes-IsWide, is_16_bytes-false, Paired-one, Paired-cons,
  Paired-two,
}

-- The entry of slot `i`: what it was decoded from, and where it says it stands.
abbrev pub SlotOf : GuestMemory → ℕ → ℕ → GdtEntry → Type 0
SlotOf guest base i (null offset) =
    (offset ≡ as_u16 (i * 8)) × (i ≡ 0) × (guest.read_u64 (base + i * 8) ≡ ok 0)
SlotOf guest base i (segment d) =
    (guest.read_u64 (base + i * 8) ≡ ok d.raw)
    × (test_bits d.raw bit_s ≡ true)
    × (d ≡ decode_segment (as_u16 (i * 8)) d.raw)
SlotOf guest base i (system d) =
    (guest.read_u64 (base + i * 8) ≡ ok d.raw_low)
    × (test_bits d.raw_low bit_s ≡ false)
    × ¬ ((i ≡ 0) × (d.raw_low ≡ 0))
    × (d ≡ decode_system (as_u16 (i * 8)) d.raw_low d.raw_high)
SlotOf guest base i (high_half offset raw low) =
    (guest.read_u64 (base + i * 8) ≡ ok raw)
    × (offset ≡ as_u16 (i * 8))
    × (low ≡ as_u16 (i * 8 - 8))

abbrev pub Slots : GuestMemory → ℕ → ℕ → List GdtEntry → Type 0
Slots guest base i [] = Unit {0}
Slots guest base i (e ∷ es) = SlotOf guest base i e × Slots guest base (i + 1) es

-- What a round pushed stands for the slots that it took.
abbrev SlotsOf : GuestMemory → ℕ → ℕ → ℕ → Pushed → Type 0
SlotsOf guest base count i (one e) = SlotOf guest base i e × Alone count i e
SlotsOf guest base count i (two e h) =
    SlotOf guest base i e × SlotOf guest base (i + 1) h × (i + 1 < count) × Together e h

decode_segment_raw : (o raw : ℕ) → (decode_segment o raw).raw ≡ raw
unfolding decode_segment
decode_segment_raw o raw = refl

system_raws :
    (o raw : ℕ) (high : Option ℕ)
    → ((decode_system o raw high).raw_low ≡ raw) × ((decode_system o raw high).raw_high ≡ high)
unfolding decode_system
system_raws o raw high = (refl, refl)

pub next_slot : (base i : ℕ) → base + i * 8 + 8 ≡ base + (i + 1) * 8
next_slot base i = omega arith

round-SlotsOf :
    (guest : GuestMemory) (base count i : ℕ) (r : Pushed)
    → round guest base count i ≡ ok r
    → SlotsOf guest base count i r
unfolding round
round-SlotsOf guest base count i (one (null o)) h = ground arith
round-SlotsOf guest base count i (one (segment d)) h =
    elim (Result-cases (guest.read_u64 (base + i * 8))) [
      | inl (raw, e) ↦ ground (arith, decode_segment_raw (as_u16 (i * 8)) raw)
      | inr (f, e) ↦ absurd (ground arith)
    ]
round-SlotsOf guest base count i (one (system d)) h =
    elim (Result-cases (guest.read_u64 (base + i * 8))) [
      | inl (raw, e) ↦ ground (arith, system_raws (as_u16 (i * 8)) raw none, is_16_bytes-false raw)
      | inr (f, e) ↦ absurd (ground arith)
    ]
round-SlotsOf guest base count i (one (high_half o r l)) h = absurd (ground arith)
round-SlotsOf guest base count i (two (system d) (high_half o r l)) h =
    elim (Result-cases (guest.read_u64 (base + i * 8))) [
      | inl (raw, e) ↦ ground (
        arith,
        system_raws (as_u16 (i * 8)) raw (some r),
        ap guest.read_u64 (next_slot base i),
        is_16_bytes-IsWide raw,
      )
      | inr (f, e) ↦ absurd (ground arith)
    ]
round-SlotsOf guest base count i (two (system d) _) h = absurd (ground arith)
round-SlotsOf guest base count i (two _ _) h = absurd (ground arith)

-- The entries that the loop adds are those of the slots that were left.
record Adds (guest : GuestMemory) (base left index : ℕ) (entries out : List GdtEntry) : Type 0 where
  pub new : List GdtEntry
  pub appended : out ≡ entries ++ new
  pub are_slots : Slots guest base index new
  pub paired : Paired new
  pub as_many : length new ≡ left

two_on : (i : ℕ) → i + 2 ≡ i + 1 + 1
two_on i = omega arith

read_from-Adds :
    (guest : GuestMemory) (base count left index : ℕ) (entries out : List GdtEntry)
    → index + left ≡ count
    → read_from guest base count left index entries ≡ ok out
    → Adds guest base left index entries out
unfolding read_from
read_from-Adds guest base count zero index entries out e h = record {
  new = [];
  appended = ground (arith, append-nil entries);
  are_slots = tt;
  paired = tt;
  as_many = refl;
}
read_from-Adds guest base count (suc zero) index entries out e h =
    elim (Result-cases (round guest base count index)) [
      | inl (one x, r) ↦ record {
        new = x ∷ [];
        appended = ground arith;
        are_slots = ((round-SlotsOf guest base count index (one x) r).0, tt);
        paired = Paired-one count index x (round-SlotsOf guest base count index (one x) r).1;
        as_many = refl;
      }
      | inl (two x y, r) ↦
          absurd (omega (arith, (round-SlotsOf guest base count index (two x y) r).2))
      | inr (f, r) ↦ absurd (ground arith)
    ]
read_from-Adds guest base count (suc (suc left)) index entries out e h =
    elim (Result-cases (round guest base count index)) [
      | inl (one x, r) ↦
          let rest =
            read_from-Adds guest base count (suc left) (index + 1) (entries ++ x ∷ []) out
              (omega arith) (rw r at h) in
          let (here, alone) = round-SlotsOf guest base count index (one x) r in
          record {
            new = x ∷ rest.new;
            appended = rest.appended ∙ append_assoc entries (x ∷ []) rest.new;
            are_slots = (here, rest.are_slots);
            paired = Paired-cons count index x rest.new alone (omega arith) rest.paired;
            as_many = ap suc rest.as_many;
          }
      | inl (two x y, r) ↦
          let rest =
            read_from-Adds guest base count left (index + 2) (entries ++ x ∷ y ∷ []) out
              (omega arith) (rw r at h) in
          let (sx, sy, more, both) = round-SlotsOf guest base count index (two x y) r in
          record {
            new = x ∷ y ∷ rest.new;
            appended = rest.appended ∙ append_assoc entries (x ∷ y ∷ []) rest.new;
            are_slots =
                (sx, (sy, subst (λ i. Slots guest base i rest.new) (two_on index) rest.are_slots));
            paired = Paired-two x y rest.new both rest.paired;
            as_many = ap (λ n. suc (suc n)) rest.as_many;
          }
      | inr (f, r) ↦ absurd (ground arith)
    ]

-- A table that was read has exactly one entry for each slot of its limit, in order, each decoded
-- from the word of its own slot and carrying that slot's offset. A word of 0 is a null entry in the
-- first slot. A high half stands exactly behind a descriptor of a 16-byte type that is not in the last
-- slot; it names the slot before it, and that descriptor has its word.
pub read-Slots :
    (guest : GuestMemory) (base limit : ℕ) (gdt : Gdt)
    → read guest base limit ≡ ok gdt
    → (length gdt.entries ≡ slot_count gdt)
      × Slots guest base 0 gdt.entries
      × Paired gdt.entries
      × (gdt.base ≡ base)
      × (gdt.limit ≡ limit)
unfolding read slot_count
read-Slots guest base limit gdt h =
    elim (Result-cases (read_from guest base (slots_in limit) (slots_in limit) 0 [])) [
      | inl (out, r) ↦
          let a =
            read_from-Adds guest base (slots_in limit) (slots_in limit) 0 [] out (omega arith) r in
          let e : gdt.entries ≡ a.new = ground (arith, a.appended) in
          (
            ground (arith, ap length e, a.as_many),
            subst (λ es. Slots guest base 0 es) (sym e) a.are_slots,
            subst Paired (sym e) a.paired,
            ground arith,
            ground arith,
          )
      | inr (f, r) ↦ absurd (ground arith)
    ]

SlotOf-offset :
    (guest : GuestMemory) (base i : ℕ) (e : GdtEntry)
    → SlotOf guest base i e
    → entry_offset e ≡ as_u16 (i * 8)
unfolding decode_segment decode_system
SlotOf-offset guest base i (null o) s = s.0
SlotOf-offset guest base i (segment d) s = ap (λ x. x.offset) s.2
SlotOf-offset guest base i (system d) s = ap (λ x. x.offset) s.3
SlotOf-offset guest base i (high_half o r l) s = s.1

find-Slots :
    (guest : GuestMemory) (base i j o : ℕ) (es : List GdtEntry)
    → Slots guest base i es
    → i + length es ≤ 8192
    → o ≡ (i + j) * 8
    → find (λ e. entry_offset e == o) es ≡ get_elem? es j
find-Slots guest base i j o [] s fits at = refl
find-Slots guest base i zero o (e ∷ es) (here, s) fits at =
    ground (arith, SlotOf-offset guest base i e here)
find-Slots guest base i (suc j) o (e ∷ es) (here, s) fits at = ground (
  arith,
  SlotOf-offset guest base i e here,
  find-Slots guest base (i + 1) j o es s (omega arith) (omega arith),
)

-- In a table with a 16-bit limit, as `lgdt` loads it, a selector names the entry of its own slot,
-- whatever its privilege bits; a selector beyond the table names none.
pub entry_for_selector-read :
    (guest : GuestMemory) (base limit sel : ℕ) (gdt : Gdt)
    → limit < 2 ^ 16
    → sel < 2 ^ 16
    → read guest base limit ≡ ok gdt
    → entry_for_selector gdt sel ≡ get_elem? gdt.entries (sel / 8)
unfolding entry_for_selector slot_count
entry_for_selector-read guest base limit sel gdt small word h =
    let (len, slots, pairs, at, same) = read-Slots guest base limit gdt h in
    find-Slots guest base 0 (sel / 8) _ gdt.entries slots (omega (arith, len, same))
      (omega (arith, and_field 3 13 sel))
