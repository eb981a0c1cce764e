-- ===== src/Descriptor/Pairs.antt =====
-- `Gdt::read` keeps the two halves of a 16-byte descriptor together, and no other entries.
use princess_ide.Prelude.{
  bit_and, ◌%◌, ◌⊎◌, false, ℕ, ◌+◌, ◌/◌, ◌^◌, ◌<◌, ◌≡◌, sym, ap, ◌∙◌, arith, true, false, none,
  some, List, [], ◌∷◌,
}
use princess_ide.Bits.{◌>>◌, and_ones}
use princess_ide.Descriptor.Decode.{as_u8, type_of, from_bits, is_16_bytes}
use princess_ide.Descriptor.Gdt.{descriptor_type, GdtEntry, null, segment, system, high_half}

-- The system types of 16 bytes in long mode: LDT, TSS (available and busy) and call gate.
abbrev pub IsWide : ℕ → Type 0
IsWide raw =
    (raw / 2 ^ 40 % 16 ≡ 2)
    ⊎ (raw / 2 ^ 40 % 16 ≡ 9)
    ⊎ (raw / 2 ^ 40 % 16 ≡ 11)
    ⊎ (raw / 2 ^ 40 % 16 ≡ 12)

-- A high half follows each descriptor of 16 bytes, unless that stands in the last slot, and nothing
-- else; the descriptor has its word.
abbrev pub Paired : List GdtEntry → Type 0
Paired [] = Unit {0}
Paired (null o ∷ es) = Paired es
Paired (segment d ∷ es) = Paired es
Paired (high_half o r l ∷ es) = ⊥
Paired (system d ∷ []) = d.raw_high ≡ none
Paired (system d ∷ high_half o r l ∷ es) = IsWide d.raw_low × (d.raw_high ≡ some r) × Paired es
Paired (system d ∷ null o ∷ es) = (¬ IsWide d.raw_low) × (d.raw_high ≡ none) × Paired es
Paired (system d ∷ segment s ∷ es) = (¬ IsWide d.raw_low) × (d.raw_high ≡ none) × Paired es
Paired (system d ∷ system s ∷ es) =
    (¬ IsWide d.raw_low) × (d.raw_high ≡ none) × Paired (system s ∷ es)

type_bits : (raw : ℕ) → descriptor_type raw ≡ type_of (raw / 2 ^ 40 % 16)
unfolding from_bits
type_bits raw =
    let bits : bit_and (as_u8 (bit_and (raw >> 40) 0xF)) 0xF ≡ raw / 2 ^ 40 % 16 =
      omega (arith, and_ones 4 (raw / 2 ^ 40), and_ones 4 (as_u8 (bit_and (raw >> 40) 0xF))) in
    ap type_of bits

wide_type : (t : ℕ) → is_16_bytes (type_of t) ≡ true → (t ≡ 2) ⊎ (t ≡ 9) ⊎ (t ≡ 11) ⊎ (t ≡ 12)
unfolding is_16_bytes
wide_type t h = ground arith

narrow_type :
    (t : ℕ) → is_16_bytes (type_of t) ≡ false → ¬ ((t ≡ 2) ⊎ (t ≡ 9) ⊎ (t ≡ 11) ⊎ (t ≡ 12))
unfolding is_16_bytes
narrow_type t h wide = ground arith

pub is_16_bytes-IsWide : (raw : ℕ) → is_16_bytes (descriptor_type raw) ≡ true → IsWide raw
is_16_bytes-IsWide raw h = wide_type (raw / 2 ^ 40 % 16) (ap is_16_bytes (sym (type_bits raw)) ∙ h)

pub is_16_bytes-false : (raw : ℕ) → is_16_bytes (descriptor_type raw) ≡ false → ¬ IsWide raw
is_16_bytes-false raw h = narrow_type (raw / 2 ^ 40 % 16) (ap is_16_bytes (sym (type_bits raw)) ∙ h)

-- What a round says of an entry that it pushes alone, or with another.
abbrev pub Alone : ℕ → ℕ → GdtEntry → Type 0
Alone count i (null o) = Unit {0}
Alone count i (segment d) = Unit {0}
Alone count i (high_half o r l) = ⊥
Alone count i (system d) = (d.raw_high ≡ none) × (i + 1 < count → ¬ IsWide d.raw_low)

abbrev pub Together : GdtEntry → GdtEntry → Type 0
Together (system d) (high_half o r l) = (d.raw_high ≡ some r) × IsWide d.raw_low
Together _ _ = ⊥

pub Paired-one : (count i : ℕ) (e : GdtEntry) → Alone count i e → Paired (e ∷ [])
Paired-one count i (null o) a = tt
Paired-one count i (segment d) a = tt
Paired-one count i (system d) a = a.0
Paired-one count i (high_half o r l) a = absurd a

pub Paired-cons :
    (count i : ℕ) (e : GdtEntry) (es : List GdtEntry)
    → Alone count i e
    → i + 1 < count
    → Paired es
    → Paired (e ∷ es)
Paired-cons count i (null o) es a more p = p
Paired-cons count i (segment d) es a more p = p
Paired-cons count i (high_half o r l) es a more p = absurd a
Paired-cons count i (system d) [] a more p = a.0
Paired-cons count i (system d) (null o ∷ es) (a, b) more p = (b more, a, p)
Paired-cons count i (system d) (segment s ∷ es) (a, b) more p = (b more, a, p)
Paired-cons count i (system d) (system s ∷ es) (a, b) more p = (b more, a, p)
Paired-cons count i (system d) (high_half o r l ∷ es) a more p = absurd p

pub Paired-two :
    (e h : GdtEntry) (es : List GdtEntry) → Together e h → Paired es → Paired (e ∷ h ∷ es)
Paired-two (system d) (high_half o r l) es (a, b) p = (b, a, p)
Paired-two (system d) _ es a p = absurd (ground arith)
Paired-two _ _ es a p = absurd (ground arith)
