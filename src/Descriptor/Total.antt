-- ===== src/Descriptor/Total.antt =====
-- `Gdt::read` reads a whole table that is there.
use princess_ide.Prelude.{
  ℕ, zero, suc, ◌+◌, ◌*◌, ◌<◌, ◌≡◌, refl, ap, arith, List, [], ◌∷◌, ◌++◌, ltb, ok, err,
  Result-cases, Bool-cases, inl, inr,
}
use princess_ide.GuestMem.{GuestMemory}
use princess_ide.Descriptor.Gdt.{
  DescriptorError, GdtEntry, Gdt, slots_in, one, two, pushed, round, read_from, read,
}
use princess_ide.Descriptor.Slots.{next_slot}

-- Every slot of the table can be read.
abbrev pub Readable : GuestMemory → ℕ → ℕ → Type 0
Readable guest base count = (i : ℕ) → i < count → (v : ℕ) × (guest.read_u64 (base + i * 8) ≡ ok v)

round-ne-err :
    (guest : GuestMemory) (base count i : ℕ) (f : DescriptorError)
    → Readable guest base count
    → i < count
    → ¬ (round guest base count i ≡ err f)
unfolding round
round-ne-err guest base count i f reads h e =
    let (v, low) = reads i h in
    elim (Bool-cases (ltb (i + 1) count)) [
      | inl more ↦
          let (w, high) = reads (i + 1) (ground arith) in
          ground (arith, ap guest.read_u64 (next_slot base i))
      | inr last ↦ ground arith
    ]

read_from_total :
    (guest : GuestMemory) (base count left i : ℕ) (entries : List GdtEntry)
    → Readable guest base count
    → i + left ≡ count
    → (out : List GdtEntry) × (read_from guest base count left i entries ≡ ok out)
unfolding read_from
read_from_total guest base count zero i entries reads e = (entries, refl)
read_from_total guest base count (suc zero) i entries reads e =
    elim (Result-cases (round guest base count i)) [
      | inl (r, eq) ↦ (entries ++ pushed r, rw eq)
      | inr (f, eq) ↦ absurd (round-ne-err guest base count i f reads (omega arith) eq)
    ]
read_from_total guest base count (suc (suc left)) i entries reads e =
    elim (Result-cases (round guest base count i)) [
      | inl (one x, eq) ↦
          let (out, rest) =
            read_from_total guest base count (suc left) (i + 1) (entries ++ x ∷ []) reads
              (omega arith) in
          (out, rw eq rest)
      | inl (two x y, eq) ↦
          let (out, rest) =
            read_from_total guest base count left (i + 2) (entries ++ x ∷ y ∷ []) reads
              (omega arith) in
          (out, rw eq rest)
      | inr (f, eq) ↦ absurd (round-ne-err guest base count i f reads (omega arith) eq)
    ]

-- Where every slot can be read, reading the table succeeds.
pub read_total :
    (guest : GuestMemory) (base limit : ℕ)
    → Readable guest base (slots_in limit)
    → (gdt : Gdt) × (read guest base limit ≡ ok gdt)
unfolding read
read_total guest base limit reads =
    let (out, e) =
      read_from_total guest base (slots_in limit) (slots_in limit) 0 [] reads (omega arith) in
    (record { base = base; limit = limit; entries = out }, rw e)
