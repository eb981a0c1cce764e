-- ===== src/PageTable/Answers.antt =====
-- The answers that `Walker::walk` may give for an address whose translation is known, and that both
-- ways to a leaf give one of them.
use princess_ide.Prelude.{
  ℕ, ◌+◌, ◌%◌, ◌^◌, ◌<◌, ◌≡◌, refl, ◌∙◌, sym, ap, arith, Bool-cases, true, some, List, [], ◌∷◌,
  Result, ok, err, inl, inr, ==_iff, bit_and,
}
use princess_ide.Bits.{and_ones}
use princess_ide.GuestMem.{GuestMemory}
use princess_ide.PageTable.Entry.{
  Level, pdpt, pd, pt, decode, table_physical_address, PageTableEntry, huge_page_size,
  leaf_physical_address,
}
use princess_ide.PageTable.Walk.{
  WalkLevel, PageTableWalk, WalkError, table_not_in_ram, cycle, leaf_out_of_range,
  reserved_page_size_bit, Walker, small_leaf, huge_leaf, small_walk, huge_walk, expect, resolve,
  outside_ram, last_entry, physical_address,
}
use princess_ide.PageTable.Fields.{huge_frame, mask_1g, mask_2m, decode_raw, decode_page_size}
use princess_ide.PageTable.Translation.{page_bits, IsHuge, or_offset}

-- The answers that an address may get whose translation is `p`: `p` itself, or a guard's refusal
-- with the reason for it; the last is a `PTE` with bit 7 set. Of a cycle nothing more is said here.
abbrev pub Answers : GuestMemory → ℕ → Result WalkError PageTableWalk → Type 0
Answers guest p (ok r) = physical_address r ≡ p
Answers guest p (err (table_not_in_ram level table)) = outside_ram guest table ≡ true
Answers guest p (err (cycle table level)) = Unit {0}
Answers guest p (err (leaf_out_of_range x)) = (x ≡ p) × (outside_ram guest p ≡ true)
Answers guest p (err (reserved_page_size_bit level raw)) = (level ≡ pt) × IsHuge raw
Answers guest p (err _) = ⊥

pub resolve-Answers :
    (w : Walker) (r : PageTableWalk) (p : ℕ)
    → r.physical_base + r.page_offset ≡ p
    → p < 2 ^ 64
    → physical_address r ≡ p
    → Answers w.guest p (resolve w r)
unfolding resolve
resolve-Answers w r p sum small whole =
    elim (Bool-cases (outside_ram w.guest (r.physical_base + r.page_offset))) [
      | inl out ↦ ground arith
      | inr inside ↦ ground arith
    ]

-- The last recorded entry, which the end of the loop unwraps.
abbrev pub Ready : List Level → List WalkLevel → ℕ → Type 0
Ready [] levels table =
    (e : PageTableEntry) × (last_entry levels ≡ some e) × (e.address_bits ≡ table)
Ready (_ ∷ _) levels table = Unit {0}

pub small_leaf-Answers :
    (w : Walker) (address table p : ℕ) (levels : List WalkLevel)
    → Ready [] levels table
    → table % 4096 ≡ 0
    → table < 2 ^ 52
    → p ≡ table + address % 4096
    → Answers w.guest p (small_leaf w address levels)
unfolding small_leaf table_physical_address
small_leaf-Answers w address table p levels (e, last, same) aligned small at =
    let o = and_ones 12 address in
    let b : e.address_bits + bit_and address 0xFFF ≡ p = omega arith in
    rw (last, expect)
      (resolve-Answers w (small_walk w address e levels) p b (omega arith) (
        or_offset 12 table address (small_walk w address e levels) aligned same o (omega arith)
        ∙ sym at))

pub huge_flag : (raw : ℕ) → IsHuge raw → (decode raw).page_size ≡ true
huge_flag raw h = decode_page_size raw ∙ (==_iff _ 1).1 h

pub leaf_1g :
    (raw : ℕ) → IsHuge raw → leaf_physical_address (decode raw) pdpt ≡ some (huge_frame raw 30)
unfolding leaf_physical_address
leaf_1g raw h = ground (arith, huge_flag raw h, decode_raw raw, mask_1g raw)

pub leaf_2m :
    (raw : ℕ) → IsHuge raw → leaf_physical_address (decode raw) pd ≡ some (huge_frame raw 21)
unfolding leaf_physical_address
leaf_2m raw h = ground (arith, huge_flag raw h, decode_raw raw, mask_2m raw)

-- A page whose base has its `k` low bits clear and lies below 2 ^ 52.
pub huge_walk-Answers :
    (w : Walker) (address k base : ℕ) (entry : PageTableEntry) (levels : List WalkLevel)
    → base % 2 ^ k ≡ 0
    → address % 2 ^ k < 2 ^ k
    → base + address % 2 ^ k < 2 ^ 64
    → Answers w.guest
        (base + address % 2 ^ k)
        (resolve w (huge_walk w address (2 ^ k) base entry levels))
huge_walk-Answers w address k base entry levels aligned fits small =
    let r = huge_walk w address (2 ^ k) base entry levels in
    let o = and_ones k address in
    resolve-Answers w r (base + address % 2 ^ k) (ap (λ t. base + t) o) small
      (or_offset k base address r aligned refl o fits)

pub huge_leaf-Answers :
    (w : Walker) (address k raw p : ℕ) (level : Level) (levels : List WalkLevel)
    → page_bits level ≡ some k
    → IsHuge raw
    → p ≡ huge_frame raw k + address % 2 ^ k
    → Answers w.guest p (huge_leaf w address level (decode raw) levels)
unfolding huge_leaf huge_page_size
huge_leaf-Answers w address k raw p pdpt levels bits h at =
    let e : k ≡ 30 = cc in
    let at' : p ≡ huge_frame raw 30 + address % 2 ^ 30 = rw e at at in
    rw (leaf_1g raw h, expect, at')
      (huge_walk-Answers w address 30 (huge_frame raw 30) (decode raw) levels (omega arith)
        (omega arith) (omega arith))
huge_leaf-Answers w address k raw p pd levels bits h at =
    let e : k ≡ 21 = cc in
    let at' : p ≡ huge_frame raw 21 + address % 2 ^ 21 = rw e at at in
    rw (leaf_2m raw h, expect, at')
      (huge_walk-Answers w address 21 (huge_frame raw 21) (decode raw) levels (omega arith)
        (omega arith) (omega arith))
huge_leaf-Answers w address k raw p _ levels bits h at = cc
