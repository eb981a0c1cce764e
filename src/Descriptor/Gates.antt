-- ===== src/Descriptor/Gates.antt =====
-- What `Idt::read` and `Tss64::read` take from memory.
use princess_ide.Prelude.{
  ℕ, zero, suc, ◌+◌, ◌*◌, ◌/◌, ◌%◌, ◌^◌, ◌<◌, ◌≤◌, ◌≡◌, refl, ap, ◌∙◌, arith, bit_and, bit_or, true,
  false, not, ◌&&◌, List, [], ◌∷◌, length, get_or, get_elem?, take, find, contains, All, ◌==◌, ok,
  Result-cases, Bool-cases, inl, inr,
}
use princess_ide.Bits.{and_ones, or_fields, ◌>>◌, ◌<<◌}
use princess_ide.GuestMem.{GuestMemory}
use princess_ide.GuestMem.Words.{le_value, IsByte}
use princess_ide.Descriptor.Idt.{
  IdtGate, Idt, gate_of, gate_kind, gates_in, gate_count, all_zero, is_uninstalled, handler_of,
  read_gate, read_gates, read_idt, gate_for, vectors_where, user_accessible_vectors,
  installed_vectors,
}

-- The gate of an index: the 16 bytes at its place, taken apart.
pub record GateAt (guest : GuestMemory) (base i : ℕ) (g : IdtGate) : Type 0 where
  pub was_read : guest.read_bytes (base + i * 16) 16 ≡ ok g.raw
  pub bytes : length g.raw ≡ 16
  pub typed : gate_kind g.raw ≡ ok g.kind
  pub decoded : g ≡ gate_of i g.raw g.kind

abbrev pub Gates : GuestMemory → ℕ → ℕ → List IdtGate → Type 0
Gates guest base i [] = Unit {0}
Gates guest base i (g ∷ gs) = GateAt guest base i g × Gates guest base (i + 1) gs

read_gate-GateAt :
    (guest : GuestMemory) (base i : ℕ) (g : IdtGate)
    → read_gate guest base i ≡ ok g
    → GateAt guest base i g
unfolding read_gate
read_gate-GateAt guest base i g h = elim (Result-cases (guest.read_bytes (base + i * 16) 16)) [
  | inl (raw, e) ↦ elim (Result-cases (gate_kind raw)) [
    | inl (kind, k) ↦ record {
      was_read = ground arith;
      bytes = ground arith;
      typed = ground arith;
      decoded = ground arith;
    }
    | inr (f, k) ↦ absurd (ground arith)
  ]
  | inr (f, e) ↦ absurd (ground arith)
]

uncons :
    (guest : GuestMemory) (base left i : ℕ) (g : IdtGate) (gs : List IdtGate)
    → read_gates guest base (suc left) i ≡ ok (g ∷ gs)
    → (read_gate guest base i ≡ ok g) × (read_gates guest base left (i + 1) ≡ ok gs)
unfolding read_gates
uncons guest base left i g gs h = ground arith

taken :
    (guest : GuestMemory) (base limit : ℕ) (idt : Idt)
    → read_idt guest base limit ≡ ok idt
    → (read_gates guest base (gates_in limit) 0 ≡ ok idt.gates)
      × (idt.base ≡ base)
      × (idt.limit ≡ limit)
unfolding read_idt
taken guest base limit idt h = ground arith

read_gates-Gates :
    (guest : GuestMemory) (base left i : ℕ) (gs : List IdtGate)
    → read_gates guest base left i ≡ ok gs
    → Gates guest base i gs × (length gs ≡ left)
unfolding read_gates
read_gates-Gates guest base zero i [] h = (tt, refl)
read_gates-Gates guest base zero i (g ∷ gs) h = absurd (ground arith)
read_gates-Gates guest base (suc left) i [] h = absurd (ground arith)
read_gates-Gates guest base (suc left) i (g ∷ gs) h =
    let (here, rest) = uncons guest base left i g gs h in
    let (more, len) = read_gates-Gates guest base left (i + 1) gs rest in
    ((read_gate-GateAt guest base i g here, more), ap suc len)

-- A table that was read has one gate for each 16 bytes of its limit, in order, each taken apart
-- from the 16 bytes of its own place, with a type that the decoder accepts.
pub read_idt-Gates :
    (guest : GuestMemory) (base limit : ℕ) (idt : Idt)
    → read_idt guest base limit ≡ ok idt
    → (length idt.gates ≡ gate_count idt)
      × Gates guest base 0 idt.gates
      × (idt.base ≡ base)
      × (idt.limit ≡ limit)
unfolding read_idt gate_count
read_idt-Gates guest base limit idt h =
    let (e, at, same) = taken guest base limit idt h in
    let (gates, len) = read_gates-Gates guest base (gates_in limit) 0 idt.gates e in
    (omega (arith, len, same), gates, at, same)

-- Two words of a gate, cut into the fields that the handler's address is put together from.
joined :
    (low high : ℕ)
    → bit_or
        (bit_or (bit_and low 0xFFFF) (bit_and (low >> 48) 0xFFFF << 16))
        (bit_and high 0xFFFF_FFFF << 32)
      ≡ low % 2 ^ 16 + low / 2 ^ 48 % 2 ^ 16 * 2 ^ 16 + high % 2 ^ 32 * 2 ^ 32
joined low high =
    let a = and_ones 16 low in
    let b = and_ones 16 (low / 2 ^ 48) in
    let c = and_ones 32 high in
    let d = or_fields 16 (low % 2 ^ 16) (low / 2 ^ 48 % 2 ^ 16) (omega arith) in
    let e =
      or_fields 32 (low % 2 ^ 16 + low / 2 ^ 48 % 2 ^ 16 * 2 ^ 16) (high % 2 ^ 32) (omega arith) in
    ground (arith, a, b, c, d, e)

-- The fields of two words that are given by their bytes.
fields_of_bytes :
    (a b c d e f g h : ℕ)
    → All IsByte (a ∷ b ∷ c ∷ d ∷ e ∷ f ∷ g ∷ h ∷ [])
    → (le_value (a ∷ b ∷ c ∷ d ∷ e ∷ f ∷ g ∷ h ∷ []) % 2 ^ 16 ≡ a + 256 * b)
      × (le_value (a ∷ b ∷ c ∷ d ∷ e ∷ f ∷ g ∷ h ∷ []) / 2 ^ 48 % 2 ^ 16 ≡ g + 256 * h)
fields_of_bytes a b c d e f g h (ba, (bb, (bc, (bd, (be, (bf, (bg, (bh, _)))))))) =
    (omega arith, omega arith)

low_half_of_bytes :
    (i j k l n : ℕ)
    → All IsByte (i ∷ j ∷ k ∷ l ∷ [])
    → (i + 256 * (j + 256 * (k + 256 * (l + 256 * n)))) % 2 ^ 32 ≡ le_value (i ∷ j ∷ k ∷ l ∷ [])
low_half_of_bytes i j k l n (bi, (bj, (bk, (bl, _)))) = omega arith

-- The handler of a gate: its address stands in bytes 0 and 1, 6 and 7, and 8 to 11.
pub handler_of_bytes :
    (a b c d e f g h i j k l : ℕ) (rest : List ℕ)
    → All IsByte (a ∷ b ∷ c ∷ d ∷ e ∷ f ∷ g ∷ h ∷ [])
    → All IsByte (i ∷ j ∷ k ∷ l ∷ [])
    → handler_of (a ∷ b ∷ c ∷ d ∷ e ∷ f ∷ g ∷ h ∷ i ∷ j ∷ k ∷ l ∷ rest)
      ≡ le_value (a ∷ b ∷ g ∷ h ∷ i ∷ j ∷ k ∷ l ∷ [])
unfolding handler_of
handler_of_bytes a b c d e f g h i j k l rest first second =
    let (low, mid) = fields_of_bytes a b c d e f g h first in
    let high = low_half_of_bytes i j k l (le_value (take 4 rest)) second in
    joined (le_value (a ∷ b ∷ c ∷ d ∷ e ∷ f ∷ g ∷ h ∷ []))
      (le_value (take 8 (i ∷ j ∷ k ∷ l ∷ rest)))
    ∙ omega (arith, low, mid, high)

find-Gates :
    (guest : GuestMemory) (base i j v : ℕ) (gs : List IdtGate)
    → Gates guest base i gs
    → i + length gs ≤ 256
    → v ≡ i + j
    → find (λ g. g.vector == v) gs ≡ get_elem? gs j
find-Gates guest base i j v [] s fits at = refl
find-Gates guest base i zero v (g ∷ gs) (here, s) fits at =
    ground (arith, ap (λ x. x.vector) here.decoded)
find-Gates guest base i (suc j) v (g ∷ gs) (here, s) fits at = ground (
  arith,
  ap (λ x. x.vector) here.decoded,
  find-Gates guest base (i + 1) j v gs s (omega arith) (omega arith),
)

-- In a table of at most 256 gates a vector names the gate of its own place, or none beyond the
-- table.
pub gate_for-read_idt :
    (guest : GuestMemory) (base limit v : ℕ) (idt : Idt)
    → limit < 4096
    → read_idt guest base limit ≡ ok idt
    → gate_for idt v ≡ get_elem? idt.gates v
unfolding gate_for gate_count
gate_for-read_idt guest base limit v idt small h =
    let (len, gates, at, same) = read_idt-Gates guest base limit idt h in
    find-Gates guest base 0 v v idt.gates gates (omega (arith, len, same)) (omega arith)

all_zero-get_or : (bs : List ℕ) (i : ℕ) → all_zero bs ≡ true → get_or bs i 0 ≡ 0
all_zero-get_or [] i h = refl
all_zero-get_or (b ∷ bs) zero h = ground arith
all_zero-get_or (b ∷ bs) (suc i) h = all_zero-get_or bs i (ground arith)

-- A present gate has a bit set.
present-installed :
    (guest : GuestMemory) (base i : ℕ) (g : IdtGate)
    → GateAt guest base i g
    → g.present ≡ true
    → is_uninstalled g ≡ false
unfolding is_uninstalled
present-installed guest base i g at h = elim (Bool-cases (all_zero g.raw)) [
  | inl zero_bytes ↦
      absurd (ground (arith, all_zero-get_or g.raw 5 zero_bytes, ap (λ x. x.present) at.decoded))
  | inr some_bit ↦ some_bit
]

sub_vectors :
    (guest : GuestMemory) (base i v : ℕ) (gs : List IdtGate)
    → Gates guest base i gs
    → contains (vectors_where (λ g. g.present && (g.dpl == 3)) gs) v ≡ true
    → contains (vectors_where (λ g. g.present && not (is_uninstalled g)) gs) v ≡ true
sub_vectors guest base i v [] gates h = h
sub_vectors guest base i v (g ∷ gs) (here, gates) h =
    ground (arith, present-installed guest base i g here, sub_vectors guest base (i + 1) v gs gates)

-- Every vector that user code can reach is among the installed ones.
pub user_accessible-installed :
    (guest : GuestMemory) (base limit v : ℕ) (idt : Idt)
    → read_idt guest base limit ≡ ok idt
    → contains (user_accessible_vectors idt) v ≡ true
    → contains (installed_vectors idt) v ≡ true
unfolding user_accessible_vectors installed_vectors
user_accessible-installed guest base limit v idt h =
    sub_vectors guest base 0 v idt.gates (read_idt-Gates guest base limit idt h).1
