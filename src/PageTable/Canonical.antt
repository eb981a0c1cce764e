-- ===== src/PageTable/Canonical.antt =====
-- crates/princess-bin/src/pagetable.rs: `canonicality`.
use princess_ide.Prelude.{
  ℕ, ◌/◌, ◌-◌, ◌^◌, ◌<◌, ◌≤◌, ◌≡◌, ◌↔◌, ◌⊎◌, arith, not, ◌||◌, ltb, leb, ◌==◌, if◌then◌else◌,
}
use princess_ide.Bits.{◌<<◌}

pub data Canonicality : Type 0 where
  canonical non_canonical : Canonicality

-- `(x as i64 >> k) as u64`: a shift that copies the sign bit.
abbrev pub shift_right_signed : ℕ → ℕ → ℕ
shift_right_signed x k = if ltb x (2 ^ 63) then x / 2 ^ k else 2 ^ 64 - 1 - (2 ^ 64 - 1 - x) / 2 ^ k

unfoldable pub canonicality : ℕ → ℕ → Canonicality
canonicality address bits =
    if not (leb 1 bits) || not (leb bits 64)
    then canonical
    else if leb 63 (bits - 1)
    then canonical
    else (let sign_extended = shift_right_signed (address << (64 - bits)) (64 - bits) in
        if sign_extended == address then canonical else non_canonical)

pub canonicality_48 :
    (a : ℕ) → a < 2 ^ 64 → (canonicality a 48 ≡ canonical) ↔ ((a < 2 ^ 47) ⊎ (2 ^ 64 - 2 ^ 47 ≤ a))
unfolding canonicality
canonicality_48 a h = ground arith

pub canonicality_57 :
    (a : ℕ) → a < 2 ^ 64 → (canonicality a 57 ≡ canonical) ↔ ((a < 2 ^ 56) ⊎ (2 ^ 64 - 2 ^ 56 ≤ a))
unfolding canonicality
canonicality_57 a h = ground arith
