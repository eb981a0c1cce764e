-- ===== src/GuestMem/Words.antt =====
-- `read_u64` puts bytes together in little-endian order: what its loop of shifts computes.
use native.Mathlib.Nat.{mod-eq_of_lt, pow-le-pow_right, one-le-pow}
use native.Mathlib.Numerals.{towards_suc}
use princess_ide.Prelude.{
  ℕ, zero, suc, ◌+◌, ◌*◌, ◌/◌, ◌%◌, ◌^◌, ◌≤◌, ◌<◌, ◌≡◌, ◌∙◌, arith, List, [], ◌∷◌, length, All,
}
use princess_ide.Bits.{or_fields, ◌<<◌}
use princess_ide.GuestMem.{or_bytes}

-- The number that a list of bytes stands for, the lowest byte first.
abbrev pub le_value : List ℕ → ℕ
le_value [] = 0
le_value (b ∷ bs) = b + 256 * le_value bs

-- The `n` lowest bytes of a number, the lowest first.
abbrev pub le_bytes : ℕ → ℕ → List ℕ
le_bytes zero v = []
le_bytes (suc n) v = v % 256 ∷ le_bytes n (v / 256)

abbrev pub IsByte : ℕ → Type 0
IsByte b = b < 256

pub pow_byte : (i : ℕ) → 2 ^ ((i + 1) * 8) ≡ 2 ^ (i * 8) * 256
pow_byte i = let e : (i + 1) * 8 ≡ i * 8 + 8 = omega arith in rw e (simp towards_suc (omega arith))

word_below : (i : ℕ) → i < 8 → 2 ^ ((i + 1) * 8) ≤ 2 ^ 64
word_below i h = pow-le-pow_right {n = 2} (omega arith) {i = (i + 1) * 8} {j = 64} (omega arith)

byte_below : (b p : ℕ) → b < 256 → b * p + p ≤ p * 256
byte_below b p h = grind arith

-- A byte of a word loses nothing when it is shifted into place.
shifted_byte : (i b : ℕ) → i < 8 → b < 256 → b << (i * 8) ≡ b * 2 ^ (i * 8)
shifted_byte i b hi hb = mod-eq_of_lt (
    omega (
      arith,
      pow_byte i,
      byte_below b (2 ^ (i * 8)) hb,
      one-le-pow (i * 8) 2 (omega arith),
      word_below i hi,
    ))

pub or_bytes-le_value :
    (i v : ℕ) (bs : List ℕ)
    → All IsByte bs
    → v < 2 ^ (i * 8)
    → i + length bs ≤ 8
    → or_bytes i v bs ≡ v + le_value bs * 2 ^ (i * 8)
unfolding or_bytes
or_bytes-le_value i v [] all fits len = omega arith
or_bytes-le_value i v (b ∷ bs) (hb, all) fits len =
    rw (shifted_byte i b (omega arith) hb, or_fields (i * 8) v b fits)
      (or_bytes-le_value (i + 1) (v + b * 2 ^ (i * 8)) bs all
          (omega (arith, pow_byte i, byte_below b (2 ^ (i * 8)) hb)) (omega arith)
        ∙ rw (pow_byte i) (omega arith))

pub le_value-le_bytes : (n v : ℕ) → v < 2 ^ (n * 8) → le_value (le_bytes n v) ≡ v
le_value-le_bytes zero v h = omega arith
le_value-le_bytes (suc n) v h =
    let e : suc n * 8 ≡ (n + 1) * 8 = omega arith in
    let below : v < 2 ^ (n * 8) * 256 = rw (← pow_byte n, ← e) h in
    omega (arith, le_value-le_bytes n (v / 256) (omega arith))

pub All-le_bytes : (n v : ℕ) → All IsByte (le_bytes n v)
All-le_bytes zero v = tt
All-le_bytes (suc n) v = (omega arith, All-le_bytes n (v / 256))
