-- ===== src/Bits.antt =====
-- Shifts, masks and complements of 64-bit words as the source writes them, and the arithmetic
-- that each of them stands for.
mod Digits
use Digits.{and_step, or_step, zero-or}
use native.Mathlib.Nat.{
  pow-suc, one-le-pow, mul_comm, div-div-eq-div-mul, mod-eq-sub-div-mul, div-mul-le_self,
}
use princess_ide.Prelude.{
  ℕ, zero, suc, ◌+◌, ◌-◌, ◌*◌, ◌/◌, ◌%◌, ◌^◌, ◌≤◌, ◌<◌, bit_and, bit_or, ◌≡◌, refl, sym, ◌∙◌, ap,
  arith, Bool, not, ◌==◌,
}

-- `x << k` on a `u64`: the bits above 63 are lost.
infixl 75 ◌<<◌ ◌>>◌
abbrev pub ◌<<◌ : ℕ → ℕ → ℕ
x << k = x * 2 ^ k % 2 ^ 64

abbrev pub ◌>>◌ : ℕ → ℕ → ℕ
x >> k = x / 2 ^ k

-- `!x` on a `u64`.
abbrev pub bit_not : ℕ → ℕ
bit_not x = 2 ^ 64 - 1 - x

-- `x & m != 0`.
abbrev pub test_bits : ℕ → ℕ → Bool
test_bits x m = not (bit_and x m == 0)

and-zero_below : (n a : ℕ) → a ≤ n → bit_and a 0 ≡ 0
and-zero_below zero zero h = refl
and-zero_below zero (suc a) h = absurd (omega arith)
and-zero_below (suc n) a h = ground (arith, and_step a 0, and-zero_below n (a / 2))

pub and-zero : (a : ℕ) → bit_and a 0 ≡ 0
and-zero a = and-zero_below a a (omega arith)

or-zero_below : (n a : ℕ) → a ≤ n → bit_or a 0 ≡ a
or-zero_below zero zero h = refl
or-zero_below zero (suc a) h = absurd (omega arith)
or-zero_below (suc n) a h = ground (arith, or_step a 0, or-zero_below n (a / 2))

pub or-zero : (a : ℕ) → bit_or a 0 ≡ a
or-zero a = or-zero_below a a (omega arith)

times_two_pow : (m k : ℕ) → m * 2 ^ suc k ≡ m * 2 ^ k * 2
times_two_pow m k = omega (arith, ap (λ (t : ℕ). m * t) (pow-suc 2 k))

halve_pow : (a k : ℕ) → a / 2 ^ suc k ≡ a / 2 / 2 ^ k
halve_pow a k = rw (pow-suc, mul_comm (2 ^ k) 2, div-div-eq-div-mul)

mod_halves : (a k : ℕ) → a % 2 ^ suc k ≡ a / 2 % 2 ^ k * 2 + a % 2
mod_halves a k = ground (
  arith,
  halve_pow a k,
  times_two_pow (a / 2 / 2 ^ k) k,
  mod-eq-sub-div-mul a (2 ^ suc k),
  mod-eq-sub-div-mul (a / 2) (2 ^ k),
  div-mul-le_self (a / 2) (2 ^ k),
)

-- A mask that is shifted up by `k` reads the word shifted down by `k`.
pub and_shifted : (k a m : ℕ) → bit_and a (m * 2 ^ k) ≡ bit_and (a / 2 ^ k) m * 2 ^ k
and_shifted zero a m = ground arith
and_shifted (suc k) a m = ground (
  arith,
  and_step a (m * 2 ^ suc k),
  times_two_pow m k,
  times_two_pow (bit_and (a / 2 ^ suc k) m) k,
  halve_pow a k,
  and_shifted k (a / 2) m,
)

-- A mask of `k` ones is the remainder by `2 ^ k`.
pub and_ones : (k a : ℕ) → bit_and a (2 ^ k - 1) ≡ a % 2 ^ k
and_ones zero a = ground (arith, and-zero a)
and_ones (suc k) a = ground (
  arith,
  and_step a (2 ^ suc k - 1),
  pow-suc 2 k,
  one-le-pow k 2,
  and_ones k (a / 2),
  mod_halves a k,
)

-- `r | (q << k)` is a sum when `r` fits into `k` bits.
pub or_fields : (k r q : ℕ) → r < 2 ^ k → bit_or r (q * 2 ^ k) ≡ r + q * 2 ^ k
or_fields zero r q h = let e : r ≡ 0 = omega arith in rw e (ground (arith, zero-or (q * 1)))
or_fields (suc k) r q h = ground (
  arith,
  or_step r (q * 2 ^ suc k),
  times_two_pow q k,
  pow-suc 2 k,
  or_fields k (r / 2) q (omega (arith, pow-suc 2 k)),
)

-- `(q << k) | r`, the other way round.
pub fields_or : (k q r : ℕ) → r < 2 ^ k → bit_or (q * 2 ^ k) r ≡ q * 2 ^ k + r
fields_or zero q r h = let e : r ≡ 0 = omega arith in rw e (ground (arith, or-zero (q * 1)))
fields_or (suc k) q r h = ground (
  arith,
  or_step (q * 2 ^ suc k) r,
  times_two_pow q k,
  pow-suc 2 k,
  fields_or k q (r / 2) (omega (arith, pow-suc 2 k)),
)

-- A mask of `w` ones from bit `k` on keeps that field and clears the rest.
pub and_field : (k w a : ℕ) → bit_and a ((2 ^ w - 1) * 2 ^ k) ≡ a / 2 ^ k % 2 ^ w * 2 ^ k
and_field k w a = rw (and_shifted, and_ones)

-- A test of one bit reads that digit.
pub test_bit : (k a : ℕ) → test_bits a (2 ^ k) ≡ (a / 2 ^ k % 2 == 1)
test_bit k a = ground (arith, and_field k 1 a, one-le-pow k 2)

-- `base | offset` is a sum where the base leaves the offset's bits clear.
pub or_aligned : (k b o : ℕ) → b % 2 ^ k ≡ 0 → o < 2 ^ k → bit_or b o ≡ b + o
or_aligned k b o h fits =
    let e : b ≡ b / 2 ^ k * 2 ^ k =
      omega (arith, mod-eq-sub-div-mul b (2 ^ k), div-mul-le_self b (2 ^ k)) in
    ap (λ t. bit_or t o) e ∙ fields_or k (b / 2 ^ k) o fits ∙ ap (λ t. t + o) (sym e)
