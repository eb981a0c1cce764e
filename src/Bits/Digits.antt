-- ===== src/Bits/Digits.antt =====
-- The native bit operations are defined by a recursion on binary digits with fuel. Here is the
-- equation for the lowest digit, free of the fuel.
use Prim.Native.Nat.{max, digits, bit_and-bitwise, bit_or-bitwise}
use princess_ide.Prelude.{
  ℕ, zero, suc, ◌+◌, ◌*◌, ◌/◌, ◌%◌, ◌≤◌, min, bit_and, bit_or, ◌≡◌, refl, arith,
}

module _ (rest : ℕ → ℕ) (digit : ℕ → ℕ → ℕ) where
  -- Two supplies of fuel that both cover the first argument give one result.
  enough_fuel : (n a b m : ℕ) → a ≤ n → a ≤ m → digits rest digit n a b ≡ digits rest digit m a b
  enough_fuel zero zero b zero p q = refl
  enough_fuel zero zero b (suc m) p q = refl
  enough_fuel zero (suc a) b m p q = absurd (omega arith)
  enough_fuel (suc n) zero b zero p q = refl
  enough_fuel (suc n) zero b (suc m) p q = refl
  enough_fuel (suc n) (suc a) b zero p q = absurd (omega arith)
  enough_fuel (suc n) (suc a) b (suc m) p q =
      rw (enough_fuel n (suc a / 2) (b / 2) m (omega arith) (omega arith))

  lowest_digit :
      (a b : ℕ)
      → digits rest digit (suc a) (suc a) b
        ≡ digits rest digit (suc a / 2) (suc a / 2) (b / 2) * 2 + digit (suc a % 2) (b % 2)
  lowest_digit a b =
      omega (arith, enough_fuel a (suc a / 2) (b / 2) (suc a / 2) (omega arith) (omega arith))

pub and_step : (a b : ℕ) → bit_and a b ≡ bit_and (a / 2) (b / 2) * 2 + min (a % 2) (b % 2)
and_step zero b = simp bit_and-bitwise (omega arith)
and_step (suc a) b = simp bit_and-bitwise (lowest_digit (λ y. 0) min a b)

pub or_step : (a b : ℕ) → bit_or a b ≡ bit_or (a / 2) (b / 2) * 2 + max (a % 2) (b % 2)
or_step zero b = simp bit_or-bitwise (omega arith)
or_step (suc a) b = simp bit_or-bitwise (lowest_digit (λ y. y) max a b)

pub zero-or : (b : ℕ) → bit_or 0 b ≡ b
zero-or b = bit_or-bitwise 0 b
