-- ===== src/Framing/Decimal.antt =====
-- A length that `encode_frame` prints is the length that `decode_frame` parses.
use mathlib.Core.Path.{subst}
use native.Mathlib.Nat.{pow-succ'}
use princess_ide.Prelude.{
  ℕ, zero, suc, ◌+◌, ◌-◌, ◌*◌, ◌/◌, ◌%◌, ◌^◌, ◌<◌, ◌≤◌, ◌≡◌, refl, sym, ap, ◌∙◌, inl, inr, arith,
  true, false, ◌&&◌, none, some, List, [], ◌∷◌, ◌++◌, Bool-cases, if◌then◌else◌, lt→ltb, ltb, ◌==◌,
  All,
}
use princess_ide.Str.Trim.{All-append}
use princess_ide.Framing.{decimal, is_digit, from_decimal, parse_usize}

-- A digit's character.
abbrev pub IsDigit : ℕ → Type 0
IsDigit c = (48 ≤ c) × (c ≤ 57)

pub decimal-IsDigit : (places n : ℕ) → All IsDigit (decimal places n)
unfolding decimal
decimal-IsDigit zero n = tt
decimal-IsDigit (suc places) n = elim (Bool-cases (ltb n 10)) [
  | inl small ↦ rw (decimal, small) ((omega arith, ground (arith, small)), tt)
  | inr large ↦
      rw (decimal, large)
        (All-append IsDigit (decimal places (n / 10)) ((n % 10 + 48) ∷ [])
          (decimal-IsDigit places (n / 10)) ((omega arith, omega arith), tt))
]

from_decimal_one :
    (value d : ℕ)
    → d < 10
    → value * 10 + d < 2 ^ 64
    → from_decimal value ((d + 48) ∷ []) ≡ some (value * 10 + d)
unfolding from_decimal
from_decimal_one value d small fits =
    let digit : is_digit (d + 48) ≡ true = ground arith in
    let next : value * 10 + (d + 48 - 48) ≡ value * 10 + d = omega arith in
    let room : ltb (value * 10 + d) (2 ^ 64) ≡ true = lt→ltb (value * 10 + d) (2 ^ 64) fits in
    ap
      (λ b.
        if b && ltb (value * 10 + (d + 48 - 48)) (2 ^ 64)
        then some (value * 10 + (d + 48 - 48))
        else none)
      digit
    ∙ ap (λ n. if ltb n (2 ^ 64) then some n else none) next
    ∙ ap (λ b. if b then some (value * 10 + d) else none) room

-- Digits that fit after a value, one more digit.
from_decimal-append :
    (value total : ℕ) (xs : List ℕ) (d : ℕ)
    → d < 10
    → total * 10 + d < 2 ^ 64
    → from_decimal value xs ≡ some total
    → from_decimal value (xs ++ ((d + 48) ∷ [])) ≡ some (total * 10 + d)
unfolding from_decimal
from_decimal-append value total [] d small fits h =
    let e : value ≡ total = ground arith in
    from_decimal_one value d small (rw e fits) ∙ ap (λ v. some (v * 10 + d)) e
from_decimal-append value total (c ∷ xs) d small fits h =
    elim (Bool-cases (is_digit c && ltb (value * 10 + (c - 48)) (2 ^ 64))) [
      | inl good ↦
          let go = from_decimal-append (value * 10 + (c - 48)) total xs d small fits (
            sym (ap (λ b. if b then from_decimal (value * 10 + (c - 48)) xs else none) good) ∙ h) in
          rw (from_decimal, good) go
      | inr bad ↦ absurd (ground (arith, bad))
    ]

from_decimal-decimal :
    (places n : ℕ) → n < 10 ^ places → n < 2 ^ 64 → from_decimal 0 (decimal places n) ≡ some n
unfolding decimal from_decimal
from_decimal-decimal zero n small fits = ap (λ k. some k) (omega arith)
from_decimal-decimal (suc places) n small fits = elim (Bool-cases (ltb n 10)) [
  | inl one ↦
      rw (decimal, one)
        (from_decimal_one 0 n (ground (arith, one)) (omega (arith, fits))
          ∙ ap (λ k. some k) (omega arith))
  | inr more ↦
      let power = pow-succ' 10 places in
      let go =
        from_decimal-decimal places (n / 10) (omega (arith, small, power)) (omega (arith, fits)) in
      let last =
        from_decimal-append 0 (n / 10) (decimal places (n / 10)) (n % 10) (omega arith)
          (omega (arith, fits)) go in
      rw (decimal, more) (last ∙ ap (λ k. some k) (omega arith))
]

-- A last digit and the ones before it.
pub decimal_last :
    (places n : ℕ)
    → (front : List ℕ) × (last : ℕ) × (IsDigit last)
      × (decimal (suc places) n ≡ front ++ (last ∷ []))
unfolding decimal
decimal_last places n = elim (Bool-cases (ltb n 10)) [
  | inl one ↦ ([], n + 48, (omega arith, ground (arith, one)), rw (decimal, one) refl)
  | inr more ↦
      (decimal places (n / 10), n % 10 + 48, (omega arith, omega arith), rw (decimal, more) refl)
]

parse_usize-from_decimal :
    (front : List ℕ) (last : ℕ)
    → All IsDigit (front ++ (last ∷ []))
    → parse_usize (front ++ (last ∷ [])) ≡ from_decimal 0 (front ++ (last ∷ []))
unfolding parse_usize
parse_usize-from_decimal [] last (digit, all) =
    let no_sign : (last == 43) ≡ false = ground arith in rw (parse_usize, no_sign) refl
parse_usize-from_decimal (c ∷ []) last (digit, all) =
    let no_sign : (c == 43) ≡ false = ground arith in rw (parse_usize, no_sign) refl
parse_usize-from_decimal (c ∷ d ∷ front) last (digit, all) =
    let no_sign : (c == 43) ≡ false = ground arith in rw (parse_usize, no_sign) refl

pub parse_usize-decimal : (n : ℕ) → n < 2 ^ 64 → parse_usize (decimal 20 n) ≡ some n
parse_usize-decimal n fits =
    let (front, last, digit, e) = decimal_last 19 n in
    let all = subst (All IsDigit) e (decimal-IsDigit 20 n) in
    ap parse_usize e
    ∙ parse_usize-from_decimal front last all
    ∙ sym (ap (from_decimal 0) e)
    ∙ from_decimal-decimal 20 n (omega arith) fits
