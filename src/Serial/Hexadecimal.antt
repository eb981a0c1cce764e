-- ===== src/Serial/Hexadecimal.antt =====
-- crates/princess-cli/src/symbolize.rs `hex`, the text of an address, against the parser of the serial
-- lines.
use native.Mathlib.Nat.{pow-succ'}
use princess_ide.Prelude.{
  ℕ, zero, suc, ◌+◌, ◌*◌, ◌/◌, ◌%◌, ◌^◌, ◌<◌, ◌≤◌, ◌≡◌, refl, ap, ◌∙◌, inl, inr, arith, true, false,
  not, none, some, List, [], ◌∷◌, ◌++◌, Bool-cases, if◌then◌else◌, ltb, ◌==◌, lt→ltb, All,
}
use princess_ide.Str.{codes, all_chars, is_whitespace, trim_end_matches, strip_prefix}
use princess_ide.Str.Trim.{printable, trim_kept, trim_end_matches_kept, All-append}
use princess_ide.Serial.Parse.{
  is_ascii_hexdigit, hex_value, from_hex, hex_digits, is_empty, parse_digits, parse_hex_u64,
}

-- A digit as `{:x}` writes it, and the digits of a number, `places` of them.
abbrev pub hex_digit : ℕ → ℕ
hex_digit d = if ltb d 10 then d + 48 else d + 87

unfoldable pub hex_padded : ℕ → ℕ → List ℕ
hex_padded zero n = []
hex_padded (suc places) n = hex_padded places (n / 16) ++ (hex_digit (n % 16) ∷ [])

-- `format!("0x{address:016x}")` of a `u64`, which has no more than 16 digits.
unfoldable pub hex : ℕ → List ℕ
unfolding hex_padded
hex address = codes "0x" ++ hex_padded 16 address

-- The number that digits stand for, after a value.
abbrev horner : ℕ → List ℕ → ℕ
horner value [] = value
horner value (c ∷ digits) = horner (value * 16 + hex_value c) digits

horner_grows : (value : ℕ) (digits : List ℕ) → value ≤ horner value digits
horner_grows value [] = omega arith
horner_grows value (c ∷ digits) = omega (arith, horner_grows (value * 16 + hex_value c) digits)

from_hex-horner :
    (value : ℕ) (digits : List ℕ)
    → value < 2 ^ 64
    → from_hex value digits
      ≡ (if ltb (horner value digits) (2 ^ 64) then some (horner value digits) else none)
unfolding from_hex
from_hex-horner value [] small = rw (lt→ltb value (2 ^ 64) small) refl
from_hex-horner value (c ∷ digits) small =
    let next = value * 16 + hex_value c in
    let grows = horner_grows next digits in
    elim (Bool-cases (ltb next (2 ^ 64))) [
      | inl fits ↦ rw (from_hex, fits) (from_hex-horner next digits (ground arith))
      | inr large ↦
          let beyond : ltb (horner next digits) (2 ^ 64) ≡ false = ground (arith, grows, large) in
          rw (from_hex, large, beyond) refl
    ]

horner-append : (value : ℕ) (xs ys : List ℕ) → horner value (xs ++ ys) ≡ horner (horner value xs) ys
horner-append value [] ys = refl
horner-append value (c ∷ xs) ys = horner-append (value * 16 + hex_value c) xs ys

hex_value-hex_digit : (d : ℕ) → d < 16 → hex_value (hex_digit d) ≡ d
hex_value-hex_digit d small = ground arith

quotient : (n p : ℕ) → n < 16 * p → n / 16 < p
quotient n p h = omega arith

horner-hex_padded : (places n : ℕ) → n < 16 ^ places → horner 0 (hex_padded places n) ≡ n
unfolding hex_padded
horner-hex_padded zero n small = omega arith
horner-hex_padded (suc places) n small =
    let power : 16 ^ suc places ≡ 16 * 16 ^ places = pow-succ' 16 places in
    let go =
      horner-hex_padded places (n / 16) (quotient n (16 ^ places) (omega (arith, small, power))) in
    let digit = hex_value-hex_digit (n % 16) (omega arith) in
    rw (horner-append 0 (hex_padded places (n / 16)) (hex_digit (n % 16) ∷ []), go, digit)
      (omega arith)

-- The digits are hexadecimal digits.
pub hex_digit-IsHex : (d : ℕ) → d < 16 → is_ascii_hexdigit (hex_digit d) ≡ true
hex_digit-IsHex d small = ground arith

pub hex_digit-printable : (d : ℕ) → d < 16 → is_whitespace (hex_digit d) ≡ false
hex_digit-printable d small = printable (hex_digit d) (ground arith) (ground arith)

hex_digit-comma : (d : ℕ) → d < 16 → (hex_digit d == 44) ≡ false
hex_digit-comma d small = ground arith

pub All-hex_padded :
    (P : ℕ → Type 0) (places n : ℕ)
    → ((d : ℕ) → d < 16 → P (hex_digit d))
    → All P (hex_padded places n)
unfolding hex_padded
All-hex_padded P zero n h = tt
All-hex_padded P (suc places) n h =
    All-append P (hex_padded places (n / 16)) (hex_digit (n % 16) ∷ [])
      (All-hex_padded P places (n / 16) h) (h (n % 16) (omega arith), tt)

pub All-all_chars :
    (s : List ℕ) → All (λ c. is_ascii_hexdigit c ≡ true) s → all_chars is_ascii_hexdigit s ≡ true
All-all_chars [] h = refl
All-all_chars (c ∷ s) (h, hs) = rw h (All-all_chars s hs)

-- A prefixed text of plain digits is parsed as these digits.
parse_hex_u64-from_hex :
    (digits : List ℕ)
    → is_empty digits ≡ false
    → All (λ d. is_whitespace d ≡ false) digits
    → All (λ d. (d == 44) ≡ false) digits
    → All (λ d. is_ascii_hexdigit d ≡ true) digits
    → parse_hex_u64 (48 ∷ 120 ∷ digits) ≡ from_hex 0 digits
unfolding parse_hex_u64 strip_prefix
parse_hex_u64-from_hex [] some_digit printables commas digits = absurd (ground arith)
parse_hex_u64-from_hex (c ∷ s) some_digit printables commas digits =
    let text = 48 ∷ 120 ∷ c ∷ s in
    let trimmed = trim_kept text (
      printable 48 (omega arith) (omega arith),
      (printable 120 (omega arith) (omega arith), printables),
    ) in
    let kept = trim_end_matches_kept (λ d. d == 44) text (refl, (refl, commas)) in
    let all = All-all_chars (c ∷ s) digits in
    ap (λ t. parse_digits (hex_digits (trim_end_matches (λ d. d == 44) t))) trimmed
    ∙ ap (λ t. parse_digits (hex_digits t)) kept
    ∙ ap (λ b. if not b then none else from_hex 0 (c ∷ s)) all

is_empty-append : (s : List ℕ) (c : ℕ) → is_empty (s ++ (c ∷ [])) ≡ false
is_empty-append [] c = refl
is_empty-append (d ∷ s) c = refl

pub is_empty-hex_padded : (places n : ℕ) → is_empty (hex_padded (suc places) n) ≡ false
unfolding hex_padded
is_empty-hex_padded places n = is_empty-append (hex_padded places (n / 16)) (hex_digit (n % 16))

hex-from_hex : (address : ℕ) → parse_hex_u64 (hex address) ≡ from_hex 0 (hex_padded 16 address)
unfolding hex
hex-from_hex address =
    parse_hex_u64-from_hex (hex_padded 16 address) (is_empty-hex_padded 15 address)
      (All-hex_padded (λ c. is_whitespace c ≡ false) 16 address hex_digit-printable)
      (All-hex_padded (λ c. (c == 44) ≡ false) 16 address hex_digit-comma)
      (All-hex_padded (λ c. is_ascii_hexdigit c ≡ true) 16 address hex_digit-IsHex)

pub from_hex-hex_padded_of :
    (places n : ℕ) → n < 16 ^ places → n < 2 ^ 64 → from_hex 0 (hex_padded places n) ≡ some n
from_hex-hex_padded_of places n small fits =
    from_hex-horner 0 (hex_padded places n) (omega arith)
    ∙ ap (λ v. if ltb v (2 ^ 64) then some v else none) (horner-hex_padded places n small)
    ∙ ap (λ b. if b then some n else none) (lt→ltb n (2 ^ 64) fits)

pub from_hex-hex_padded :
    (address : ℕ) → address < 2 ^ 64 → from_hex 0 (hex_padded 16 address) ≡ some address
from_hex-hex_padded address small = from_hex-hex_padded_of 16 address small small

-- The text of an address parses back to the address.
pub parse_hex_u64-hex :
    (address : ℕ) → address < 2 ^ 64 → parse_hex_u64 (hex address) ≡ some address
parse_hex_u64-hex address small = hex-from_hex address ∙ from_hex-hex_padded address small
