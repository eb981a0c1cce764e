-- ===== src/Diagnostics/Located.antt =====
-- crates/princess-build/src/diagnostics.rs: `file:line:col` taken apart.
use princess_ide.Prelude.{
  ℕ, suc, ◌^◌, ◌<◌, ◌≡◌, refl, ap, ◌∙◌, arith, true, false, none, some, List, [], ◌∷◌, ◌++◌, ◌==◌,
  All, lt→ltb,
}
use princess_ide.Str.{all_chars, trim}
use princess_ide.Serial.Parse.{is_empty}
use princess_ide.Framing.{decimal}
use princess_ide.Framing.Decimal.{IsDigit, decimal-IsDigit, decimal_last, parse_usize-decimal}
use princess_ide.Diagnostics.{is_ascii_digit, rsplit_colon, walk_back, split_location}

-- No colon among digits.
rsplit_colon-digits : (s : List ℕ) → All IsDigit s → rsplit_colon s ≡ none
unfolding rsplit_colon
rsplit_colon-digits [] h = refl
rsplit_colon-digits (c ∷ s) (h, hs) =
    let other : (c == 58) ≡ false = ground arith in
    rw (rsplit_colon, rsplit_colon-digits s hs, other) refl

rsplit_colon-append :
    (front digits : List ℕ)
    → All IsDigit digits
    → rsplit_colon (front ++ (58 ∷ digits)) ≡ some (front, digits)
unfolding rsplit_colon
rsplit_colon-append [] digits h = rw (rsplit_colon, rsplit_colon-digits digits h) refl
rsplit_colon-append (c ∷ front) digits h =
    rw (rsplit_colon, rsplit_colon-append front digits h) refl

digits-All : (s : List ℕ) → All IsDigit s → all_chars is_ascii_digit s ≡ true
digits-All [] h = refl
digits-All (c ∷ s) (h, hs) =
    let digit : is_ascii_digit c ≡ true = ground arith in rw digit (digits-All s hs)

is_empty-last : (s : List ℕ) (c : ℕ) → is_empty (s ++ (c ∷ [])) ≡ false
is_empty-last [] c = refl
is_empty-last (d ∷ s) c = refl

pub is_empty-decimal : (n : ℕ) → is_empty (decimal 20 n) ≡ false
is_empty-decimal n =
    let (front, last, digit, e) = decimal_last 19 n in ap is_empty e ∙ is_empty-last front last

-- One group of digits behind a colon.
walk_back-group :
    (groups n : ℕ) (front numbers : List ℕ)
    → n < 2 ^ 32
    → walk_back (suc groups) (front ++ (58 ∷ decimal 20 n)) numbers
      ≡ walk_back groups front (numbers ++ (n ∷ []))
unfolding walk_back
walk_back-group groups n front numbers small =
    rw
      (
        walk_back,
        rsplit_colon-append front (decimal 20 n) (decimal-IsDigit 20 n),
        is_empty-decimal n,
        digits-All (decimal 20 n) (decimal-IsDigit 20 n),
        parse_usize-decimal n (omega arith),
        lt→ltb n (2 ^ 32) small,
      )
      refl

is_empty-append_colon : (s t : List ℕ) → is_empty (s ++ (58 ∷ t)) ≡ false
is_empty-append_colon [] t = refl
is_empty-append_colon (c ∷ s) t = refl

-- A path with a line and a column behind it, both of 32 bits, is taken apart into the path without the
-- white space around it, the line and the column, whatever the path holds, unless it is blank.
pub split_location-line_col :
    (file : List ℕ) (line col : ℕ)
    → is_empty (trim file) ≡ false
    → line < 2 ^ 32
    → col < 2 ^ 32
    → split_location ((file ++ (58 ∷ decimal 20 line)) ++ (58 ∷ decimal 20 col))
      ≡ some (trim file, some line, some col)
unfolding split_location
split_location-line_col file line col there hl hc =
    rw
      (
        split_location,
        is_empty-append_colon (file ++ (58 ∷ decimal 20 line)) (decimal 20 col),
        walk_back-group 1 col (file ++ (58 ∷ decimal 20 line)) [] hc,
        walk_back-group 0 line file (col ∷ []) hl,
        walk_back,
        there,
      )
      refl
