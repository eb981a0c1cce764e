-- ===== src/Framing/Header.antt =====
-- The header that `encode_frame` writes, as `decode_frame` reads it.
use mathlib.Core.List.{append_assoc}
use princess_ide.Prelude.{
  ℕ, ◌+◌, ◌^◌, ◌<◌, ◌≡◌, refl, sym, ap, ◌∙◌, arith, Bool, true, false, ◌&&◌, Option, none, some,
  List, [], ◌∷◌, ◌++◌, length, lt→ltb, ◌==◌, All, Result, ok, err, ◌>>=◌,
}
use princess_ide.Str.{codes, is_whitespace, trim, segments, split_once, trim_end_matches}
use princess_ide.Str.Trim.{
  printable, trim_kept, trim_end_matches_dropped, trim_end_matches_last, All-append,
}
use princess_ide.Utf8.{lossy_from, from_utf8_lossy, first_sequence, whole}
use princess_ide.Framing.{
  FrameError, bad_content_length, parse_usize, decimal, terminator_from, crlf_segments,
  header_lines, flat_split, add_header, headers,
}
use princess_ide.Framing.Decimal.{IsDigit, decimal-IsDigit, decimal_last, parse_usize-decimal}

abbrev pub prefix : List ℕ
prefix = codes "Content-Length: "

-- The first line, with its carriage return.
abbrev pub first_line : ℕ → List ℕ
first_line n = prefix ++ (decimal 20 n ++ (13 ∷ []))

-- A byte of it: below 128, and no line feed.
abbrev pub IsPlain : ℕ → Type 0
IsPlain c = (c < 128) × ((c == 10) ≡ false)

IsPlain-digit : (c : ℕ) → IsDigit c → IsPlain c
IsPlain-digit c (low, high) = (omega (arith, high), ground (arith, low))

map_All : {P Q : ℕ → Type 0} (s : List ℕ) → ((c : ℕ) → P c → Q c) → All P s → All Q s
map_All [] f all = tt
map_All (c ∷ s) f (h, all) = (f c h, map_All s f all)

pub terminator_from-skip :
    (i b : ℕ) (bytes : List ℕ)
    → (b == 10) ≡ false
    → terminator_from i (b ∷ bytes) ≡ terminator_from (i + 1) bytes
unfolding terminator_from
terminator_from-skip i b [] h = refl
terminator_from-skip i b (c ∷ []) h = rw (terminator_from, h) refl
terminator_from-skip i b (c ∷ d ∷ bytes) h = rw (terminator_from, h) refl

pub terminator_from-append :
    (i : ℕ) (line rest : List ℕ)
    → All IsPlain line
    → terminator_from i (line ++ (10 ∷ 13 ∷ 10 ∷ rest))
      ≡ some (i + length line, i + length line + 3)
unfolding terminator_from
terminator_from-append i [] rest all = ap (λ k. some (k, k + 3)) (omega arith)
terminator_from-append i (b ∷ line) rest ((low, h), all) =
    terminator_from-skip i b (line ++ (10 ∷ 13 ∷ 10 ∷ rest)) h
    ∙ terminator_from-append (i + 1) line rest all
    ∙ ap (λ k. some (k, k + 3)) (omega arith)

first_sequence-ascii : (c : ℕ) (bytes : List ℕ) → c < 128 → first_sequence c bytes ≡ whole 0 c
unfolding first_sequence
first_sequence-ascii c bytes low = rw (first_sequence, lt→ltb c 128 low) refl

lossy_from-plain : (s : List ℕ) → All IsPlain s → lossy_from 0 s ≡ s
unfolding lossy_from
lossy_from-plain [] all = refl
lossy_from-plain (c ∷ s) ((low, h), all) =
    rw (lossy_from, first_sequence-ascii c s low) (ap (λ l. c ∷ l) (lossy_from-plain s all))

pub from_utf8_lossy-plain : (s : List ℕ) → All IsPlain s → from_utf8_lossy s ≡ s
unfolding from_utf8_lossy
from_utf8_lossy-plain s all = lossy_from-plain s all

and_right : (a b : Bool) → b ≡ false → (a && b) ≡ false
and_right true b h = h
and_right false b h = refl

segments-plain : (s : List ℕ) → All IsPlain s → segments s ≡ (s, [])
segments-plain [] all = refl
segments-plain (c ∷ s) ((low, h), all) = rw (h, segments-plain s all) refl

crlf_segments-plain : (s : List ℕ) → All IsPlain s → crlf_segments s ≡ (s, [])
crlf_segments-plain [] all = refl
crlf_segments-plain (c ∷ []) all = refl
crlf_segments-plain (c ∷ d ∷ s) (p, ((low, h), all)) =
    let next = crlf_segments-plain (d ∷ s) ((low, h), all) in
    let other : ((c == 13) && (d == 10)) ≡ false = and_right (c == 13) (d == 10) h in
    rw (crlf_segments, other) (ap (λ r. (c ∷ r.0, r.1)) next)

pub header_lines-plain : (s : List ℕ) → All IsPlain s → header_lines s ≡ s ∷ []
unfolding header_lines
header_lines-plain s all =
    ap (λ r. flat_split (r.0 ∷ r.1)) (crlf_segments-plain s all)
    ∙ ap (λ r. (r.0 ∷ r.1) ++ []) (segments-plain s all)

prefix-IsPlain : All IsPlain prefix
prefix-IsPlain = (
  (omega arith, refl),
  (
    (omega arith, refl),
    (
      (omega arith, refl),
      (
        (omega arith, refl),
        (
          (omega arith, refl),
          (
            (omega arith, refl),
            (
              (omega arith, refl),
              (
                (omega arith, refl),
                (
                  (omega arith, refl),
                  (
                    (omega arith, refl),
                    (
                      (omega arith, refl),
                      (
                        (omega arith, refl),
                        (
                          (omega arith, refl),
                          ((omega arith, refl), ((omega arith, refl), ((omega arith, refl), tt))),
                        ),
                      ),
                    ),
                  ),
                ),
              ),
            ),
          ),
        ),
      ),
    ),
  ),
)

pub first_line-IsPlain : (n : ℕ) → All IsPlain (first_line n)
first_line-IsPlain n = All-append IsPlain prefix (decimal 20 n ++ (13 ∷ [])) prefix-IsPlain (
    All-append IsPlain (decimal 20 n) (13 ∷ [])
      (map_All (decimal 20 n) IsPlain-digit (decimal-IsDigit 20 n)) ((omega arith, refl), tt))

digit_printable : (c : ℕ) → IsDigit c → is_whitespace c ≡ false
digit_printable c (low, high) = printable c (omega (arith, low)) (omega (arith, high))

-- The trimmed line: the carriage return is gone.
pub trim-first_line : (n : ℕ) → trim (first_line n) ≡ prefix ++ decimal 20 n
unfolding trim
trim-first_line n =
    let (front, last, digit, e) = decimal_last 19 n in
    let whole_line = prefix ++ decimal 20 n in
    let ends : whole_line ≡ (prefix ++ front) ++ (last ∷ []) =
      ap (λ l. prefix ++ l) e ∙ sym (append_assoc prefix front (last ∷ [])) in
    ap (trim_end_matches is_whitespace) (sym (append_assoc prefix (decimal 20 n) (13 ∷ [])))
    ∙ trim_end_matches_dropped is_whitespace whole_line 13 refl
    ∙ ap (trim_end_matches is_whitespace) ends
    ∙ trim_end_matches_last is_whitespace (prefix ++ front) last (digit_printable last digit)
    ∙ sym ends

pub add_header-first_line :
    (n : ℕ) → n < 2 ^ 64 → add_header none (prefix ++ decimal 20 n) ≡ ok (some n)
unfolding add_header split_once
add_header-first_line n fits =
    let trimmed =
      trim_kept (decimal 20 n) (map_All (decimal 20 n) digit_printable (decimal-IsDigit 20 n)) in
    let parsed = ap parse_usize trimmed ∙ parse_usize-decimal n fits in
    ap
      (λ o. elim o as (λ x. Result FrameError (Option ℕ)) [
        | none ↦ err (bad_content_length (trim (32 ∷ decimal 20 n)))
        | some value ↦ ok (some value)
      ])
      parsed

-- What the loop over the header lines finds.
pub headers-first_line :
    (n : ℕ)
    → n < 2 ^ 64
    → headers none (header_lines (from_utf8_lossy (first_line n))) ≡ ok (some n)
unfolding headers
headers-first_line n fits =
    let plain = first_line-IsPlain n in
    ap (λ t. headers none (header_lines t)) (from_utf8_lossy-plain (first_line n) plain)
    ∙ ap (headers none) (header_lines-plain (first_line n) plain)
    ∙ ap (λ t. add_header none t >>= λ parsed. ok parsed) (trim-first_line n)
    ∙ ap (λ r. r >>= λ parsed. ok parsed) (add_header-first_line n fits)
