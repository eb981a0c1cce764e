-- ===== src/Monitor/MemRows.antt =====
-- crates/princess-bin/src/monitor.rs: `info mem` as QEMU prints it, read back.
use princess_ide.Prelude.{
  ℕ, ◌^◌, ◌<◌, ◌≡◌, refl, ap, ◌∙◌, arith, Bool, true, false, List, [], ◌∷◌, ◌++◌, ◌==◌, All, map,
  if◌then◌else◌, ok,
}
use princess_ide.Str.{codes, all_chars, same_text, is_whitespace}
use princess_ide.Str.Trim.{All-append}
use princess_ide.Str.Words.{IsWord, spaced, split_whitespace-spaced, trim-spaced, All-spaced}
use princess_ide.Serial.Parse.{is_empty}
use princess_ide.Serial.Hexadecimal.{hex_padded, hex_digit, All-hex_padded}
use princess_ide.Monitor.Lines.{next, finish, Outcome, parsed, byte_len}
use princess_ide.Monitor.Tables.{InfoMemRange, parse_info_mem, mem_line, mem_row, is_ascii, row_or}
use princess_ide.Monitor.Flags.{mark}
use princess_ide.Monitor.Digits.{
  parse_hex_u64-hex_padded, hex_padded-IsWord, Solid-hex_padded, IsWord-append, split_once-mark,
}
use princess_ide.Monitor.Printed.{printed, Reads, spaced-IsInner, over_text-printed}

-- The permissions `urw`.
abbrev pub permissions : InfoMemRange → List ℕ
permissions r = mark r.user 117 ∷ mark r.readable 114 ∷ mark r.writable 119 ∷ []

-- `mem_print()`: `<start>-<end> <size> <permissions>`.
abbrev pub mem_fields : InfoMemRange → List (List ℕ)
mem_fields r =
    (hex_padded 16 r.start ++ (45 ∷ hex_padded 16 r.end))
    ∷ hex_padded 16 r.size
    ∷ permissions r
    ∷ []

abbrev pub mem_text : InfoMemRange → List ℕ
mem_text r = spaced (mem_fields r)

abbrev pub InWords : InfoMemRange → Type 0
InWords r = (r.start < 2 ^ 64) × (r.end < 2 ^ 64) × (r.size < 2 ^ 64)

mark-Plain : (P : ℕ → Type 0) (bit : Bool) (letter : ℕ) → P letter → P 45 → P (mark bit letter)
mark-Plain P true letter h k = h
mark-Plain P false letter h k = k

permissions-All :
    (P : ℕ → Type 0) (r : InfoMemRange) → P 117 → P 114 → P 119 → P 45 → All P (permissions r)
permissions-All P r u d w dash = (
  mark-Plain P r.user 117 u dash,
  (mark-Plain P r.readable 114 d dash, (mark-Plain P r.writable 119 w dash, tt)),
)

mem_fields-IsWord : (r : InfoMemRange) → All IsWord (mem_fields r)
unfolding is_whitespace
mem_fields-IsWord r = (
  IsWord-append (hex_padded 16 r.start) (45 ∷ hex_padded 16 r.end) (hex_padded-IsWord 15 _)
      (refl, Solid-hex_padded 16 _),
  (
    hex_padded-IsWord 15 _,
    (permissions-All (λ c. is_whitespace c ≡ false) r refl refl refl refl, tt),
  ),
)

digit-IsAscii : (d : ℕ) → d < 16 → is_ascii (hex_digit d) ≡ true
digit-IsAscii d h = ground arith

digit-ne-dash : (d : ℕ) → d < 16 → (45 == hex_digit d) ≡ false
digit-ne-dash d h = ground arith

all_chars-All : (p : ℕ → Bool) (s : List ℕ) → All (λ c. p c ≡ true) s → all_chars p s ≡ true
all_chars-All p [] h = refl
all_chars-All p (c ∷ s) (h, hs) = rw h (all_chars-All p s hs)

mem_text-IsAscii : (r : InfoMemRange) → all_chars is_ascii (mem_text r) ≡ true
mem_text-IsAscii r =
    let plain = λ (n : ℕ). All-hex_padded (λ c. is_ascii c ≡ true) 16 n digit-IsAscii in
    all_chars-All is_ascii (mem_text r) (
      All-spaced (λ c. is_ascii c ≡ true) (mem_fields r) refl
        (
          All-append (λ c. is_ascii c ≡ true) (hex_padded 16 r.start) (45 ∷ hex_padded 16 r.end)
              (plain r.start) (refl, plain r.end),
          (plain r.size, (permissions-All (λ c. is_ascii c ≡ true) r refl refl refl refl, tt)),
        ))

byte_len-permissions : (r : InfoMemRange) → byte_len (permissions r) ≡ 3
byte_len-permissions r = ground arith

letter_at-mark :
    (bit : Bool) (letter : ℕ) → (letter == 45) ≡ false → (mark bit letter == letter) ≡ bit
letter_at-mark true letter h = ground arith
letter_at-mark false letter h = ground arith

mem_row-text : (r : InfoMemRange) → InWords r → mem_row (mem_text r) ≡ ok r
unfolding mem_row
mem_row-text r (s, e, z) =
    rw
      (
        mem_row,
        mem_text-IsAscii r,
        split_whitespace-spaced (mem_fields r) (mem_fields-IsWord r),
        split_once-mark 45 (hex_padded 16 r.start) (hex_padded 16 r.end)
            (All-hex_padded (λ c. (45 == c) ≡ false) 16 r.start digit-ne-dash),
        parse_hex_u64-hex_padded r.start s,
        parse_hex_u64-hex_padded r.end e,
        parse_hex_u64-hex_padded r.size z,
        byte_len-permissions r,
        letter_at-mark r.user 117 refl,
        letter_at-mark r.readable 114 refl,
        letter_at-mark r.writable 119 refl,
      )
      refl

is_empty-first :
    (w : List ℕ) (v : List ℕ) (ws : List (List ℕ))
    → IsWord w
    → is_empty (spaced (w ∷ v ∷ ws)) ≡ false
is_empty-first [] v ws h = absurd h
is_empty-first (c ∷ w) v ws h = refl

same_text-other :
    (s t : List ℕ) (p : ℕ)
    → is_empty s ≡ false
    → All (λ c. (c == p) ≡ false) s
    → same_text s (p ∷ t) ≡ false
same_text-other [] t p e h = refl
same_text-other (c ∷ s) t p e (h, hs) = rw h refl

digit-ne-letter : (d : ℕ) → d < 16 → (hex_digit d == 80) ≡ false
digit-ne-letter d h = ground arith

mem_text-ne-disabled : (r : InfoMemRange) → same_text (mem_text r) (codes "PG disabled") ≡ false
mem_text-ne-disabled r =
    let plain = λ (n : ℕ). All-hex_padded (λ c. (c == 80) ≡ false) 16 n digit-ne-letter in
    same_text-other (mem_text r) (codes "G disabled") 80
      (is_empty-first (hex_padded 16 r.start ++ (45 ∷ hex_padded 16 r.end)) (hex_padded 16 r.size)
        (permissions r ∷ []) (mem_fields-IsWord r).0)
      (All-spaced (λ c. (c == 80) ≡ false) (mem_fields r) refl
        (
          All-append (λ c. (c == 80) ≡ false) (hex_padded 16 r.start) (45 ∷ hex_padded 16 r.end)
              (plain r.start) (refl, plain r.end),
          (plain r.size, (permissions-All (λ c. (c == 80) ≡ false) r refl refl refl refl, tt)),
        ))

-- The step on a trimmed line.
mem_trimmed : List InfoMemRange → List ℕ → Outcome (List InfoMemRange)
mem_trimmed out line =
    if is_empty line
    then next out
    else if same_text line (codes "PG disabled")
    then finish []
    else row_or out line (mem_row line)

mem_line-text :
    (cr : Bool) (r : InfoMemRange) → InWords r → Reads mem_line mem_text (codes "info mem") cr r
unfolding mem_line mem_trimmed
mem_line-text cr r h =
    let words = mem_fields-IsWord r in
    let inhabited =
      is_empty-first (hex_padded 16 r.start ++ (45 ∷ hex_padded 16 r.end)) (hex_padded 16 r.size)
        (permissions r ∷ []) words.0 in
    (
      spaced-IsInner (mem_fields r) words,
      λ out.
          ap (mem_trimmed out) (trim-spaced (mem_fields r) words)
          ∙ ap
              (λ b.
                if b
                then next out
                else if same_text (mem_text r) (codes "PG disabled")
                then finish []
                else row_or out (mem_text r) (mem_row (mem_text r)))
              inhabited
          ∙ ap (λ b. if b then finish [] else row_or out (mem_text r) (mem_row (mem_text r)))
              (mem_text-ne-disabled r)
          ∙ ap (row_or out (mem_text r)) (mem_row-text r h),
    )

All-lines :
    (cr : Bool) (ranges : List InfoMemRange)
    → All InWords ranges
    → All (Reads mem_line mem_text (codes "info mem") cr) ranges
All-lines cr [] h = tt
All-lines cr (r ∷ ranges) (h, hs) = (mem_line-text cr r h, All-lines cr ranges hs)

-- What QEMU prints for `info mem`, a line `<start>-<end> <size> <permissions>` of 16 hexadecimal digits
-- each and the characters `u`, `r` and `w` or dashes for each range, with either line ending, parses to
-- the ranges in order, when their numbers are 64-bit words.
pub parse_info_mem-printed :
    (cr : Bool) (ranges : List InfoMemRange)
    → All InWords ranges
    → parse_info_mem (printed cr (map mem_text ranges)) ≡ parsed ranges
unfolding parse_info_mem
parse_info_mem-printed cr ranges h =
    over_text-printed mem_line mem_text (codes "info mem") cr ranges (All-lines cr ranges h)
