-- ===== src/Monitor/Digits.antt =====
-- crates/princess-bin/src/monitor.rs: the padded hexadecimal fields of a monitor reply, and what stands
-- next to them.
use princess_ide.Prelude.{
  ℕ, suc, ◌^◌, ◌<◌, ◌≡◌, refl, ap, ◌∙◌, arith, true, false, none, some, List, [], ◌∷◌, ◌++◌, ◌==◌,
  if◌then◌else◌, All,
}
use princess_ide.Str.{is_whitespace, strip_prefix, split_once}
use princess_ide.Str.Trim.{All-append}
use princess_ide.Str.Words.{Solid, IsWord}
use princess_ide.Serial.Parse.{is_ascii_hexdigit, from_hex, is_empty}
use princess_ide.Serial.Hexadecimal.{
  hex_padded, hex_digit-printable, hex_digit-IsHex, All-hex_padded, All-all_chars,
  is_empty-hex_padded, from_hex-hex_padded,
}
use princess_ide.Monitor.Tables.{is_hex, parse_hex_u64, strip_suffix, snoc_front}

pub is_hex-hex_padded : (places n : ℕ) → is_hex (hex_padded (suc places) n) ≡ true
unfolding is_hex
is_hex-hex_padded places n = rw (is_empty-hex_padded places n) (
    All-all_chars (hex_padded (suc places) n)
      (All-hex_padded (λ c. is_ascii_hexdigit c ≡ true) (suc places) n hex_digit-IsHex))

-- `%016x` of a `u64` parses back to it.
pub parse_hex_u64-hex_padded : (n : ℕ) → n < 2 ^ 64 → parse_hex_u64 (hex_padded 16 n) ≡ some n
unfolding parse_hex_u64
parse_hex_u64-hex_padded n small =
    ap (λ b. if b then from_hex 0 (hex_padded 16 n) else none) (is_hex-hex_padded 15 n)
    ∙ from_hex-hex_padded n small

pub Solid-hex_padded : (places n : ℕ) → Solid (hex_padded places n)
Solid-hex_padded places n =
    All-hex_padded (λ c. is_whitespace c ≡ false) places n hex_digit-printable

Solid-IsWord : (s : List ℕ) → is_empty s ≡ false → Solid s → IsWord s
Solid-IsWord [] e h = absurd (ground arith)
Solid-IsWord (c ∷ s) e h = h

pub hex_padded-IsWord : (places n : ℕ) → IsWord (hex_padded (suc places) n)
hex_padded-IsWord places n =
    Solid-IsWord (hex_padded (suc places) n) (is_empty-hex_padded places n)
      (Solid-hex_padded (suc places) n)

pub IsWord-append : (w s : List ℕ) → IsWord w → Solid s → IsWord (w ++ s)
IsWord-append [] s h k = absurd h
IsWord-append (c ∷ w) s h k = All-append (λ d. is_whitespace d ≡ false) (c ∷ w) s h k

pub strip_suffix-append : (mark : ℕ) (s : List ℕ) → strip_suffix mark (s ++ (mark ∷ [])) ≡ some s
unfolding strip_suffix
strip_suffix-append mark [] =
    let same : (mark == mark) ≡ true = ground arith in rw (strip_suffix, same) refl
strip_suffix-append mark (c ∷ []) = ap (snoc_front c) (strip_suffix-append mark [])
strip_suffix-append mark (c ∷ d ∷ s) = ap (snoc_front c) (strip_suffix-append mark (d ∷ s))

-- The first occurrence of a mark.
pub split_once-mark :
    (mark : ℕ) (s t : List ℕ)
    → All (λ c. (mark == c) ≡ false) s
    → split_once (mark ∷ []) (s ++ (mark ∷ t)) ≡ some (s, t)
unfolding split_once strip_prefix
split_once-mark mark [] t h =
    let same : (mark == mark) ≡ true = ground arith in rw (split_once, strip_prefix, same) refl
split_once-mark mark (c ∷ s) t (h, hs) =
    rw (split_once, strip_prefix, h, split_once-mark mark s t hs) refl
