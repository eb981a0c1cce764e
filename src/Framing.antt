-- ===== src/Framing.antt =====
-- crates/princess-debug/src/framing.rs: the `Content-Length` frames of the Debug Adapter Protocol. A body
-- is its bytes, a header its characters. What the blocking reader gives is a list of reads.
use princess_ide.Prelude.{
  ℕ, zero, suc, ◌+◌, ◌-◌, ◌*◌, ◌/◌, ◌%◌, ◌^◌, min, Bool, true, false, not, ◌&&◌, ◌||◌, Option, none,
  some, List, [], ◌∷◌, ◌++◌, length, take, drop, ◌==◌, leb, ltb, if◌then◌else◌, Result, ok, err,
  ◌>>=◌,
}
use princess_ide.Str.{codes, all_chars, same_text, split_once, trim, segments}
use princess_ide.Utf8.{from_utf8_lossy, is_utf8}
pub mod Decimal
pub mod Header
pub mod RoundTrip
pub mod Partial
pub mod Reader
mod Tests

abbrev pub header_length : List ℕ
header_length = codes "Content-Length"

abbrev pub max_content_length : ℕ
max_content_length = 16 * 1024 * 1024

-- A read error is named only: its text is the system's.
pub data FrameError : Type 0 where
  header_too_long : (limit : ℕ) → FrameError
  malformed_header : (line : List ℕ) → FrameError
  missing_content_length : (header : List ℕ) → FrameError
  bad_content_length : (value : List ℕ) → FrameError
  body_too_large : (length limit : ℕ) → FrameError
  unexpected_eof : (wanted got : ℕ) → FrameError
  not_utf8 : (lossy : List ℕ) → FrameError
  read_failed : FrameError

-- `{}` of a number below `10 ^ places`.
unfoldable pub decimal : ℕ → ℕ → List ℕ
decimal zero n = []
decimal (suc places) n =
    let front = decimal places (n / 10) in
    if ltb n 10 then (n + 48) ∷ [] else front ++ ((n % 10 + 48) ∷ [])

-- A `usize` has at most 20 digits.
unfoldable pub encode_frame : List ℕ → List ℕ
encode_frame body =
    header_length ++ (codes ": " ++ (decimal 20 (length body) ++ (13 ∷ 10 ∷ 13 ∷ 10 ∷ body)))

-- The loop of `find_header_terminator` at `i`, on the bytes from there.
unfoldable pub terminator_from : ℕ → List ℕ → Option (ℕ × ℕ)
terminator_from i [] = none
terminator_from i (b ∷ []) = none
terminator_from i (b ∷ c ∷ []) = if (b == 10) && (c == 10) then some (i, i + 2) else none
terminator_from i (b ∷ c ∷ d ∷ bytes) =
    let later = terminator_from (i + 1) (c ∷ d ∷ bytes) in
    if (b == 10) && (c == 10)
    then some (i, i + 2)
    else if (b == 10) && ((c == 13) && (d == 10))
    then some (i, i + 3)
    else later

unfoldable pub find_header_terminator : List ℕ → Option (ℕ × ℕ)
unfolding terminator_from
find_header_terminator input = terminator_from 0 input

-- `split("\r\n")`: the text before the first one, and the rest in the same way.
abbrev pub crlf_segments : List ℕ → List ℕ × List (List ℕ)
crlf_segments [] = ([], [])
crlf_segments (c ∷ []) = (c ∷ [], [])
crlf_segments (c ∷ d ∷ s) = elim ((c == 13) && (d == 10)) [
  | true ↦ ([], (crlf_segments s).0 ∷ (crlf_segments s).1)
  | false ↦ (c ∷ (crlf_segments (d ∷ s)).0, (crlf_segments (d ∷ s)).1)
]

abbrev pub split_lf : List ℕ → List (List ℕ)
split_lf s = let (line, more) = segments s in line ∷ more

abbrev pub flat_split : List (List ℕ) → List (List ℕ)
flat_split [] = []
flat_split (l ∷ ls) = split_lf l ++ flat_split ls

unfoldable pub header_lines : List ℕ → List (List ℕ)
header_lines text = let (line, more) = crlf_segments text in flat_split (line ∷ more)

abbrev pub to_lower : ℕ → ℕ
to_lower c = if leb 65 c && leb c 90 then c + 32 else c

abbrev pub lower : List ℕ → List ℕ
lower [] = []
lower (c ∷ s) = to_lower c ∷ lower s

abbrev pub is_digit : ℕ → Bool
is_digit c = leb 48 c && leb c 57

-- `parse::<usize>` on decimal digits: the value so far times 10, plus a digit, fails when it needs
-- more than 64 bits.
unfoldable pub from_decimal : ℕ → List ℕ → Option ℕ
from_decimal value [] = some value
from_decimal value (c ∷ digits) =
    let next = value * 10 + (c - 48) in
    let rest = from_decimal next digits in if is_digit c && ltb next (2 ^ 64) then rest else none

-- A sign `+` may stand in front of the digits, of which there is at least one.
unfoldable pub parse_usize : List ℕ → Option ℕ
unfolding from_decimal
parse_usize [] = none
parse_usize (c ∷ []) = if c == 43 then none else from_decimal 0 (c ∷ [])
parse_usize (c ∷ d ∷ s) = if c == 43 then from_decimal 0 (d ∷ s) else from_decimal 0 (c ∷ d ∷ s)

-- One header, with the length that the headers before it gave.
unfoldable pub add_header : Option ℕ → List ℕ → Result FrameError (Option ℕ)
unfolding parse_usize split_once trim
add_header content_length [] = ok content_length
add_header content_length (c ∷ s) = elim (split_once (codes ":") (c ∷ s)) [
  | none ↦ err (malformed_header (c ∷ s))
  | some (name, value) ↦
      if same_text (lower (trim name)) (lower header_length)
      then elim (parse_usize (trim value)) [
        | none ↦ err (bad_content_length (trim value))
        | some parsed ↦ ok (some parsed)
      ]
      else ok content_length
]

unfoldable pub headers : Option ℕ → List (List ℕ) → Result FrameError (Option ℕ)
unfolding add_header
headers content_length [] = ok content_length
headers content_length (raw_line ∷ lines) =
    add_header content_length (trim raw_line) >>= λ parsed. headers parsed lines

-- The body of a length at a place.
unfoldable pub take_body : List ℕ → ℕ → ℕ → Result FrameError (Option (List ℕ × ℕ))
take_body input body_start n =
    let total = body_start + n in
    let bytes = take n (drop body_start input) in
    if ltb max_content_length n
    then err (body_too_large n max_content_length)
    else if ltb (length input) total
    then ok none
    else if not (is_utf8 bytes)
    then err (not_utf8 (from_utf8_lossy bytes))
    else ok (some (bytes, total))

-- `decode_frame` behind the loop over the headers, and from the header's text on.
abbrev pub measured : List ℕ → ℕ → List ℕ → Option ℕ → Result FrameError (Option (List ℕ × ℕ))
measured input body_start header_text none = err (missing_content_length header_text)
measured input body_start header_text (some n) = take_body input body_start n

abbrev pub with_text : List ℕ → ℕ → List ℕ → Result FrameError (Option (List ℕ × ℕ))
with_text input body_start header_text =
    headers none (header_lines header_text) >>= measured input body_start header_text

unfoldable pub decode_frame : List ℕ → Result FrameError (Option (List ℕ × ℕ))
decode_frame input = elim (find_header_terminator input) [
  | none ↦
      if ltb (min max_content_length (64 * 1024)) (length input)
      then err (header_too_long (64 * 1024))
      else ok none
  | some (header_end, body_start) ↦
      with_text input body_start (from_utf8_lossy (take header_end input))
]
