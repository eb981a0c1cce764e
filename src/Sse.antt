-- ===== src/Sse.antt =====
-- crates/princess-ai/src/sse.rs: the incremental decoder of server-sent events, `SseDecoder`. Bytes
-- and characters are numbers; `String::from_utf8_lossy` and `char::is_whitespace` are the record
-- `Text`, of which nothing is assumed.
use princess_ide.Prelude.{
  ℕ, zero, suc, ◌+◌, Bool, true, false, not, ◌&&◌, ◌||◌, Option, none, some, List, [], ◌∷◌, length,
  take, drop, ◌==◌, if◌then◌else◌, ◌++◌,
}
pub mod Frames
pub mod Chunks
mod Tests

pub record Text : Type 0 where
  pub from_utf8_lossy : List ℕ → List ℕ
  pub is_whitespace : ℕ → Bool

pub data SseEvent : Type 0 where
  data_event : (payload : List ℕ) → SseEvent
  done_event : SseEvent

pub record SseDecoder : Type 0 where
  pub buffer : List ℕ
  pub done : Bool

abbrev pub new_decoder : SseDecoder
new_decoder = record { buffer = []; done = false }

abbrev pub lf : ℕ
lf = 10

abbrev pub cr : ℕ
cr = 13

-- `bytes.get(i) == Some(&b)`.
abbrev pub is_at : List ℕ → ℕ → ℕ → Bool
is_at [] i b = false
is_at (c ∷ cs) zero b = c == b
is_at (c ∷ cs) (suc i) b = is_at cs i b

-- The `match` on the byte at `i`, on the bytes from there: the length of the blank line, if one is.
unfoldable pub blank_line : List ℕ → Option ℕ
blank_line bytes =
    if is_at bytes 0 lf
    then (if is_at bytes 1 lf
        then some 2
        else if is_at bytes 1 cr && is_at bytes 2 lf
        then some 3
        else none)
    else if is_at bytes 0 cr
    then (if is_at bytes 1 lf && is_at bytes 2 cr
        then (if is_at bytes 3 lf then some 4 else none)
        else if is_at bytes 1 cr
        then some 2
        else none)
    else none

-- The loop of `find_frame_end` at `i`, on the bytes from there.
unfoldable pub find_from : ℕ → List ℕ → Option (ℕ × ℕ)
find_from i [] = none
find_from i (b ∷ bs) =
    let later = find_from (i + 1) bs in
    elim (blank_line (b ∷ bs)) [ some n ↦ some (i, i + n) | none ↦ later ]

unfoldable pub find_frame_end : List ℕ → Option (ℕ × ℕ)
find_frame_end bytes = find_from 0 bytes

-- `text.split('\n')`.
abbrev pub prepend : ℕ → List (List ℕ) → List (List ℕ)
prepend c [] = (c ∷ []) ∷ []
prepend c (l ∷ ls) = (c ∷ l) ∷ ls

abbrev pub split_lines : List ℕ → List (List ℕ)
split_lines [] = [] ∷ []
split_lines (c ∷ cs) = let rest = split_lines cs in if c == lf then [] ∷ rest else prepend c rest

-- `line.strip_suffix('\r').unwrap_or(line)`.
abbrev pub strip_cr : List ℕ → List ℕ
strip_cr [] = []
strip_cr (c ∷ []) = if c == cr then [] else c ∷ []
strip_cr (c ∷ d ∷ rest) = c ∷ strip_cr (d ∷ rest)

abbrev pub strip_prefix : List ℕ → List ℕ → Option (List ℕ)
strip_prefix [] s = some s
strip_prefix (p ∷ ps) [] = none
strip_prefix (p ∷ ps) (c ∷ cs) = let rest = strip_prefix ps cs in if p == c then rest else none

-- `s.strip_prefix(p).unwrap_or(s)`.
abbrev pub without_prefix : List ℕ → List ℕ → List ℕ
without_prefix p s = elim (strip_prefix p s) [ none ↦ s | some rest ↦ rest ]

-- `"data:"`.
abbrev pub data_field : List ℕ
data_field = 100 ∷ 97 ∷ 116 ∷ 97 ∷ 58 ∷ []

-- `DONE_SENTINEL`, the six ASCII characters.
abbrev pub done_sentinel : List ℕ
done_sentinel = 91 ∷ 68 ∷ 79 ∷ 78 ∷ 69 ∷ 93 ∷ []

-- What the loop of `decode_frame` pushes for a line.
abbrev pub data_line : List ℕ → Option (List ℕ)
data_line [] = none
data_line (c ∷ cs) = if c == 58 then none else elim (strip_prefix data_field (c ∷ cs)) [
  | none ↦ none
  | some rest ↦ some (without_prefix (32 ∷ []) rest)
]

abbrev pub data_lines : List (List ℕ) → List (List ℕ)
data_lines [] = []
data_lines (line ∷ rest) = elim (data_line (strip_cr line)) [
  | none ↦ data_lines rest
  | some d ↦ d ∷ data_lines rest
]

-- `data.join("\n")`.
abbrev pub join_lines : List (List ℕ) → List ℕ
join_lines [] = []
join_lines (l ∷ []) = l
join_lines (l ∷ m ∷ rest) = l ++ lf ∷ join_lines (m ∷ rest)

-- `payload.trim()`.
abbrev pub trim_start : (ℕ → Bool) → List ℕ → List ℕ
trim_start white [] = []
trim_start white (c ∷ cs) = let rest = trim_start white cs in if white c then rest else c ∷ cs

abbrev pub trim_end : (ℕ → Bool) → List ℕ → List ℕ
trim_end white [] = []
trim_end white (c ∷ cs) = elim (trim_end white cs) [
  | [] ↦ if white c then [] else c ∷ []
  | d ∷ rest ↦ c ∷ d ∷ rest
]

abbrev pub same_text : List ℕ → List ℕ → Bool
same_text [] [] = true
same_text (a ∷ xs) (b ∷ ys) = (a == b) && same_text xs ys
same_text _ _ = false

abbrev pub event_of : Text → List ℕ → SseEvent
event_of t payload =
    if same_text (trim_end t.is_whitespace (trim_start t.is_whitespace payload)) done_sentinel
    then done_event
    else data_event payload

unfoldable pub decode_frame : Text → List ℕ → Option SseEvent
decode_frame t frame = elim (data_lines (split_lines (t.from_utf8_lossy frame))) [
  | [] ↦ none
  | d ∷ rest ↦ some (event_of t (join_lines (d ∷ rest)))
]

-- The rest of a round of `push`, on the event of its frame; `onward` is the next round.
abbrev pub emit : Option SseEvent → List SseEvent × SseDecoder → List SseEvent × SseDecoder
emit none onward = onward
emit (some done_event) onward = (done_event ∷ [], record { buffer = []; done = true })
emit (some (data_event p)) (events, d) = (data_event p ∷ events, d)

-- The loop of `push` on a buffer: each round takes a frame off it, so its length is fuel enough.
unfoldable pub drain : Text → ℕ → List ℕ → List SseEvent × SseDecoder
drain t zero buffer = ([], record { buffer = buffer; done = false })
drain t (suc fuel) buffer = elim (find_frame_end buffer) [
  | none ↦ ([], record { buffer = buffer; done = false })
  | some (frame_end, next_start) ↦
      emit (decode_frame t (take frame_end buffer)) (drain t fuel (drop next_start buffer))
]

unfoldable pub push : Text → SseDecoder → List ℕ → List SseEvent × SseDecoder
push t d bytes =
    if d.done then ([], d) else drain t (length (d.buffer ++ bytes)) (d.buffer ++ bytes)

abbrev pub events_of : Option SseEvent → List SseEvent
events_of none = []
events_of (some e) = e ∷ []

unfoldable pub finish : Text → SseDecoder → List SseEvent × SseDecoder
finish t d = elim d.buffer [
  | [] ↦ ([], d)
  | b ∷ bs ↦ (events_of (decode_frame t (b ∷ bs)), record d { buffer = [] })
]
