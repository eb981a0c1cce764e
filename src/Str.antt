-- ===== src/Str.antt =====
-- The methods of Rust's `str` that the program's parsers call, on lists of code points.
use Prim.Native.Char.{code}
use Prim.Native.String.{String}
use princess_ide.Prelude.{
  ℕ, ◌-◌, Bool, true, false, not, ◌&&◌, ◌||◌, Option, none, some, List, [], ◌∷◌, ◌++◌, ◌==◌, leb,
  if◌then◌else◌,
}
pub mod Prefix
pub mod Trim
pub mod Words

abbrev pub codes : String → List ℕ
codes String.[] = []
codes (String.◌∷◌ c s) = code c ∷ codes s

-- `char::is_whitespace`, the Unicode property White_Space.
unfoldable pub is_whitespace : ℕ → Bool
is_whitespace c =
    (leb 9 c && leb c 13)
    || (c == 32)
    || (c == 133)
    || (c == 160)
    || (c == 5760)
    || (leb 8192 c && leb c 8202)
    || (c == 8232)
    || (c == 8233)
    || (c == 8239)
    || (c == 8287)
    || (c == 12288)

abbrev pub all_chars : (ℕ → Bool) → List ℕ → Bool
all_chars p [] = true
all_chars p (c ∷ s) = p c && all_chars p s

-- `==` of two texts.
abbrev pub same_text : List ℕ → List ℕ → Bool
same_text [] [] = true
same_text [] (d ∷ t) = false
same_text (c ∷ s) [] = false
same_text (c ∷ s) (d ∷ t) = (c == d) && same_text s t

unfoldable pub strip_prefix : List ℕ → List ℕ → Option (List ℕ)
strip_prefix [] s = some s
strip_prefix (p ∷ ps) [] = none
strip_prefix (p ∷ ps) (c ∷ s) = let rest = strip_prefix ps s in if p == c then rest else none

unfoldable pub starts_with : List ℕ → List ℕ → Bool
unfolding strip_prefix
starts_with prefix s = elim (strip_prefix prefix s) [ some rest ↦ true | none ↦ false ]

-- The text before the first occurrence of a pattern and the text after it.
unfoldable pub split_once : List ℕ → List ℕ → Option (List ℕ × List ℕ)
unfolding strip_prefix
split_once pattern [] = elim (strip_prefix pattern []) [ some rest ↦ some ([], rest) | none ↦ none ]
split_once pattern (c ∷ s) =
    let later = split_once pattern s in
    elim (strip_prefix pattern (c ∷ s)) [
      | some rest ↦ some ([], rest)
      | none ↦ elim later [ some (before, after) ↦ some (c ∷ before, after) | none ↦ none ]
    ]

unfoldable pub contains : List ℕ → List ℕ → Bool
unfolding split_once
contains pattern s = elim (split_once pattern s) [ some parts ↦ true | none ↦ false ]

abbrev pub trim_start_matches : (ℕ → Bool) → List ℕ → List ℕ
trim_start_matches p [] = []
trim_start_matches p (c ∷ s) = let rest = trim_start_matches p s in if p c then rest else c ∷ s

-- A character at the end is dropped when nothing that stays comes after it.
abbrev pub keep : (ℕ → Bool) → ℕ → List ℕ → List ℕ
keep p c [] = if p c then [] else c ∷ []
keep p c (d ∷ s) = c ∷ d ∷ s

abbrev pub trim_end_matches : (ℕ → Bool) → List ℕ → List ℕ
trim_end_matches p [] = []
trim_end_matches p (c ∷ s) = keep p c (trim_end_matches p s)

unfoldable pub trim : List ℕ → List ℕ
unfolding is_whitespace
trim s = trim_end_matches is_whitespace (trim_start_matches is_whitespace s)

-- A word, where there is one, in front of the words that follow.
abbrev pub end_word : List ℕ → List (List ℕ) → List (List ℕ)
end_word [] words = words
end_word (c ∷ word) words = (c ∷ word) ∷ words

-- The characters up to the first white space, and the words after it.
abbrev pub words_from : List ℕ → List ℕ × List (List ℕ)
words_from [] = ([], [])
words_from (c ∷ s) =
    let (word, words) = words_from s in
    if is_whitespace c then ([], end_word word words) else (c ∷ word, words)

unfoldable pub split_whitespace : List ℕ → List (List ℕ)
unfolding is_whitespace
split_whitespace s = let (word, words) = words_from s in end_word word words

abbrev pub first_word : List ℕ → Option (List ℕ)
first_word s = elim (split_whitespace s) [ [] ↦ none | word ∷ rest ↦ some word ]

-- `lines`: a final line without a line feed counts if it is not empty, and one `\r` before the line
-- feed goes with it.
abbrev pub strip_cr : List ℕ → List ℕ
strip_cr [] = []
strip_cr (c ∷ []) = if c == 13 then [] else c ∷ []
strip_cr (c ∷ d ∷ s) = c ∷ strip_cr (d ∷ s)

-- The characters up to the first line feed, which may be absent, and the rest in the same way.
abbrev pub segments : List ℕ → List ℕ × List (List ℕ)
segments [] = ([], [])
segments (c ∷ s) =
    let (line, more) = segments s in if c == 10 then ([], line ∷ more) else (c ∷ line, more)

abbrev pub lines_of : List ℕ → List (List ℕ) → List (List ℕ)
lines_of line [] = end_word line []
lines_of line (next ∷ more) = strip_cr line ∷ lines_of next more

unfoldable pub lines : List ℕ → List (List ℕ)
lines s = let (line, more) = segments s in lines_of line more
