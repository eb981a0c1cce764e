-- ===== src/Diagnostics/Marked.antt =====
-- crates/princess-build/src/diagnostics.rs: `file:line:col: severity: message` as the compilers print it.
use princess_ide.Prelude.{
  ℕ, ◌^◌, ◌<◌, ◌≡◌, ◌⊎◌, refl, inl, inr, arith, true, false, ◌&&◌, Option, none, some, List, [],
  ◌∷◌, ◌++◌, ◌==◌, ltb, All, length, Option-cases, Bool-cases,
}
use princess_ide.Str.{codes, strip_prefix, split_once, trim}
use princess_ide.Serial.Parse.{is_empty}
use princess_ide.Framing.{decimal}
use princess_ide.Framing.Decimal.{IsDigit, decimal-IsDigit}
use princess_ide.Diagnostics.{
  DiagnosticSeverity, error, warning, note, ToolFamily, Marked, find_marker, first_marker, earlier,
  parse_colon_form, classify_source,
}
use princess_ide.Diagnostics.Located.{split_location-line_col}

-- No colon in the text has a space after it.
abbrev pub NoColonSpace : List ℕ → Type 0
NoColonSpace [] = Unit {0}
NoColonSpace (c ∷ []) = Unit {0}
NoColonSpace (c ∷ d ∷ s) = (((c == 58) && (d == 32)) ≡ false) × NoColonSpace (d ∷ s)

strip_prefix_self : (m after : List ℕ) → strip_prefix m (m ++ after) ≡ some after
unfolding strip_prefix
strip_prefix_self [] after = refl
strip_prefix_self (c ∷ m) after =
    let same : (c == c) ≡ true = ground arith in
    rw (strip_prefix, same, strip_prefix_self m after) refl

-- The marker is not at the front of such a text.
no_front :
    (c : ℕ) (loc m s : List ℕ)
    → NoColonSpace (c ∷ loc)
    → strip_prefix (58 ∷ 32 ∷ m) (c ∷ (loc ++ (58 ∷ s))) ≡ none
unfolding strip_prefix
no_front c [] m s h = elim (Bool-cases (58 == c)) [
  | inl colon ↦ rw (strip_prefix, colon) refl
  | inr other ↦ rw (strip_prefix, other) refl
]
no_front c (d ∷ loc) m s (h, hs) = elim (Bool-cases (58 == c)) [
  | inr other ↦ rw (strip_prefix, other) refl
  | inl colon ↦
      let space : (32 == d) ≡ false = ground (arith, colon, h) in
      rw (strip_prefix, space, colon) refl
]

NoColonSpace-rest : (c : ℕ) (loc : List ℕ) → NoColonSpace (c ∷ loc) → NoColonSpace loc
NoColonSpace-rest c [] h = tt
NoColonSpace-rest c (d ∷ loc) (h, hs) = hs

split_once-marker :
    (loc m after : List ℕ)
    → NoColonSpace loc
    → split_once (58 ∷ 32 ∷ m) (loc ++ (58 ∷ 32 ∷ (m ++ after))) ≡ some (loc, after)
unfolding split_once
split_once-marker [] m after h = rw (split_once, strip_prefix_self (58 ∷ 32 ∷ m) after) refl
split_once-marker (c ∷ loc) m after h =
    rw
      (
        split_once,
        no_front c loc m (32 ∷ (m ++ after)) h,
        split_once-marker loc m after (NoColonSpace-rest c loc h),
      )
      refl

-- Nothing, or a marker further on.
abbrev Later : ℕ → Option Marked → Type 0
Later n o = (o ≡ none) ⊎ ((a : Marked) × (o ≡ some a) × (n < length a.0))

split_once-later :
    (loc m s : List ℕ)
    → NoColonSpace loc
    → strip_prefix m s ≡ none
    → (split_once (58 ∷ 32 ∷ m) (loc ++ (58 ∷ 32 ∷ s)) ≡ none)
      ⊎ ((before : List ℕ) × (after : List ℕ) × (split_once (58 ∷ 32 ∷ m) (loc ++ (58 ∷ 32 ∷ s))
            ≡ some (before, after))
          × (length loc < length before))
unfolding split_once strip_prefix
split_once-later [] m s h k = elim (Option-cases (split_once (58 ∷ 32 ∷ m) (32 ∷ s))) [
  | inl nothing ↦ inl (rw (split_once, strip_prefix, k, nothing) refl)
  | inr ((before, after), there) ↦
      inr (58 ∷ before, after, rw (split_once, strip_prefix, k, there) refl, omega arith)
]
split_once-later (c ∷ loc) m s h k = elim (split_once-later loc m s (NoColonSpace-rest c loc h) k) [
  | inl nothing ↦ inl (rw (split_once, no_front c loc m (32 ∷ s) h, nothing) refl)
  | inr (before, after, there, more) ↦ inr (
    c ∷ before,
    after,
    rw (split_once, no_front c loc m (32 ∷ s) h, there) refl,
    omega (arith, more),
  )
]

find_marker-here :
    (loc m after : List ℕ) (severity : DiagnosticSeverity)
    → NoColonSpace loc
    → find_marker (loc ++ (58 ∷ 32 ∷ (m ++ after))) (58 ∷ 32 ∷ m) severity
      ≡ some (loc, after, severity)
unfolding find_marker
find_marker-here loc m after severity h = rw (find_marker, split_once-marker loc m after h) refl

find_marker-Later :
    (loc m s : List ℕ) (severity : DiagnosticSeverity)
    → NoColonSpace loc
    → strip_prefix m s ≡ none
    → Later (length loc) (find_marker (loc ++ (58 ∷ 32 ∷ s)) (58 ∷ 32 ∷ m) severity)
unfolding find_marker
find_marker-Later loc m s severity h k = elim (split_once-later loc m s h k) [
  | inl nothing ↦ inl (rw (find_marker, nothing) refl)
  | inr (before, after, there, more) ↦
      inr ((before, after, severity), rw (find_marker, there) refl, more)
]

-- The found marker against markers further on.
earlier-Later :
    (a : Marked) (o : Option Marked) → Later (length a.0) o → earlier (some a) o ≡ some a
earlier-Later a o (inl nothing) = rw nothing refl
earlier-Later a o (inr (b, there, more)) =
    let no_less : ltb (length b.0) (length a.0) ≡ false = ground arith in rw (there, no_less) refl

Later-earlier :
    (a : Marked) (o : Option Marked) → Later (length a.0) o → earlier o (some a) ≡ some a
Later-earlier a o (inl nothing) = rw nothing refl
Later-earlier a o (inr (b, there, more)) =
    let less : ltb (length a.0) (length b.0) ≡ true = ground arith in rw (there, less) refl

Later-both : (n : ℕ) (o p : Option Marked) → Later n o → Later n p → Later n (earlier o p)
Later-both n o p (inl nothing) k = rw nothing k
Later-both n o p (inr (a, there, more)) (inl nothing) = inr (a, rw (there, nothing) refl, more)
Later-both n o p (inr (a, there, more)) (inr (b, here, further)) =
    elim (Bool-cases (ltb (length b.0) (length a.0))) [
      | inl less ↦ inr (b, rw (there, here, less) refl, further)
      | inr no_less ↦ inr (a, rw (there, here, no_less) refl, more)
    ]

-- The four severity words that a compiler prints.
pub data Word : Type 0 where
  fatal_error plain_error plain_warning plain_note : Word

abbrev pub word_text : Word → List ℕ
word_text fatal_error = codes "fatal error:"
word_text plain_error = codes "error:"
word_text plain_warning = codes "warning:"
word_text plain_note = codes "note:"

abbrev pub severity_of : Word → DiagnosticSeverity
severity_of fatal_error = error
severity_of plain_error = error
severity_of plain_warning = warning
severity_of plain_note = note

abbrev pub marked_line : List ℕ → Word → List ℕ → List ℕ
marked_line location word message = location ++ (58 ∷ 32 ∷ (word_text word ++ message))

first_marker-marked_line :
    (loc : List ℕ) (word : Word) (message : List ℕ)
    → NoColonSpace loc
    → first_marker (marked_line loc word message) ≡ some (loc, message, severity_of word)
unfolding first_marker strip_prefix
first_marker-marked_line loc fatal_error message h =
    let s = word_text fatal_error ++ message in
    let e = find_marker-Later loc (codes "error:") s error h refl in
    let w = find_marker-Later loc (codes "warning:") s warning h refl in
    let n = find_marker-Later loc (codes "note:") s note h refl in
    let rest = Later-both (length loc) _ _ e (Later-both (length loc) _ _ w n) in
    rw (first_marker, find_marker-here loc (codes "fatal error:") message error h)
      (earlier-Later (loc, message, error) _ rest)
first_marker-marked_line loc plain_error message h =
    let s = word_text plain_error ++ message in
    let f = find_marker-Later loc (codes "fatal error:") s error h refl in
    let w = find_marker-Later loc (codes "warning:") s warning h refl in
    let n = find_marker-Later loc (codes "note:") s note h refl in
    rw
      (
        first_marker,
        find_marker-here loc (codes "error:") message error h,
        earlier-Later (loc, message, error) _ (Later-both (length loc) _ _ w n),
      )
      (Later-earlier (loc, message, error) _ f)
first_marker-marked_line loc plain_warning message h =
    let s = word_text plain_warning ++ message in
    let f = find_marker-Later loc (codes "fatal error:") s error h refl in
    let e = find_marker-Later loc (codes "error:") s error h refl in
    let n = find_marker-Later loc (codes "note:") s note h refl in
    rw
      (
        first_marker,
        find_marker-here loc (codes "warning:") message warning h,
        earlier-Later (loc, message, warning) _ n,
        Later-earlier (loc, message, warning) _ e,
      )
      (Later-earlier (loc, message, warning) _ f)
first_marker-marked_line loc plain_note message h =
    let s = word_text plain_note ++ message in
    let f = find_marker-Later loc (codes "fatal error:") s error h refl in
    let e = find_marker-Later loc (codes "error:") s error h refl in
    let w = find_marker-Later loc (codes "warning:") s warning h refl in
    rw
      (
        first_marker,
        find_marker-here loc (codes "note:") message note h,
        Later-earlier (loc, message, note) _ w,
        Later-earlier (loc, message, note) _ e,
      )
      (Later-earlier (loc, message, note) _ f)

-- A number behind a colon brings no space.
digits-NoColonSpace : (s : List ℕ) → All IsDigit s → NoColonSpace s
digits-NoColonSpace [] h = tt
digits-NoColonSpace (c ∷ []) h = tt
digits-NoColonSpace (c ∷ d ∷ s) (h, hs) = (ground arith, digits-NoColonSpace (d ∷ s) hs)

NoColonSpace-digits : (s : List ℕ) → All IsDigit s → NoColonSpace (58 ∷ s)
NoColonSpace-digits [] h = tt
NoColonSpace-digits (d ∷ s) (h, hs) = (ground arith, digits-NoColonSpace (d ∷ s) (h, hs))

NoColonSpace-append :
    (s t : List ℕ) → NoColonSpace s → NoColonSpace (58 ∷ t) → NoColonSpace (s ++ (58 ∷ t))
NoColonSpace-append [] t h k = k
NoColonSpace-append (c ∷ []) t h k = (ground arith, k)
NoColonSpace-append (c ∷ d ∷ s) t (h, hs) k = (h, NoColonSpace-append (d ∷ s) t hs k)

abbrev pub location_text : List ℕ → ℕ → ℕ → List ℕ
location_text file line col = (file ++ (58 ∷ decimal 20 line)) ++ (58 ∷ decimal 20 col)

location_text-NoColonSpace :
    (file : List ℕ) (line col : ℕ) → NoColonSpace file → NoColonSpace (location_text file line col)
location_text-NoColonSpace file line col h =
    NoColonSpace-append (file ++ (58 ∷ decimal 20 line)) (decimal 20 col)
      (NoColonSpace-append file (decimal 20 line) h
        (NoColonSpace-digits (decimal 20 line) (decimal-IsDigit 20 line)))
      (NoColonSpace-digits (decimal 20 col) (decimal-IsDigit 20 col))

-- A line `file:line:col: word message` with one of the four severity words is the diagnostic with that
-- word's severity, the path and the message without the white space around them, the line and the
-- column, and the source that the line and the running tool give; when the path is not blank and has no
-- colon with a space after it, the message is not blank, and the numbers are 32-bit words.
pub parse_colon_form-marked_line :
    (file : List ℕ) (line col : ℕ) (word : Word) (message : List ℕ) (family : ToolFamily)
    → NoColonSpace file
    → is_empty (trim file) ≡ false
    → is_empty (trim message) ≡ false
    → line < 2 ^ 32
    → col < 2 ^ 32
    → parse_colon_form (marked_line (location_text file line col) word message) family
      ≡ some (record {
        severity = severity_of word;
        file = some (trim file);
        line = some line;
        col = some col;
        message = trim message;
        source =
            classify_source
              (trim message)
              (marked_line (location_text file line col) word message)
              family;
      })
unfolding parse_colon_form
parse_colon_form-marked_line file line col word message family plain there said hl hc =
    let loc = location_text file line col in
    rw
      (
        parse_colon_form,
        first_marker-marked_line loc word message (location_text-NoColonSpace file line col plain),
        said,
        split_location-line_col file line col there hl hc,
      )
      refl
