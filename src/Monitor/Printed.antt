-- ===== src/Monitor/Printed.antt =====
-- crates/princess-bin/src/monitor.rs: a reply of whole lines, which the parsers' loop reads row by row.
use mathlib.Core.List.{append_assoc, append-nil}
use princess_ide.Prelude.{
  ℕ, ◌+◌, ◌≡◌, refl, sym, ap, ◌∙◌, arith, Bool, true, false, List, [], ◌∷◌, ◌++◌, ◌==◌, All, map,
  if◌then◌else◌,
}
use princess_ide.Str.{is_whitespace, trim_end_matches}
use princess_ide.Str.Trim.{trim_end_matches_kept, trim_end_matches_dropped}
use princess_ide.Str.Words.{IsWord, spaced, Solid, All-spaced}
use princess_ide.Monitor.Lines.{
  Outcome, next, parsed, over_lines, number_lines, lines_with_offsets, split_inclusive, byte_len,
  over_text, is_line_end,
}

-- A line as the monitor ends it, with a carriage return before the line feed or without.
abbrev pub ended : Bool → List ℕ → List ℕ
ended cr line = line ++ (if cr then 13 ∷ 10 ∷ [] else 10 ∷ [])

abbrev pub printed : Bool → List (List ℕ) → List ℕ
printed cr [] = []
printed cr (line ∷ lines) = ended cr line ++ printed cr lines

abbrev pub IsInner : List ℕ → Type 0
IsInner line = All (λ c. is_line_end c ≡ false) line

solid-IsInner : (c : ℕ) → is_whitespace c ≡ false → is_line_end c ≡ false
unfolding is_whitespace
solid-IsInner c h = ground arith

Solid-IsInner : (s : List ℕ) → Solid s → IsInner s
Solid-IsInner [] h = tt
Solid-IsInner (c ∷ s) (h, hs) = (solid-IsInner c h, Solid-IsInner s hs)

All-IsInner : (ws : List (List ℕ)) → All IsWord ws → All IsInner ws
All-IsInner [] h = tt
All-IsInner ([] ∷ ws) (h, hs) = absurd h
All-IsInner ((c ∷ w) ∷ ws) (h, hs) = (Solid-IsInner (c ∷ w) h, All-IsInner ws hs)

pub spaced-IsInner : (ws : List (List ℕ)) → All IsWord ws → IsInner (spaced ws)
spaced-IsInner ws h = All-spaced (λ c. is_line_end c ≡ false) ws refl (All-IsInner ws h)

split_inclusive-ended :
    (cr : Bool) (line rest : List ℕ)
    → IsInner line
    → split_inclusive (ended cr line ++ rest) ≡ ended cr line ∷ split_inclusive rest
unfolding split_inclusive
split_inclusive-ended true [] rest h = refl
split_inclusive-ended false [] rest h = refl
split_inclusive-ended cr (c ∷ line) rest (h, hs) =
    let inner : (c == 10) ≡ false = ground arith in
    rw (split_inclusive, inner, split_inclusive-ended cr line rest hs) refl

pub split_inclusive-printed :
    (cr : Bool) (lines : List (List ℕ))
    → All IsInner lines
    → split_inclusive (printed cr lines) ≡ map (ended cr) lines
split_inclusive-printed cr [] h = unfold split_inclusive in refl
split_inclusive-printed cr (line ∷ lines) (h, hs) =
    split_inclusive-ended cr line (printed cr lines) h
    ∙ ap (λ l. ended cr line ∷ l) (split_inclusive-printed cr lines hs)

trim_end_matches-ended :
    (cr : Bool) (line : List ℕ) → IsInner line → trim_end_matches is_line_end (ended cr line) ≡ line
trim_end_matches-ended false line h =
    trim_end_matches_dropped is_line_end line 10 refl ∙ trim_end_matches_kept is_line_end line h
trim_end_matches-ended true line h =
    ap (trim_end_matches is_line_end) (sym (append_assoc line (13 ∷ []) (10 ∷ [])))
    ∙ trim_end_matches_dropped is_line_end (line ++ (13 ∷ [])) 10 refl
    ∙ trim_end_matches_dropped is_line_end line 13 refl
    ∙ trim_end_matches_kept is_line_end line h

-- A line that the step takes, in front of others.
pub over_lines-ended :
    {S : Type 0} (step : S → List ℕ → Outcome S) (context : List ℕ) (cr : Bool) (s t : S)
    (line : List ℕ) (index offset : ℕ) (pieces : List (List ℕ))
    → IsInner line
    → step s line ≡ next t
    → over_lines step context s (number_lines index offset (ended cr line ∷ pieces))
      ≡ over_lines step context t
          (number_lines (index + 1) (offset + byte_len (ended cr line)) pieces)
unfolding over_lines number_lines
over_lines-ended step context cr s t line index offset pieces inner h =
    let taken : step s (trim_end_matches is_line_end (ended cr line)) ≡ next t =
      ap (step s) (trim_end_matches-ended cr line inner) ∙ h in
    rw (over_lines, number_lines, taken) refl

-- A table whose step reads the line of each row back.
module _ {A : Type 0} (step : List A → List ℕ → Outcome (List A)) (line : A → List ℕ)
    (context : List ℕ) (cr : Bool) where
  abbrev pub Reads : A → Type 0
  Reads a = IsInner (line a) × ((out : List A) → step out (line a) ≡ next (out ++ (a ∷ [])))

  over_lines-rows :
      (rows out : List A) (index offset : ℕ)
      → All Reads rows
      → over_lines step context out (number_lines index offset (map (ended cr) (map line rows)))
        ≡ parsed (out ++ rows)
  unfolding over_lines number_lines
  over_lines-rows [] out index offset h = ap (λ l. parsed l) (sym (append-nil out))
  over_lines-rows (row ∷ rows) out index offset ((inner, reads), hs) =
      over_lines-ended step context cr out (out ++ (row ∷ [])) (line row) index offset
        (map (ended cr) (map line rows)) inner (reads out)
      ∙ over_lines-rows rows (out ++ (row ∷ [])) (index + 1)
          (offset + byte_len (ended cr (line row))) hs
      ∙ ap (λ l. parsed l) (append_assoc out (row ∷ []) rows)

  IsInner-rows : (rows : List A) → All Reads rows → All IsInner (map line rows)
  IsInner-rows [] h = tt
  IsInner-rows (row ∷ rows) (h, hs) = (h.0, IsInner-rows rows hs)

  pub over_text-printed :
      (rows : List A)
      → All Reads rows
      → over_text step context [] (printed cr (map line rows)) ≡ parsed rows
  unfolding over_text lines_with_offsets
  over_text-printed rows h =
      ap (λ pieces. over_lines step context [] (number_lines 0 0 pieces))
        (split_inclusive-printed cr (map line rows) (IsInner-rows rows h))
      ∙ over_lines-rows rows [] 0 0 h
