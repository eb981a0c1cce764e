-- ===== src/Monitor/Blame.antt =====
-- crates/princess-bin/src/monitor.rs: the line and the offset that a `ParseError` names.
use mathlib.Core.List.{append_assoc}
use mathlib.Core.Path.{subst}
use princess_ide.Prelude.{
  ℕ, ◌+◌, ◌≡◌, refl, sym, ap, ◌∙◌, ◌⊎◌, inl, inr, arith, List, [], ◌∷◌, ◌++◌, ◌==◌, length,
  Bool-cases,
}
use princess_ide.Str.{trim_end_matches}
use princess_ide.Monitor.Lines.{
  Reason, ParseError, Outcome, next, finish, refused, panicked, Reply, parsed, failed, over_lines,
  number_lines, lines_with_offsets, split_inclusive, glue, byte_len, over_text, is_line_end,
}

abbrev pub joined : List (List ℕ) → List ℕ
joined [] = []
joined (piece ∷ pieces) = piece ++ joined pieces

-- The refused line: the pieces of the text in front of it, which the parser takes, and the state that
-- it is then in; the piece itself; and the pieces after it.
pub record Blamed {S : Type 0} (step : S → List ℕ → Outcome S) (context : List ℕ) (s : S)
    (index offset : ℕ) (pieces : List (List ℕ)) (e : ParseError) : Type 0 where
  pub before : List (List ℕ)
  pub piece : List ℕ
  pub after : List (List ℕ)
  pub reached : S
  pub splits : pieces ≡ before ++ (piece ∷ after)
  pub takes : over_lines step context s (number_lines index offset before) ≡ parsed reached
  pub refuses : step reached (trim_end_matches is_line_end piece) ≡ refused e.text e.reason
  pub line_is : e.line ≡ index + length before + 1
  pub offset_is : e.byte_offset ≡ offset + byte_len (joined before)
  pub context_is : e.context ≡ context

byte_len-append : (s t : List ℕ) → byte_len (s ++ t) ≡ byte_len s + byte_len t
byte_len-append [] t = omega arith
byte_len-append (c ∷ s) t = omega (arith, byte_len-append s t)

module _ {S : Type 0} (step : S → List ℕ → Outcome S) (context : List ℕ) where
  Outcome-cases :
      (o : Outcome S)
      → ((t : S) × (o ≡ next t))
        ⊎ ((t : S) × (o ≡ finish t))
        ⊎ ((shown : List ℕ) × (why : Reason) × (o ≡ refused shown why))
        ⊎ (o ≡ panicked)
  Outcome-cases (next t) = inl (t, refl)
  Outcome-cases (finish t) = inr (inl (t, refl))
  Outcome-cases (refused shown why) = inr (inr (inl (shown, why, refl)))
  Outcome-cases panicked = inr (inr (inr refl))

  -- Pieces after one that the step takes.
  Blamed-cons :
      (s t : S) (index offset : ℕ) (piece : List ℕ) (pieces : List (List ℕ)) (e : ParseError)
      → step s (trim_end_matches is_line_end piece) ≡ next t
      → Blamed step context t (index + 1) (offset + byte_len piece) pieces e
      → Blamed step context s index offset (piece ∷ pieces) e
  unfolding over_lines number_lines
  Blamed-cons s t index offset piece pieces e h b = record {
    before = piece ∷ b.before;
    piece = b.piece;
    after = b.after;
    reached = b.reached;
    splits = ap (λ l. piece ∷ l) b.splits;
    takes = rw (over_lines, number_lines, h) b.takes;
    refuses = b.refuses;
    line_is = omega (arith, b.line_is);
    offset_is = omega (arith, b.offset_is, byte_len-append piece (joined b.before));
    context_is = b.context_is;
  }

  failed_inj : (e f : ParseError) → ◌≡◌ {A = Reply S} (failed e) (failed f) → e ≡ f
  failed_inj e f h = ground arith

  -- The first piece is the refused one.
  Blamed-here :
      (s : S) (index offset : ℕ) (piece : List ℕ) (pieces : List (List ℕ)) (e : ParseError)
      (shown : List ℕ) (why : Reason)
      → step s (trim_end_matches is_line_end piece) ≡ refused shown why
      → over_lines step context s (number_lines index offset (piece ∷ pieces)) ≡ failed e
      → Blamed step context s index offset (piece ∷ pieces) e
  unfolding over_lines number_lines
  Blamed-here s index offset piece pieces e shown why bad h =
      let at : ParseError = record {
        context = context;
        line = index + 1;
        byte_offset = offset;
        text = shown;
        reason = why;
      } in
      let here : Blamed step context s index offset (piece ∷ pieces) at = record {
        before = [];
        piece = piece;
        after = pieces;
        reached = s;
        splits = refl;
        takes = refl;
        refuses = bad;
        line_is = omega arith;
        offset_is = omega arith;
        context_is = refl;
      } in
      subst (Blamed step context s index offset (piece ∷ pieces))
        (failed_inj at e (rw (over_lines, number_lines, bad) at h)) here

  pub over_lines-Blamed :
      (pieces : List (List ℕ)) (s : S) (index offset : ℕ) (e : ParseError)
      → over_lines step context s (number_lines index offset pieces) ≡ failed e
      → Blamed step context s index offset pieces e
  unfolding over_lines number_lines
  over_lines-Blamed [] s index offset e h = absurd (ground arith)
  over_lines-Blamed (piece ∷ pieces) s index offset e h =
      elim (Outcome-cases (step s (trim_end_matches is_line_end piece))) [
        | inl (t, more) ↦ Blamed-cons s t index offset piece pieces e more (
            over_lines-Blamed pieces t (index + 1) (offset + byte_len piece) e
              (rw (over_lines, number_lines, more) at h))
        | inr (inl (t, stop)) ↦ absurd (ground (arith, stop))
        | inr (inr (inl (shown, why, bad))) ↦
            Blamed-here s index offset piece pieces e shown why bad h
        | inr (inr (inr bad)) ↦ absurd (ground (arith, bad))
      ]

joined-glue : (c : ℕ) (pieces : List (List ℕ)) → joined (glue c pieces) ≡ c ∷ joined pieces
joined-glue c [] = refl
joined-glue c (piece ∷ pieces) = refl

joined-split_inclusive : (text : List ℕ) → joined (split_inclusive text) ≡ text
unfolding split_inclusive
joined-split_inclusive [] = refl
joined-split_inclusive (c ∷ s) = elim (Bool-cases (c == 10)) [
  | inl feed ↦ rw (split_inclusive, feed) (ap (λ l. c ∷ l) (joined-split_inclusive s))
  | inr other ↦
      rw (split_inclusive, other)
        (joined-glue c (split_inclusive s) ∙ ap (λ l. c ∷ l) (joined-split_inclusive s))
]

joined-append : (ps qs : List (List ℕ)) → joined (ps ++ qs) ≡ joined ps ++ joined qs
joined-append [] qs = refl
joined-append (p ∷ ps) qs =
    ap (λ l. p ++ l) (joined-append ps qs) ∙ sym (append_assoc p (joined ps) (joined qs))

-- An error of a parser names one line of the text: the parser takes all pieces of the text in front of
-- it, its step refuses that line with the text and the reason of the error, the line's number is one
-- more than the number of those pieces, and the offset is the count of their bytes; the text is these
-- pieces, the line's piece and the rest in order.
pub over_text-Blamed :
    {S : Type 0} (step : S → List ℕ → Outcome S) (context : List ℕ) (s : S) (text : List ℕ)
    (e : ParseError)
    → over_text step context s text ≡ failed e
    → (b : Blamed step context s 0 0 (split_inclusive text) e) × (text
        ≡ joined b.before ++ (b.piece ++ joined b.after))
unfolding over_text lines_with_offsets
over_text-Blamed step context s text e h =
    let b = over_lines-Blamed step context (split_inclusive text) s 0 0 e h in
    (
      b,
      sym (joined-split_inclusive text)
          ∙ ap joined b.splits
          ∙ joined-append b.before (b.piece ∷ b.after),
    )
