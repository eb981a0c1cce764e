-- ===== src/Stream/Whole.antt =====
-- crates/princess-core/src/stream.rs: a valid stream comes out as its text.
use mathlib.Core.Path.{subst}
use mathlib.Core.List.{append_assoc, append-nil}
use princess_ide.Prelude.{
  ℕ, suc, ◌+◌, ◌≡◌, ◌⊎◌, refl, sym, ap, ◌∙◌, inl, inr, arith, true, none, some, List, [], ◌∷◌, ◌++◌,
  ◌==◌, All, length, length-append, take, drop, Bool-cases, ==_iff, Option-cases, take-append,
  drop-append, drop_beyond,
}
use princess_ide.Utf8.{from_utf8_lossy, lossy_from, is_utf8, utf8_error, cut_off, first_sequence}
use princess_ide.Utf8.Valid.{
  Valid, empty, Valid-is_utf8, Valid-from_utf8_lossy, Valid-utf8_error, is_utf8-Valid,
}
use princess_ide.Utf8.Cuts.{Parts, IsCut, Valid-feed, Valid-Known}
use princess_ide.Stream.{
  utf8, Chunk, Utf8Chunker, new, Taken, decoded, take_prefix, last_feed, take_lines, by_error,
  take_available, take_remainder, push, is_empty, Op, push_bytes, lines, available, emit, run,
  input, texts,
}

-- A chunk, if any, and a state that stand for a text together with the bytes to come.
pub record Stands (taken : Taken) (later text : List ℕ) : Type 0 where
  pub given : List ℕ
  pub kept : List ℕ
  pub valid : Valid (taken.1.pending ++ later) kept
  pub splits : text ≡ given ++ kept
  pub chunk :
      ((taken.0 ≡ none) × (given ≡ []))
      ⊎ ((c : Chunk) × (taken.0 ≡ some c) × (c.text ≡ given) × (c.encoding ≡ utf8))

decoded-Valid :
    (bytes text : List ℕ)
    → Valid bytes text
    → ((decoded bytes).text ≡ text) × ((decoded bytes).encoding ≡ utf8)
unfolding decoded
decoded-Valid bytes text v = (Valid-from_utf8_lossy v, rw (Valid-is_utf8 v) refl)

-- Nothing taken.
none-Stands :
    (c : Utf8Chunker) (later text : List ℕ)
    → Valid (c.pending ++ later) text
    → Stands (none, c) later text
none-Stands c later text v = record {
  given = [];
  kept = text;
  valid = v;
  splits = refl;
  chunk = inl (refl, refl);
}

-- A prefix that is valid.
take_prefix-Stands :
    (c : Utf8Chunker) (front back later text : List ℕ)
    → c.pending ≡ front ++ back
    → Parts front (back ++ later) text
    → Stands (take_prefix c (length front)) later text
unfolding take_prefix
take_prefix-Stands c front back later text e p =
    let taken : take (length front) c.pending ≡ front =
      ap (take (length front)) e ∙ take-append front back in
    let left : drop (length front) c.pending ≡ back =
      ap (drop (length front)) e ∙ drop-append front back in
    let (said, clean) = decoded-Valid front p.text1 p.valid1 in
    record {
      given = p.text1;
      kept = p.text2;
      valid = subst (λ l. Valid (l ++ later) p.text2) (sym left) p.valid2;
      splits = p.splits;
      chunk = inr (
        decoded (take (length front) c.pending),
        refl,
        ap (λ l. (decoded l).text) taken ∙ said,
        ap (λ l. (decoded l).encoding) taken ∙ clean,
      );
    }

length_nil : (s : List ℕ) → length s ≡ 0 → s ≡ []
length_nil [] h = refl
length_nil (c ∷ s) h = absurd (omega arith)

-- The place of the last line feed.
last_feed-splits :
    (bytes : List ℕ) (i : ℕ)
    → last_feed bytes ≡ some i
    → (before : List ℕ) × (after : List ℕ) × (bytes ≡ before ++ (10 ∷ after)) × (length before ≡ i)
unfolding last_feed
last_feed-splits [] i h = absurd (ground arith)
last_feed-splits (b ∷ bytes) i h = elim (Option-cases (last_feed bytes)) [
  | inr (j, there) ↦
      let (before, after, e, size) = last_feed-splits bytes j there in
      let at : suc j ≡ i = ground (arith, there) in
      (b ∷ before, after, ap (λ l. b ∷ l) e, ap suc size ∙ at)
  | inl nothing ↦ elim (Bool-cases (b == 10)) [
    | inl feed ↦
        ([], bytes, ap (λ n. n ∷ bytes) ((==_iff b 10).0 feed), ground (arith, nothing, feed))
    | inr other ↦ absurd (ground (arith, nothing, other))
  ]
]

take_lines-Stands :
    (c : Utf8Chunker) (later text : List ℕ)
    → Valid (c.pending ++ later) text
    → Stands (take_lines c) later text
unfolding take_lines
take_lines-Stands c later text v = elim (Option-cases (last_feed c.pending)) [
  | inl nothing ↦ rw (take_lines, nothing) (none-Stands c later text v)
  | inr (i, there) ↦
      let (before, after, e, size) = last_feed-splits c.pending i there in
      let joined : c.pending ++ later ≡ before ++ (10 ∷ (after ++ later)) =
        ap (λ l. l ++ later) e ∙ append_assoc before (10 ∷ after) later in
      let cut : length (before ++ (10 ∷ [])) ≡ i + 1 =
        omega (arith, length-append before (10 ∷ []), size) in
      let stands =
        take_prefix-Stands c (before ++ (10 ∷ [])) after later text
          (e ∙ sym (append_assoc before (10 ∷ []) after))
          (Valid-feed before (after ++ later) v joined) in
      rw (take_lines, there) (subst (λ n. Stands (take_prefix c n) later text) cut stands)
]

-- The error of a front that is valid and a back that is cut.
utf8_error-cut :
    (at b : ℕ) (bytes : List ℕ)
    → first_sequence b bytes ≡ cut_off
    → utf8_error at 0 (b ∷ bytes) ≡ some (at, none)
unfolding utf8_error
utf8_error-cut at b bytes h = rw (utf8_error, h) refl

by_error-Stands :
    (c : Utf8Chunker) (later text front back : List ℕ)
    → c.pending ≡ front ++ back
    → IsCut back
    → Parts front (back ++ later) text
    → Valid (c.pending ++ later) text
    → Stands (by_error c (utf8_error 0 0 c.pending)) later text
by_error-Stands c later text front [] e cut p v =
    let plain : c.pending ≡ front = e ∙ append-nil front in
    let error : utf8_error 0 0 c.pending ≡ none =
      ap (utf8_error 0 0) e ∙ Valid-utf8_error 0 [] p.valid1 ∙ (unfold utf8_error in refl) in
    let stands = take_prefix-Stands c front [] later text e p in
    rw error (subst (λ n. Stands (take_prefix c n) later text) (ap length (sym plain)) stands)
by_error-Stands c later text front (b ∷ back) e cut p v =
    let error : utf8_error 0 0 c.pending ≡ some (length front, none) =
      ap (utf8_error 0 0) e
      ∙ Valid-utf8_error 0 (b ∷ back) p.valid1
      ∙ utf8_error-cut (0 + length front) b back cut
      ∙ ap (λ n. some (n, none)) (omega arith) in
    rw error (elim (Bool-cases (length front == 0)) [
      | inl nothing ↦ rw nothing (none-Stands c later text v)
      | inr some_front ↦ rw some_front (take_prefix-Stands c front (b ∷ back) later text e p)
    ])

take_available-Stands :
    (c : Utf8Chunker) (later text : List ℕ)
    → Valid (c.pending ++ later) text
    → Stands (take_available c) later text
unfolding take_available
take_available-Stands c later text v =
    let known = Valid-Known c.pending later v refl in
    elim (Bool-cases (is_empty c)) [
      | inl none_there ↦ rw (take_available, none_there) (none-Stands c later text v)
      | inr some_there ↦
          rw (take_available, some_there)
            (by_error-Stands c later text known.front known.back known.joins known.cut known.parts
              v)
    ]

take_remainder-Stands :
    (c : Utf8Chunker) (text : List ℕ) → Valid c.pending text → Stands (take_remainder c) [] text
unfolding take_remainder
take_remainder-Stands c text v = elim (Bool-cases (is_empty c)) [
  | inl none_there ↦
      rw (take_remainder, none_there)
        (none-Stands c [] text (subst (λ l. Valid l text) (sym (append-nil c.pending)) v))
  | inr some_there ↦
      rw (take_remainder, some_there)
        (take_prefix-Stands c c.pending [] [] text (sym (append-nil c.pending)) record {
          text1 = text;
          text2 = [];
          valid1 = v;
          valid2 = empty;
          splits = sym (append-nil text);
        })
]

-- Chunks that are the text, each marked as UTF-8.
abbrev pub AreText : List Chunk → List ℕ → Type 0
AreText chunks text = (texts chunks ≡ text) × All (λ chunk. chunk.encoding ≡ utf8) chunks

AreText-emit :
    (taken : Taken) (chunks : List Chunk) (later text : List ℕ)
    → (s : Stands taken later text) → AreText chunks s.kept
    → AreText (emit taken.0 chunks) text
AreText-emit taken chunks later text s (same, clean) = elim s.chunk [
  | inl (nothing, blank) ↦
      rw nothing ((same ∙ ap (λ l. l ++ s.kept) (sym blank) ∙ sym s.splits, clean))
  | inr (c, there, said, marked) ↦
      rw there
        ((ap (λ l. c.text ++ l) same ∙ ap (λ l. l ++ s.kept) said ∙ sym s.splits, (marked, clean)))
]

Valid-nil : (text : List ℕ) → Valid [] text → text ≡ []
Valid-nil text v = sym (Valid-from_utf8_lossy v) ∙ (unfold from_utf8_lossy lossy_from in refl)

-- After the remainder no bytes are pending.
pub take_remainder-nothing : (c : Utf8Chunker) → (take_remainder c).1.pending ≡ []
unfolding take_remainder take_prefix
take_remainder-nothing c = elim (Bool-cases (is_empty c)) [
  | inl none_there ↦
      rw (take_remainder, none_there) (length_nil c.pending ((==_iff _ 0).0 none_there))
  | inr some_there ↦
      rw (take_remainder, some_there) (drop_beyond (length c.pending) c.pending (omega arith))
]

run-AreText :
    (ops : List Op) (c : Utf8Chunker) (text : List ℕ)
    → Valid (c.pending ++ input ops) text
    → AreText (run c ops) text
unfolding run push
run-AreText [] c text v =
    let plain = subst (λ l. Valid l text) (append-nil c.pending) v in
    let s = take_remainder-Stands c text plain in
    let nothing : s.kept ≡ [] = Valid-nil s.kept (
      subst (λ l. Valid l s.kept)
        (append-nil (take_remainder c).1.pending ∙ take_remainder-nothing c) s.valid) in
    AreText-emit (take_remainder c) [] [] text s (sym nothing, tt)
run-AreText (push_bytes bytes ∷ ops) c text v =
    run-AreText ops (push c bytes) text
      (subst (λ l. Valid l text) (sym (append_assoc c.pending bytes (input ops))) v)
run-AreText (lines ∷ ops) c text v =
    let s = take_lines-Stands c (input ops) text v in
    AreText-emit (take_lines c) (run (take_lines c).1 ops) (input ops) text s
      (run-AreText ops (take_lines c).1 s.kept s.valid)
run-AreText (available ∷ ops) c text v =
    let s = take_available-Stands c (input ops) text v in
    AreText-emit (take_available c) (run (take_available c).1 ops) (input ops) text s
      (run-AreText ops (take_available c).1 s.kept s.valid)

-- No code point is split: when the bytes of all pushes together are UTF-8, then however they are split
-- into pushes and whatever chunks are taken between them, all chunks are marked as UTF-8 and their
-- texts, with the remainder's at the end, are one after another the text of the whole stream.
pub run-Whole :
    (ops : List Op)
    → is_utf8 (input ops) ≡ true
    → (texts (run new ops) ≡ from_utf8_lossy (input ops))
      × All (λ chunk. chunk.encoding ≡ utf8) (run new ops)
run-Whole ops h =
    let (text, v) = is_utf8-Valid (input ops) h in
    let (same, clean) = run-AreText ops new text v in (same ∙ sym (Valid-from_utf8_lossy v), clean)
