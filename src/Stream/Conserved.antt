-- ===== src/Stream/Conserved.antt =====
-- crates/princess-core/src/stream.rs: every byte comes out once, in order.
use mathlib.Core.List.{append_assoc, append-nil}
use princess_ide.Prelude.{
  take-drop, ℕ, ◌+◌, ◌≡◌, ◌⊎◌, refl, sym, ap, ◌∙◌, inl, inr, Option, none, some, List, [], ◌∷◌,
  ◌++◌, ◌==◌, map, length, take, drop, Bool-cases, Option-cases,
}
use princess_ide.Utf8.{utf8_error}
use princess_ide.Stream.{
  Chunk, Utf8Chunker, new, Taken, decoded, take_prefix, last_feed, take_lines, by_error,
  take_available, take_remainder, push, is_empty, Op, push_bytes, lines, available, emit, run,
  input,
}
use princess_ide.Stream.Whole.{take_remainder-nothing}

abbrev pub joined : List (List ℕ) → List ℕ
joined [] = []
joined (piece ∷ pieces) = piece ++ joined pieces

-- A taking method leaves the state alone, or takes a prefix.
abbrev IsTaking : Utf8Chunker → Taken → Type 0
IsTaking c taken = (taken ≡ (none, c)) ⊎ ((cut : ℕ) × (taken ≡ take_prefix c cut))

take_lines-IsTaking : (c : Utf8Chunker) → IsTaking c (take_lines c)
unfolding take_lines
take_lines-IsTaking c = elim (Option-cases (last_feed c.pending)) [
  | inl nothing ↦ inl (rw (take_lines, nothing) refl)
  | inr (i, there) ↦ inr (i + 1, rw (take_lines, there) refl)
]

by_error-IsTaking : (c : Utf8Chunker) (e : Option (ℕ × Option ℕ)) → IsTaking c (by_error c e)
by_error-IsTaking c none = inr (length c.pending, refl)
by_error-IsTaking c (some (valid, none)) = elim (Bool-cases (valid == 0)) [
  | inl nothing ↦ inl (rw nothing refl)
  | inr front ↦ inr (valid, rw front refl)
]
by_error-IsTaking c (some (valid, some n)) = inr (valid + n, refl)

take_available-IsTaking : (c : Utf8Chunker) → IsTaking c (take_available c)
unfolding take_available
take_available-IsTaking c = elim (Bool-cases (is_empty c)) [
  | inl nothing ↦ inl (rw (take_available, nothing) refl)
  | inr there ↦ rw (take_available, there) (by_error-IsTaking c (utf8_error 0 0 c.pending))
]

take_remainder-IsTaking : (c : Utf8Chunker) → IsTaking c (take_remainder c)
unfolding take_remainder
take_remainder-IsTaking c = elim (Bool-cases (is_empty c)) [
  | inl nothing ↦ inl (rw (take_remainder, nothing) refl)
  | inr there ↦ inr (length c.pending, rw (take_remainder, there) refl)
]

-- Pieces of some bytes, and the chunks that are made of them.
abbrev Pieces : List Chunk → List ℕ → Type 0
Pieces chunks bytes =
    (pieces : List (List ℕ)) × (joined pieces ≡ bytes) × (chunks ≡ map decoded pieces)

emit-Pieces :
    (c : Utf8Chunker) (taken : Taken) (chunks : List Chunk) (later : List ℕ)
    → IsTaking c taken
    → Pieces chunks (taken.1.pending ++ later)
    → Pieces (emit taken.0 chunks) (c.pending ++ later)
unfolding take_prefix
emit-Pieces c taken chunks later (inl same) (pieces, all, made) =
    (pieces, all ∙ ap (λ t. t.1.pending ++ later) same, ap (λ t. emit t.0 chunks) same ∙ made)
emit-Pieces c taken chunks later (inr (cut, prefix)) (pieces, all, made) = (
  take cut c.pending ∷ pieces,
  ap (λ l. take cut c.pending ++ l) (all ∙ ap (λ t. t.1.pending ++ later) prefix)
      ∙ sym (append_assoc (take cut c.pending) (drop cut c.pending) later)
      ∙ ap (λ l. l ++ later) (take-drop cut c.pending),
  ap (λ t. emit t.0 chunks) prefix ∙ ap (λ l. decoded (take cut c.pending) ∷ l) made,
)

run-Pieces : (ops : List Op) (c : Utf8Chunker) → Pieces (run c ops) (c.pending ++ input ops)
unfolding run push
run-Pieces [] c =
    emit-Pieces c (take_remainder c) [] [] (take_remainder-IsTaking c)
      ([], sym (append-nil (take_remainder c).1.pending ∙ take_remainder-nothing c), refl)
run-Pieces (push_bytes bytes ∷ ops) c =
    let (pieces, all, made) = run-Pieces ops (push c bytes) in
    (pieces, all ∙ append_assoc c.pending bytes (input ops), made)
run-Pieces (lines ∷ ops) c =
    emit-Pieces c (take_lines c) (run (take_lines c).1 ops) (input ops) (take_lines-IsTaking c)
      (run-Pieces ops (take_lines c).1)
run-Pieces (available ∷ ops) c =
    emit-Pieces c (take_available c) (run (take_available c).1 ops) (input ops)
      (take_available-IsTaking c) (run-Pieces ops (take_available c).1)

-- For any bytes pushed and any chunks taken between the pushes, the pushed bytes are the bytes of the
-- chunks one after another, the remainder's included: no byte is lost, doubled or moved, and each
-- chunk is its bytes decoded, with replacement and the mark for it where they are not UTF-8.
pub run-conserved :
    (ops : List Op)
    → (pieces : List (List ℕ)) × (joined pieces ≡ input ops) × (run new ops ≡ map decoded pieces)
run-conserved ops = run-Pieces ops new
