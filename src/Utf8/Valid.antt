-- ===== src/Utf8/Valid.antt =====
-- Bytes that are characters one after another, and what their parts are.
use mathlib.Core.List.{append_assoc}
use princess_ide.Prelude.{
  ℕ, zero, suc, ◌+◌, ◌≤◌, ◌≡◌, ◌⊎◌, refl, sym, ap, ◌∙◌, inl, inr, arith, true, List, [], ◌∷◌, ◌++◌,
  length, length-append,
}
use princess_ide.Utf8.{
  Sequence, whole, ill_formed, cut_off, first_sequence, lossy_from, from_utf8_lossy, is_utf8_from,
  is_utf8, utf8_error,
}
use princess_ide.Utf8.Sequences.{IsSequence, first_sequence-Front}

pub data Valid : List ℕ → List ℕ → Type 0 where
  empty : Valid [] []
  character :
      (b : ℕ) (xs : List ℕ) (code : ℕ) {bytes rest text : List ℕ}
      → IsSequence b xs code
      → bytes ≡ b ∷ (xs ++ rest)
      → Valid rest text
      → Valid bytes (code ∷ text)

pub Valid-append : {a s c t : List ℕ} → Valid a s → Valid c t → Valid (a ++ c) (s ++ t)
Valid-append empty k = k
Valid-append {c = c} (character b xs code {rest = rest} seq e v) k =
    character b xs code seq (ap (λ l. l ++ c) e ∙ ap (λ l. b ∷ l) (append_assoc xs rest c))
      (Valid-append v k)

-- The functions over the bytes of one sequence.
is_utf8_from-skip : (xs rest : List ℕ) → is_utf8_from (length xs) (xs ++ rest) ≡ is_utf8_from 0 rest
unfolding is_utf8_from
is_utf8_from-skip [] rest = refl
is_utf8_from-skip (x ∷ xs) rest = is_utf8_from-skip xs rest

lossy_from-skip : (xs rest : List ℕ) → lossy_from (length xs) (xs ++ rest) ≡ lossy_from 0 rest
unfolding lossy_from
lossy_from-skip [] rest = refl
lossy_from-skip (x ∷ xs) rest = lossy_from-skip xs rest

utf8_error-skip :
    (at : ℕ) (xs rest : List ℕ)
    → utf8_error at (length xs) (xs ++ rest) ≡ utf8_error (at + length xs) 0 rest
unfolding utf8_error
utf8_error-skip at [] rest = ap (λ n. utf8_error n 0 rest) (omega arith)
utf8_error-skip at (x ∷ xs) rest =
    utf8_error-skip (at + 1) xs rest ∙ ap (λ n. utf8_error n 0 rest) (omega arith)

is_utf8_from-character :
    (b : ℕ) (xs : List ℕ) (code : ℕ) (rest : List ℕ)
    → IsSequence b xs code
    → is_utf8_from 0 (b ∷ (xs ++ rest)) ≡ is_utf8_from 0 rest
unfolding is_utf8_from
is_utf8_from-character b xs code rest seq =
    rw (is_utf8_from, seq.agrees rest) (is_utf8_from-skip xs rest)

lossy_from-character :
    (b : ℕ) (xs : List ℕ) (code : ℕ) (rest : List ℕ)
    → IsSequence b xs code
    → lossy_from 0 (b ∷ (xs ++ rest)) ≡ code ∷ lossy_from 0 rest
unfolding lossy_from
lossy_from-character b xs code rest seq =
    rw (lossy_from, seq.agrees rest) (ap (λ l. code ∷ l) (lossy_from-skip xs rest))

utf8_error-character :
    (at b : ℕ) (xs : List ℕ) (code : ℕ) (rest : List ℕ)
    → IsSequence b xs code
    → utf8_error at 0 (b ∷ (xs ++ rest)) ≡ utf8_error (at + (1 + length xs)) 0 rest
unfolding utf8_error
utf8_error-character at b xs code rest seq =
    rw (utf8_error, seq.agrees rest)
      (utf8_error-skip (at + 1) xs rest ∙ ap (λ n. utf8_error n 0 rest) (omega arith))

-- Valid bytes are taken, as the characters that they are.
pub Valid-is_utf8 : {bytes text : List ℕ} → Valid bytes text → is_utf8 bytes ≡ true
unfolding is_utf8
Valid-is_utf8 empty = unfold is_utf8_from in refl
Valid-is_utf8 (character b xs code {rest = rest} seq e v) =
    ap (is_utf8_from 0) e ∙ is_utf8_from-character b xs code rest seq ∙ Valid-is_utf8 v

pub Valid-from_utf8_lossy : {bytes text : List ℕ} → Valid bytes text → from_utf8_lossy bytes ≡ text
unfolding from_utf8_lossy
Valid-from_utf8_lossy empty = unfold lossy_from in refl
Valid-from_utf8_lossy (character b xs code {rest = rest} seq e v) =
    ap (lossy_from 0) e
    ∙ lossy_from-character b xs code rest seq
    ∙ ap (λ l. code ∷ l) (Valid-from_utf8_lossy v)

-- No error in valid bytes: it is looked for after them.
pub Valid-utf8_error :
    {bytes text : List ℕ} (at : ℕ) (rest : List ℕ)
    → Valid bytes text
    → utf8_error at 0 (bytes ++ rest) ≡ utf8_error (at + length bytes) 0 rest
Valid-utf8_error at rest empty = ap (λ n. utf8_error n 0 rest) (omega arith)
Valid-utf8_error {bytes} at rest (character b xs code {rest = more} seq e v) =
    let size : length bytes ≡ 1 + (length xs + length more) =
      omega (arith, ap length e, length-append xs more) in
    ap (λ l. utf8_error at 0 (l ++ rest)) e
    ∙ ap (λ l. utf8_error at 0 (b ∷ l)) (append_assoc xs more rest)
    ∙ utf8_error-character at b xs code (more ++ rest) seq
    ∙ Valid-utf8_error (at + (1 + length xs)) rest v
    ∙ ap (λ n. utf8_error n 0 rest) (omega (arith, size))

-- What `from_utf8` takes is valid.
Sequence-cases :
    (s : Sequence)
    → ((more : ℕ) × (code : ℕ) × (s ≡ whole more code))
      ⊎ ((more : ℕ) × (s ≡ ill_formed more))
      ⊎ (s ≡ cut_off)
Sequence-cases (whole more code) = inl (more, code, refl)
Sequence-cases (ill_formed more) = inr (inl (more, refl))
Sequence-cases cut_off = inr (inr refl)

Valid-of :
    (fuel : ℕ) (bytes : List ℕ)
    → length bytes ≤ fuel
    → is_utf8_from 0 bytes ≡ true
    → (text : List ℕ) × Valid bytes text
unfolding is_utf8_from
Valid-of fuel [] enough h = ([], empty)
Valid-of zero (b ∷ bytes) enough h = absurd (omega arith)
Valid-of (suc fuel) (b ∷ bytes) enough h = elim (Sequence-cases (first_sequence b bytes)) [
  | inr (inl (more, bad)) ↦ absurd (ground (arith, bad))
  | inr (inr cut) ↦ absurd (ground (arith, cut))
  | inl (more, code, good) ↦
      let f = first_sequence-Front b bytes more code good in
      let whole_text = ap (λ l. b ∷ l) f.splits in
      let later =
        sym (ap (is_utf8_from 0) whole_text ∙ is_utf8_from-character b f.xs code f.rest f.sequence)
        ∙ h in
      let size = ap length f.splits ∙ length-append f.xs f.rest in
      let (text, v) = Valid-of fuel f.rest (omega (arith, size)) later in
      (code ∷ text, character b f.xs code f.sequence whole_text v)
]

pub is_utf8-Valid : (bytes : List ℕ) → is_utf8 bytes ≡ true → (text : List ℕ) × Valid bytes text
unfolding is_utf8
is_utf8-Valid bytes h = Valid-of (length bytes) bytes (omega arith) h
