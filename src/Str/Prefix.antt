-- ===== src/Str/Prefix.antt =====
-- What a prefix and a pattern found in a text say of the text.
use princess_ide.Prelude.{
  ℕ, ◌≡◌, refl, sym, ap, ◌∙◌, inl, inr, arith, true, false, Option, none, some, List, [], ◌∷◌, ◌++◌,
  ◌==◌, if◌then◌else◌, Option-cases, Bool-cases, ==_iff,
}
use princess_ide.Str.{
  strip_prefix, split_once, first_word, is_whitespace, all_chars, words_from, split_whitespace,
}

pub strip_prefix-append :
    (prefix s rest : List ℕ) → strip_prefix prefix s ≡ some rest → s ≡ prefix ++ rest
unfolding strip_prefix
strip_prefix-append [] s rest h = ground arith
strip_prefix-append (p ∷ ps) [] rest h = absurd (ground arith)
strip_prefix-append (p ∷ ps) (c ∷ s) rest h = elim (Bool-cases (p == c)) [
  | inl same ↦
      let e = (==_iff p c).0 same in
      let go =
        strip_prefix-append ps s rest
          (sym (ap (λ b. if b then strip_prefix ps s else none) same) ∙ h) in
      rw (go, e) refl
  | inr other ↦ absurd (ground arith)
]

pub split_once-append :
    (pattern s before after : List ℕ)
    → split_once pattern s ≡ some (before, after)
    → s ≡ before ++ (pattern ++ after)
unfolding split_once
split_once-append pattern [] before after h = elim (Option-cases (strip_prefix pattern [])) [
  | inl nothing ↦ absurd (ground (arith, nothing))
  | inr (rest, there) ↦
      let eb : [] ≡ before = ground (arith, there) in
      let ea : rest ≡ after = ground (arith, there) in
      rw (← eb, ← ea) (strip_prefix-append pattern [] rest there)
]
split_once-append pattern (c ∷ s) before after h =
    elim (Option-cases (strip_prefix pattern (c ∷ s))) [
      | inl nothing ↦ elim (Option-cases (split_once pattern s)) [
        | inl missing ↦ absurd (ground (arith, nothing, missing))
        | inr ((b, a), there) ↦
            let go = split_once-append pattern s b a there in
            let eb : c ∷ b ≡ before = ground (arith, nothing, there) in
            let ea : a ≡ after = ground (arith, nothing, there) in
            rw (← eb, ← ea) (ap (λ l. c ∷ l) go)
      ]
      | inr (rest, there) ↦
          let eb : [] ≡ before = ground (arith, there) in
          let ea : rest ≡ after = ground (arith, there) in
          rw (← eb, ← ea) (strip_prefix-append pattern (c ∷ s) rest there)
    ]

words_from-append : (s : List ℕ) → (after : List ℕ) × (s ≡ (words_from s).0 ++ after)
words_from-append [] = ([], refl)
words_from-append (c ∷ s) = elim (Bool-cases (is_whitespace c)) [
  | inl space ↦ (c ∷ s, rw space refl)
  | inr letter ↦ let (after, e) = words_from-append s in (after, rw letter (ap (λ l. c ∷ l) e))
]

first_word-space : (c : ℕ) (s : List ℕ) → is_whitespace c ≡ true → first_word (c ∷ s) ≡ first_word s
unfolding split_whitespace
first_word-space c s space = rw (first_word, split_whitespace, words_from, space) refl

first_word-letter :
    (c : ℕ) (s : List ℕ)
    → is_whitespace c ≡ false
    → first_word (c ∷ s) ≡ some (c ∷ (words_from s).0)
unfolding split_whitespace
first_word-letter c s letter = rw (first_word, split_whitespace, words_from, letter) refl

some_inj : {s t : List ℕ} → ◌≡◌ {A = Option (List ℕ)} (some s) (some t) → s ≡ t
some_inj h = ground arith

-- The first word of a text stands in it behind white space.
pub first_word-append :
    (s word : List ℕ)
    → first_word s ≡ some word
    → (before : List ℕ) × (after : List ℕ) × (all_chars is_whitespace before ≡ true)
      × (s ≡ before ++ (word ++ after))
unfolding split_whitespace
first_word-append [] word h = absurd (ground arith)
first_word-append (c ∷ s) word h = elim (Bool-cases (is_whitespace c)) [
  | inl space ↦
      let go : first_word s ≡ some word = sym (first_word-space c s space) ∙ h in
      let (before, after, blank, e) = first_word-append s word go in
      (c ∷ before, after, rw (space) blank, ap (λ l. c ∷ l) e)
  | inr letter ↦
      let (after, e) = words_from-append s in
      let same : c ∷ (words_from s).0 ≡ word = some_inj (sym (first_word-letter c s letter) ∙ h) in
      ([], after, refl, ap (λ l. c ∷ l) e ∙ ap (λ w. w ++ after) same)
]
