-- ===== src/Str/Words.antt =====
-- Words joined by spaces, taken apart again.
use princess_ide.Prelude.{ℕ, ◌≡◌, refl, ap, ◌∙◌, Bool, false, List, [], ◌∷◌, ◌++◌, All}
use princess_ide.Str.{
  is_whitespace, keep, trim, trim_end_matches, end_word, words_from, split_whitespace,
}
use princess_ide.Str.Trim.{All-append}

abbrev pub Solid : List ℕ → Type 0
Solid s = All (λ c. is_whitespace c ≡ false) s

abbrev pub IsWord : List ℕ → Type 0
IsWord [] = ⊥
IsWord (c ∷ w) = Solid (c ∷ w)

abbrev pub spaced : List (List ℕ) → List ℕ
spaced [] = []
spaced (w ∷ []) = w
spaced (w ∷ v ∷ ws) = w ++ (32 ∷ spaced (v ∷ ws))

words_from_word : (w : List ℕ) → Solid w → words_from w ≡ (w, [])
words_from_word [] h = refl
words_from_word (c ∷ w) (h, hs) = rw (words_from, h, words_from_word w hs) refl

words_from_space : (s : List ℕ) → words_from (32 ∷ s) ≡ ([], split_whitespace s)
unfolding split_whitespace is_whitespace
words_from_space s = refl

words_from-append : (w s : List ℕ) → Solid w → words_from (w ++ (32 ∷ s)) ≡ (w, split_whitespace s)
words_from-append [] s h = words_from_space s
words_from-append (c ∷ w) s (h, hs) = rw (words_from, h, words_from-append w s hs) refl

-- The words, of at least one character each, of a text that joins them.
pub split_whitespace-spaced :
    (ws : List (List ℕ)) → All IsWord ws → split_whitespace (spaced ws) ≡ ws
unfolding split_whitespace
split_whitespace-spaced [] h = refl
split_whitespace-spaced ([] ∷ ws) (h, hs) = absurd h
split_whitespace-spaced ((c ∷ w) ∷ []) (h, hs) =
    ap (λ p. end_word p.0 p.1) (words_from_word (c ∷ w) h)
split_whitespace-spaced ((c ∷ w) ∷ v ∷ ws) (h, hs) =
    ap (λ p. end_word p.0 p.1) (words_from-append (c ∷ w) (spaced (v ∷ ws)) h)
    ∙ ap (λ l. (c ∷ w) ∷ l) (split_whitespace-spaced (v ∷ ws) hs)

-- What no trimming shortens.
abbrev Kept : (ℕ → Bool) → List ℕ → Type 0
Kept p [] = ⊥
Kept p (c ∷ s) = trim_end_matches p (c ∷ s) ≡ c ∷ s

Kept-cons : (p : ℕ → Bool) (c : ℕ) (s : List ℕ) → Kept p s → Kept p (c ∷ s)
Kept-cons p c [] h = absurd h
Kept-cons p c (d ∷ s) h = ap (keep p c) h

Kept-append : (p : ℕ → Bool) (s t : List ℕ) → Kept p t → Kept p (s ++ t)
Kept-append p [] t h = h
Kept-append p (c ∷ s) t h = Kept-cons p c (s ++ t) (Kept-append p s t h)

Kept-Solid : (c : ℕ) (w : List ℕ) → Solid (c ∷ w) → Kept is_whitespace (c ∷ w)
Kept-Solid c [] (h, hs) = rw h refl
Kept-Solid c (d ∷ w) (h, hs) = Kept-cons is_whitespace c (d ∷ w) (Kept-Solid d w hs)

Kept-spaced :
    (w : List ℕ) (ws : List (List ℕ)) → All IsWord (w ∷ ws) → Kept is_whitespace (spaced (w ∷ ws))
Kept-spaced [] ws (h, hs) = absurd h
Kept-spaced (c ∷ w) [] (h, hs) = Kept-Solid c w h
Kept-spaced (c ∷ w) (v ∷ ws) (h, hs) =
    Kept-append is_whitespace (c ∷ w) (32 ∷ spaced (v ∷ ws))
      (Kept-cons is_whitespace 32 (spaced (v ∷ ws)) (Kept-spaced v ws hs))

trim-Kept :
    (c : ℕ) (s : List ℕ)
    → is_whitespace c ≡ false
    → Kept is_whitespace (c ∷ s)
    → trim (c ∷ s) ≡ c ∷ s
unfolding trim
trim-Kept c s h k = rw (trim, h) k

-- Trimming leaves joined words alone.
pub trim-spaced : (ws : List (List ℕ)) → All IsWord ws → trim (spaced ws) ≡ spaced ws
trim-spaced [] h = unfold trim in refl
trim-spaced ([] ∷ ws) (h, hs) = absurd h
trim-spaced ((c ∷ w) ∷ []) (h, hs) = trim-Kept c w h.0 (Kept-spaced (c ∷ w) [] (h, hs))
trim-spaced ((c ∷ w) ∷ v ∷ ws) (h, hs) =
    trim-Kept c (w ++ (32 ∷ spaced (v ∷ ws))) h.0 (Kept-spaced (c ∷ w) (v ∷ ws) (h, hs))

-- A property of the space and of the characters of all words holds all over the text.
pub All-spaced : (P : ℕ → Type 0) (ws : List (List ℕ)) → P 32 → All (All P) ws → All P (spaced ws)
All-spaced P [] h hs = tt
All-spaced P (w ∷ []) h (k, ks) = k
All-spaced P (w ∷ v ∷ ws) h (k, ks) =
    All-append P w (32 ∷ spaced (v ∷ ws)) k (h, All-spaced P (v ∷ ws) h ks)
