-- ===== src/Sse/Frames.antt =====
-- `find_frame_end` on a growing buffer: a frame end that was found stays the first one.
use princess_ide.Prelude.{
  ℕ, zero, suc, ◌+◌, ◌<◌, ◌≤◌, ◌≡◌, refl, sym, ap, ◌∙◌, arith, none, some, List, [], ◌∷◌, ◌++◌,
  length, take, drop, Option-cases, inl, inr,
}
use princess_ide.Sse.{blank_line, find_from, find_frame_end}

-- A blank line that was found stays where more bytes arrive.
blank_line-append : (x y : List ℕ) (n : ℕ) → blank_line x ≡ some n → blank_line (x ++ y) ≡ some n
unfolding blank_line
blank_line-append [] y n h = absurd (ground arith)
blank_line-append (a ∷ []) y n h = absurd (ground arith)
blank_line-append (a ∷ b ∷ []) y n h = ground arith
blank_line-append (a ∷ b ∷ c ∷ []) y n h = ground arith
blank_line-append (a ∷ b ∷ c ∷ d ∷ x) y n h = h

blank_line_bounds : (x : List ℕ) (n : ℕ) → blank_line x ≡ some n → (2 ≤ n) × (n ≤ length x)
unfolding blank_line
blank_line_bounds [] n h = absurd (ground arith)
blank_line_bounds (a ∷ []) n h = absurd (ground arith)
blank_line_bounds (a ∷ b ∷ []) n h = ground arith
blank_line_bounds (a ∷ b ∷ c ∷ []) n h = ground arith
blank_line_bounds (a ∷ b ∷ c ∷ d ∷ x) n h = ground arith

-- More bytes make no blank line appear before one that was found.
blank_line-later :
    (a : ℕ) (x y : List ℕ) (i : ℕ) (r : ℕ × ℕ)
    → blank_line (a ∷ x) ≡ none
    → find_from i x ≡ some r
    → blank_line (a ∷ x ++ y) ≡ none
unfolding blank_line find_from
blank_line-later a [] y i r h f = absurd (ground arith)
blank_line-later a (b ∷ []) y i r h f = absurd (ground arith)
blank_line-later a (b ∷ c ∷ []) y i r h f = ground arith
blank_line-later a (b ∷ c ∷ d ∷ x) y i r h f = h

find_here :
    (a : ℕ) (x : List ℕ) (i n : ℕ)
    → blank_line (a ∷ x) ≡ some n
    → find_from i (a ∷ x) ≡ some (i, i + n)
unfolding find_from
find_here a x i n h = rw (find_from, h) refl

find_later :
    (a : ℕ) (x : List ℕ) (i : ℕ)
    → blank_line (a ∷ x) ≡ none
    → find_from i (a ∷ x) ≡ find_from (i + 1) x
unfolding find_from
find_later a x i h = rw (find_from, h) refl

pub find_from-append :
    (x y : List ℕ) (i : ℕ) (r : ℕ × ℕ) → find_from i x ≡ some r → find_from i (x ++ y) ≡ some r
unfolding find_from
find_from-append [] y i r h = absurd (ground arith)
find_from-append (a ∷ x) y i r h = elim (Option-cases (blank_line (a ∷ x))) [
  | inl later ↦
      let f : find_from (i + 1) x ≡ some r = sym (find_later a x i later) ∙ h in
      find_later a (x ++ y) i (blank_line-later a x y (i + 1) r later f)
      ∙ find_from-append x y (i + 1) r f
  | inr (n, here) ↦
      find_here a (x ++ y) i n (blank_line-append (a ∷ x) y n here)
      ∙ sym (find_here a x i n here)
      ∙ h
]

-- A frame end that was found stays the first one where more bytes arrive.
pub find_frame_end-append :
    (x y : List ℕ) (r : ℕ × ℕ) → find_frame_end x ≡ some r → find_frame_end (x ++ y) ≡ some r
unfolding find_frame_end
find_frame_end-append x y r h = find_from-append x y 0 r h

pub find_from_bounds :
    (x : List ℕ) (i e n : ℕ) → find_from i x ≡ some (e, n) → (e < n) × (n ≤ i + length x)
unfolding find_from
find_from_bounds [] i e n h = absurd (ground arith)
find_from_bounds (a ∷ x) i e n h = elim (Option-cases (blank_line (a ∷ x))) [
  | inl later ↦
      let b = find_from_bounds x (i + 1) e n (sym (find_later a x i later) ∙ h) in
      (b.0, omega (arith, b.1))
  | inr (k, here) ↦
      let b = blank_line_bounds (a ∷ x) k here in
      let same : some (i, i + k) ≡ some (e, n) = sym (find_here a x i k here) ∙ h in
      ground (arith, b, same)
]

pub take-append : (n : ℕ) (x y : List ℕ) → n ≤ length x → take n (x ++ y) ≡ take n x
take-append zero x y h = refl
take-append (suc n) [] y h = absurd (omega arith)
take-append (suc n) (a ∷ x) y h = ap (λ t. a ∷ t) (take-append n x y (omega arith))

pub drop-append : (n : ℕ) (x y : List ℕ) → n ≤ length x → drop n (x ++ y) ≡ drop n x ++ y
drop-append zero x y h = refl
drop-append (suc n) [] y h = absurd (omega arith)
drop-append (suc n) (a ∷ x) y h = drop-append n x y (omega arith)

pub length-drop : (n : ℕ) (x : List ℕ) → n ≤ length x → n + length (drop n x) ≡ length x
length-drop zero x h = omega arith
length-drop (suc n) [] h = absurd (omega arith)
length-drop (suc n) (a ∷ x) h = omega (arith, length-drop n x (omega arith))
