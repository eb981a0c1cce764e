-- ===== src/Str/Trim.antt =====
-- What trimming leaves.
use princess_ide.Prelude.{
  ℕ, ◌≤◌, ◌≡◌, refl, ap, ◌∙◌, arith, Bool, true, false, List, [], ◌∷◌, ◌++◌, All,
}
use princess_ide.Str.{is_whitespace, trim, trim_start_matches, trim_end_matches, keep}

-- No trimming takes these away.
pub printable : (c : ℕ) → 45 ≤ c → c ≤ 126 → is_whitespace c ≡ false
unfolding is_whitespace
printable c low high = ground arith

pub keep_kept : (p : ℕ → Bool) (c : ℕ) (s : List ℕ) → p c ≡ false → keep p c s ≡ c ∷ s
keep_kept p c [] h = rw h refl
keep_kept p c (d ∷ s) h = refl

pub trim_end_matches_kept :
    (p : ℕ → Bool) (s : List ℕ) → All (λ c. p c ≡ false) s → trim_end_matches p s ≡ s
trim_end_matches_kept p [] h = refl
trim_end_matches_kept p (c ∷ s) (h, hs) = rw (trim_end_matches_kept p s hs) (keep_kept p c s h)

pub trim_start_matches_kept :
    (p : ℕ → Bool) (s : List ℕ) → All (λ c. p c ≡ false) s → trim_start_matches p s ≡ s
trim_start_matches_kept p [] h = refl
trim_start_matches_kept p (c ∷ s) (h, hs) = rw h refl

pub All-append : (P : ℕ → Type 0) (xs ys : List ℕ) → All P xs → All P ys → All P (xs ++ ys)
All-append P [] ys h k = k
All-append P (x ∷ xs) ys (h, hs) k = (h, All-append P xs ys hs k)

pub trim_kept : (s : List ℕ) → All (λ c. is_whitespace c ≡ false) s → trim s ≡ s
unfolding trim
trim_kept s h =
    ap (trim_end_matches is_whitespace) (trim_start_matches_kept is_whitespace s h)
    ∙ trim_end_matches_kept is_whitespace s h

pub trim_end_matches_dropped :
    (p : ℕ → Bool) (s : List ℕ) (c : ℕ)
    → p c ≡ true
    → trim_end_matches p (s ++ (c ∷ [])) ≡ trim_end_matches p s
trim_end_matches_dropped p [] c h = rw h refl
trim_end_matches_dropped p (d ∷ s) c h = ap (keep p d) (trim_end_matches_dropped p s c h)

keep_snoc :
    (p : ℕ → Bool) (d : ℕ) (s : List ℕ) (c : ℕ) → keep p d (s ++ (c ∷ [])) ≡ d ∷ (s ++ (c ∷ []))
keep_snoc p d [] c = refl
keep_snoc p d (e ∷ s) c = refl

pub trim_end_matches_last :
    (p : ℕ → Bool) (s : List ℕ) (c : ℕ)
    → p c ≡ false
    → trim_end_matches p (s ++ (c ∷ [])) ≡ s ++ (c ∷ [])
trim_end_matches_last p [] c h = rw h refl
trim_end_matches_last p (d ∷ s) c h =
    ap (keep p d) (trim_end_matches_last p s c h) ∙ keep_snoc p d s c
