-- ===== src/Utf8/Cuts.antt =====
-- Valid bytes cut in two: after a line feed, and where the front alone would be taken.
use mathlib.Core.Path.{subst}
use mathlib.Core.List.{append_assoc}
use princess_ide.Prelude.{
  ℕ, ◌≤◌, ◌≡◌, ◌⊎◌, refl, sym, ap, ◌∙◌, inl, inr, arith, List, [], ◌∷◌, ◌++◌, All,
}
use princess_ide.Utf8.{cut_off, first_sequence}
use princess_ide.Utf8.Sequences.{IsSequence}
use princess_ide.Utf8.Valid.{Valid, empty, character}

head_inj : (x v : ℕ) (s t : List ℕ) → x ∷ s ≡ v ∷ t → x ≡ v
head_inj x v s t h = ground arith

tail_inj : (x v : ℕ) (s t : List ℕ) → x ∷ s ≡ v ∷ t → s ≡ t
tail_inj x v s t h = ground arith

-- A line feed comes after all bytes that are no ASCII.
feed_after :
    (xs rest before after : List ℕ)
    → All (λ x. 128 ≤ x) xs
    → xs ++ rest ≡ before ++ (10 ∷ after)
    → (more : List ℕ) × (before ≡ xs ++ more) × (rest ≡ more ++ (10 ∷ after))
feed_after [] rest before after h e = (before, refl, e)
feed_after (x ∷ xs) rest [] after (h, hs) e =
    let feed = head_inj x 10 (xs ++ rest) after e in absurd (omega (arith, h, feed))
feed_after (x ∷ xs) rest (y ∷ before) after (h, hs) e =
    let same = head_inj x y (xs ++ rest) (before ++ (10 ∷ after)) e in
    let (more, front, back) =
      feed_after xs rest before after hs (tail_inj x y (xs ++ rest) (before ++ (10 ∷ after)) e) in
    (more, ap (λ l. y ∷ l) front ∙ ap (λ n. n ∷ (xs ++ more)) (sym same), back)

-- Two ways to take a list apart: one front goes on in the other.
fronts :
    (xs rest front after : List ℕ)
    → xs ++ rest ≡ front ++ after
    → ((more : List ℕ) × (front ≡ xs ++ more) × (rest ≡ more ++ after))
      ⊎ ((y : ℕ) × (more : List ℕ) × (xs ≡ front ++ (y ∷ more)))
fronts [] rest front after e = inl (front, refl, e)
fronts (x ∷ xs) rest [] after e = inr (x, xs, refl)
fronts (x ∷ xs) rest (y ∷ front) after e =
    let same = head_inj x y (xs ++ rest) (front ++ after) e in
    elim (fronts xs rest front after (tail_inj x y (xs ++ rest) (front ++ after) e)) [
      | inl (more, there, back) ↦
          inl (more, ap (λ l. y ∷ l) there ∙ ap (λ n. n ∷ (xs ++ more)) (sym same), back)
      | inr (z, more, there) ↦
          inr (z, more, ap (λ l. x ∷ l) there ∙ ap (λ n. n ∷ (front ++ (z ∷ more))) same)
    ]

-- The two parts of a text, each valid.
pub record Parts (front back text : List ℕ) : Type 0 where
  pub text1 : List ℕ
  pub text2 : List ℕ
  pub valid1 : Valid front text1
  pub valid2 : Valid back text2
  pub splits : text ≡ text1 ++ text2

Parts-character :
    (b : ℕ) (xs : List ℕ) (code : ℕ) (front back text : List ℕ) {whole_front : List ℕ}
    → IsSequence b xs code
    → whole_front ≡ b ∷ (xs ++ front)
    → Parts front back text
    → Parts whole_front back (code ∷ text)
Parts-character b xs code front back text seq e p = record {
  text1 = code ∷ p.text1;
  text2 = p.text2;
  valid1 = character b xs code seq e p.valid1;
  valid2 = p.valid2;
  splits = ap (λ l. code ∷ l) p.splits;
}

pub Valid-feed :
    (before after : List ℕ) {bytes text : List ℕ}
    → Valid bytes text
    → bytes ≡ before ++ (10 ∷ after)
    → Parts (before ++ (10 ∷ [])) after text
Valid-feed [] after empty h = absurd (ground arith)
Valid-feed (c ∷ before) after empty h = absurd (ground arith)
Valid-feed [] after (character b xs code {rest = rest} {text = text} seq e v) h =
    let join : b ∷ (xs ++ rest) ≡ 10 ∷ after = sym e ∙ h in
    let feed = head_inj b 10 (xs ++ rest) after join in
    let alone = seq.ascii (omega (arith, feed)) in
    let back : rest ≡ after =
      ap (λ l. l ++ rest) (sym alone) ∙ tail_inj b 10 (xs ++ rest) after join in
    record {
      text1 = code ∷ [];
      text2 = text;
      valid1 =
          character b xs code seq
            (ap (λ n. n ∷ []) (sym feed) ∙ ap (λ l. b ∷ (l ++ [])) (sym alone)) empty;
      valid2 = subst (λ l. Valid l text) back v;
      splits = refl;
    }
Valid-feed (c ∷ before) after (character b xs code {rest = rest} {text = text} seq e v) h =
    let join : b ∷ (xs ++ rest) ≡ c ∷ (before ++ (10 ∷ after)) = sym e ∙ h in
    let same = head_inj b c (xs ++ rest) (before ++ (10 ∷ after)) join in
    let (more, front, back) =
      feed_after xs rest before after seq.tails
        (tail_inj b c (xs ++ rest) (before ++ (10 ∷ after)) join) in
    Parts-character b xs code (more ++ (10 ∷ [])) after text seq
      (ap (λ n. n ∷ (before ++ (10 ∷ []))) (sym same)
        ∙ ap (λ l. b ∷ (l ++ (10 ∷ []))) front
        ∙ ap (λ l. b ∷ l) (append_assoc xs more (10 ∷ [])))
      (Valid-feed more after v back)

-- Nothing is left, or a sequence that the end cuts.
abbrev pub IsCut : List ℕ → Type 0
IsCut [] = Unit {0}
IsCut (b ∷ bytes) = first_sequence b bytes ≡ cut_off

-- The part of some bytes that is valid, when more bytes make all of them valid.
pub record Known (bytes later text : List ℕ) : Type 0 where
  pub front : List ℕ
  pub back : List ℕ
  pub joins : bytes ≡ front ++ back
  pub cut : IsCut back
  pub parts : Parts front (back ++ later) text

Known-character :
    (b : ℕ) (xs : List ℕ) (code : ℕ) (bytes later text : List ℕ) {all : List ℕ}
    → IsSequence b xs code
    → all ≡ b ∷ (xs ++ bytes)
    → Known bytes later text
    → Known all later (code ∷ text)
Known-character b xs code bytes later text seq e k = record {
  front = b ∷ (xs ++ k.front);
  back = k.back;
  joins =
      e ∙ ap (λ l. b ∷ (xs ++ l)) k.joins ∙ ap (λ l. b ∷ l) (sym (append_assoc xs k.front k.back));
  cut = k.cut;
  parts = Parts-character b xs code k.front (k.back ++ later) text seq refl k.parts;
}

pub Valid-Known :
    (bytes later : List ℕ) {all text : List ℕ}
    → Valid all text
    → all ≡ bytes ++ later
    → Known bytes later text
Valid-Known [] later {all} {text} v h = record {
  front = [];
  back = [];
  joins = refl;
  cut = tt;
  parts = record {
    text1 = [];
    text2 = text;
    valid1 = empty;
    valid2 = subst (λ l. Valid l text) h v;
    splits = refl;
  };
}
Valid-Known (c ∷ bytes) later empty h = absurd (ground arith)
Valid-Known (c ∷ bytes) later {all} (character b xs code {rest = rest} {text = text} seq e v) h =
    let join : b ∷ (xs ++ rest) ≡ c ∷ (bytes ++ later) = sym e ∙ h in
    let same = head_inj b c (xs ++ rest) (bytes ++ later) join in
    elim (fronts xs rest bytes later (tail_inj b c (xs ++ rest) (bytes ++ later) join)) [
      | inl (more, there, back) ↦
          Known-character b xs code more later text seq
            (ap (λ n. n ∷ bytes) (sym same) ∙ ap (λ l. b ∷ l) there) (Valid-Known more later v back)
      | inr (y, more, there) ↦ record {
        front = [];
        back = c ∷ bytes;
        joins = refl;
        cut = ap (λ n. first_sequence n bytes) (sym same) ∙ seq.shorter bytes y more there;
        parts = record {
          text1 = [];
          text2 = code ∷ text;
          valid1 = empty;
          valid2 = subst (λ l. Valid l (code ∷ text)) h (character b xs code seq e v);
          splits = refl;
        };
      }
    ]
