-- ===== src/Utf8/Sequences.antt =====
-- The bytes that a whole sequence has, and what stands for it when it is cut.
use princess_ide.Prelude.{
  ℕ, ◌<◌, ◌≤◌, ◌≡◌, ◌⊎◌, refl, sym, ap, ◌∙◌, inl, inr, arith, true, false, List, [], ◌∷◌, ◌++◌,
  Bool-cases, All, length, ltb,
}
use princess_ide.Utf8.{
  whole, cut_off, first_sequence, of_two, of_three, of_four, within, is_second, is_tail,
}

-- The bytes `xs` after `b` make a character with it, whatever comes then; the bytes are no ASCII, and
-- fewer of them are cut off.
pub record IsSequence (b : ℕ) (xs : List ℕ) (code : ℕ) : Type 0 where
  pub agrees : (zs : List ℕ) → first_sequence b (xs ++ zs) ≡ whole (length xs) code
  pub tails : All (λ x. 128 ≤ x) xs
  pub shorter :
      (ys : List ℕ) (y : ℕ) (zs : List ℕ) → xs ≡ ys ++ (y ∷ zs) → first_sequence b ys ≡ cut_off
  pub ascii : b < 128 → xs ≡ []

-- The front of the bytes is a whole sequence.
pub record Front (b : ℕ) (bytes : List ℕ) (more code : ℕ) : Type 0 where
  pub xs : List ℕ
  pub rest : List ℕ
  pub splits : bytes ≡ xs ++ rest
  pub size : length xs ≡ more
  pub sequence : IsSequence b xs code

second-tail : (b c : ℕ) → is_second b c ≡ true → 128 ≤ c
second-tail b c h = ground arith

third-tail : (c : ℕ) → is_tail c ≡ true → 128 ≤ c
third-tail c h = ground arith

-- What may stand in front of an element of a short list.
tail_inj : (x v : ℕ) (s t : List ℕ) → x ∷ s ≡ v ∷ t → s ≡ t
tail_inj x v s t h = ground arith

head_inj : (x v : ℕ) (s t : List ℕ) → x ∷ s ≡ v ∷ t → x ≡ v
head_inj x v s t h = ground arith

nil_split : (ys : List ℕ) (y : ℕ) (zs : List ℕ) → [] ≡ ys ++ (y ∷ zs) → ⊥
nil_split [] y zs e = ground arith
nil_split (v ∷ ys) y zs e = ground arith

one_split : (x : ℕ) (ys : List ℕ) (y : ℕ) (zs : List ℕ) → x ∷ [] ≡ ys ++ (y ∷ zs) → ys ≡ []
one_split x [] y zs e = refl
one_split x (v ∷ ys) y zs e = absurd (nil_split ys y zs (tail_inj x v [] (ys ++ (y ∷ zs)) e))

two_split :
    (x w : ℕ) (ys : List ℕ) (y : ℕ) (zs : List ℕ)
    → x ∷ w ∷ [] ≡ ys ++ (y ∷ zs)
    → (ys ≡ []) ⊎ (ys ≡ x ∷ [])
two_split x w [] y zs e = inl refl
two_split x w (v ∷ ys) y zs e =
    let rest = one_split w ys y zs (tail_inj x v (w ∷ []) (ys ++ (y ∷ zs)) e) in
    let same = head_inj x v (w ∷ []) (ys ++ (y ∷ zs)) e in
    inr (ap (λ t. v ∷ t) rest ∙ ap (λ n. n ∷ []) (sym same))

three_split :
    (x w u : ℕ) (ys : List ℕ) (y : ℕ) (zs : List ℕ)
    → x ∷ w ∷ u ∷ [] ≡ ys ++ (y ∷ zs)
    → (ys ≡ []) ⊎ (ys ≡ x ∷ []) ⊎ (ys ≡ x ∷ w ∷ [])
three_split x w u [] y zs e = inl refl
three_split x w u (v ∷ ys) y zs e =
    let same = head_inj x v (w ∷ u ∷ []) (ys ++ (y ∷ zs)) e in
    elim (two_split w u ys y zs (tail_inj x v (w ∷ u ∷ []) (ys ++ (y ∷ zs)) e)) [
      | inl none_more ↦ inr (inl (ap (λ t. v ∷ t) none_more ∙ ap (λ n. n ∷ []) (sym same)))
      | inr one_more ↦ inr (inr (ap (λ t. v ∷ t) one_more ∙ ap (λ n. n ∷ w ∷ []) (sym same)))
    ]

one_byte :
    (b : ℕ) (bytes : List ℕ) (more code : ℕ)
    → ltb b 128 ≡ true
    → first_sequence b bytes ≡ whole more code
    → Front b bytes more code
unfolding first_sequence
one_byte b bytes more code small h = record {
  xs = [];
  rest = bytes;
  splits = refl;
  size = ground (arith, small);
  sequence = record {
    agrees = λ zs. ground (arith, small);
    tails = tt;
    shorter = λ ys y zs e. absurd (nil_split ys y zs e);
    ascii = λ k. refl;
  };
}

-- The three classes of longer sequences.
first_sequence-of_two :
    (b : ℕ) (bytes : List ℕ) → within 194 223 b ≡ true → first_sequence b bytes ≡ of_two b bytes
unfolding first_sequence
first_sequence-of_two b bytes h =
    let large : ltb b 128 ≡ false = ground arith in rw (first_sequence, large, h) refl

first_sequence-of_three :
    (b : ℕ) (bytes : List ℕ) → within 224 239 b ≡ true → first_sequence b bytes ≡ of_three b bytes
unfolding first_sequence
first_sequence-of_three b bytes h =
    let large : ltb b 128 ≡ false = ground arith in
    let two : within 194 223 b ≡ false = ground arith in rw (first_sequence, large, two, h) refl

first_sequence-of_four :
    (b : ℕ) (bytes : List ℕ) → within 240 244 b ≡ true → first_sequence b bytes ≡ of_four b bytes
unfolding first_sequence
first_sequence-of_four b bytes h =
    let large : ltb b 128 ≡ false = ground arith in
    let two : within 194 223 b ≡ false = ground arith in
    let three : within 224 239 b ≡ false = ground arith in
    rw (first_sequence, large, two, three, h) refl

high-ascii :
    (b low high : ℕ) (xs : List ℕ) → within low high b ≡ true → 128 ≤ low → b < 128 → xs ≡ []
high-ascii b low high xs h k small = absurd (ground arith)

whole_more : (m n c d : ℕ) → whole m c ≡ whole n d → m ≡ n
whole_more m n c d h = ground arith

whole_code : (m n c d : ℕ) → whole m c ≡ whole n d → c ≡ d
whole_code m n c d h = ground arith

two_bytes :
    (b : ℕ) (bytes : List ℕ) (more code : ℕ)
    → within 194 223 b ≡ true
    → of_two b bytes ≡ whole more code
    → Front b bytes more code
two_bytes b [] more code k h = absurd (ground arith)
two_bytes b (c ∷ bytes) more code k h = elim (Bool-cases (is_second b c)) [
  | inr bad ↦ absurd (ground (arith, bad))
  | inl second ↦
      let now = rw second at h in
      record {
        xs = c ∷ [];
        rest = bytes;
        splits = refl;
        size = whole_more 1 more _ code now;
        sequence = record {
          agrees = λ zs.
              first_sequence-of_two b (c ∷ zs) k
              ∙ (rw second (ap (whole 1) (whole_code 1 more _ code now)));
          tails = (second-tail b c second, tt);
          shorter = λ ys y zs e.
              ap (first_sequence b) (one_split c ys y zs e) ∙ first_sequence-of_two b [] k;
          ascii = high-ascii b 194 223 (c ∷ []) k (omega arith);
        };
      }
]

three_bytes :
    (b : ℕ) (bytes : List ℕ) (more code : ℕ)
    → within 224 239 b ≡ true
    → of_three b bytes ≡ whole more code
    → Front b bytes more code
three_bytes b [] more code k h = absurd (ground arith)
three_bytes b (c ∷ []) more code k h = elim (Bool-cases (is_second b c)) [
  | inl second ↦ absurd (ground (arith, second))
  | inr bad ↦ absurd (ground (arith, bad))
]
three_bytes b (c ∷ d ∷ bytes) more code k h = elim (Bool-cases (is_second b c)) [
  | inr bad ↦ absurd (ground (arith, bad))
  | inl second ↦ elim (Bool-cases (is_tail d)) [
    | inr bad ↦ absurd (ground (arith, second, bad))
    | inl third ↦
        let now = rw (second, third) at h in
        record {
          xs = c ∷ d ∷ [];
          rest = bytes;
          splits = refl;
          size = whole_more 2 more _ code now;
          sequence = record {
            agrees = λ zs.
                first_sequence-of_three b (c ∷ d ∷ zs) k
                ∙ (rw (second, third) (ap (whole 2) (whole_code 2 more _ code now)));
            tails = (second-tail b c second, (third-tail d third, tt));
            shorter = λ ys y zs e. elim (two_split c d ys y zs e) [
              | inl first ↦ ap (first_sequence b) first ∙ first_sequence-of_three b [] k
              | inr one ↦
                  ap (first_sequence b) one
                  ∙ first_sequence-of_three b (c ∷ []) k
                  ∙ (rw second refl)
            ];
            ascii = high-ascii b 224 239 (c ∷ d ∷ []) k (omega arith);
          };
        }
  ]
]

four_bytes :
    (b : ℕ) (bytes : List ℕ) (more code : ℕ)
    → within 240 244 b ≡ true
    → of_four b bytes ≡ whole more code
    → Front b bytes more code
four_bytes b [] more code k h = absurd (ground arith)
four_bytes b (c ∷ []) more code k h = elim (Bool-cases (is_second b c)) [
  | inl second ↦ absurd (ground (arith, second))
  | inr bad ↦ absurd (ground (arith, bad))
]
four_bytes b (c ∷ d ∷ []) more code k h = elim (Bool-cases (is_second b c)) [
  | inl second ↦ elim (Bool-cases (is_tail d)) [
    | inl third ↦ absurd (ground (arith, second, third))
    | inr bad ↦ absurd (ground (arith, second, bad))
  ]
  | inr bad ↦ absurd (ground (arith, bad))
]
four_bytes b (c ∷ d ∷ f ∷ bytes) more code k h = elim (Bool-cases (is_second b c)) [
  | inr bad ↦ absurd (ground (arith, bad))
  | inl second ↦ elim (Bool-cases (is_tail d)) [
    | inr bad ↦ absurd (ground (arith, second, bad))
    | inl third ↦ elim (Bool-cases (is_tail f)) [
      | inr bad ↦ absurd (ground (arith, second, third, bad))
      | inl fourth ↦
          let now = rw (second, third, fourth) at h in
          record {
            xs = c ∷ d ∷ f ∷ [];
            rest = bytes;
            splits = refl;
            size = whole_more 3 more _ code now;
            sequence = record {
              agrees = λ zs.
                  first_sequence-of_four b (c ∷ d ∷ f ∷ zs) k
                  ∙ (rw (second, third, fourth) (ap (whole 3) (whole_code 3 more _ code now)));
              tails = (second-tail b c second, (third-tail d third, (third-tail f fourth, tt)));
              shorter = λ ys y zs e. elim (three_split c d f ys y zs e) [
                | inl first ↦ ap (first_sequence b) first ∙ first_sequence-of_four b [] k
                | inr (inl one) ↦
                    ap (first_sequence b) one
                    ∙ first_sequence-of_four b (c ∷ []) k
                    ∙ (rw second refl)
                | inr (inr two) ↦
                    ap (first_sequence b) two
                    ∙ first_sequence-of_four b (c ∷ d ∷ []) k
                    ∙ (rw (second, third) refl)
              ];
              ascii = high-ascii b 240 244 (c ∷ d ∷ f ∷ []) k (omega arith);
            };
          }
    ]
  ]
]

-- A whole sequence at the front of some bytes.
pub first_sequence-Front :
    (b : ℕ) (bytes : List ℕ) (more code : ℕ)
    → first_sequence b bytes ≡ whole more code
    → Front b bytes more code
unfolding first_sequence
first_sequence-Front b bytes more code h = elim (Bool-cases (ltb b 128)) [
  | inl small ↦ one_byte b bytes more code small h
  | inr large ↦ elim (Bool-cases (within 194 223 b)) [
    | inl two ↦ two_bytes b bytes more code two (sym (first_sequence-of_two b bytes two) ∙ h)
    | inr not_two ↦ elim (Bool-cases (within 224 239 b)) [
      | inl three ↦
          three_bytes b bytes more code three (sym (first_sequence-of_three b bytes three) ∙ h)
      | inr not_three ↦ elim (Bool-cases (within 240 244 b)) [
        | inl four ↦
            four_bytes b bytes more code four (sym (first_sequence-of_four b bytes four) ∙ h)
        | inr other ↦ absurd (ground (arith, large, not_two, not_three, other))
      ]
    ]
  ]
]
