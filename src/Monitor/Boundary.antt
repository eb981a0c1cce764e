-- ===== src/Monitor/Boundary.antt =====
-- crates/princess-bin/src/monitor.rs `parse_segment_line`: where `split_at(2)` panics.
use princess_ide.Prelude.{
  ℕ, ◌^◌, ◌<◌, ◌≡◌, ◌≢◌, ◌↔◌, ◌⊎◌, refl, sym, ap, ◌∙◌, inl, inr, arith, true, false, none, some,
  List, [], ◌∷◌, ◌++◌, ◌==◌, ◌&&◌, ltb, Bool-cases, Option-cases, ==_iff,
}
use princess_ide.Str.{codes, all_chars, strip_prefix, starts_with, trim, split_whitespace}
use princess_ide.Str.Prefix.{strip_prefix-append}
use princess_ide.Serial.Parse.{is_ascii_uppercase, is_empty}
use princess_ide.Framing.{parse_usize}
use princess_ide.Monitor.Lines.{byte_len, len_utf8, panicked}
use princess_ide.Monitor.Tables.{below}
use princess_ide.Monitor.Registers.{
  RegistersReport, Attempt, found, not_found, broken, split_at_two, two_letters, segment_name,
  parse_segment_line, body_line, table_line, registers_line, segment_fields, parse_limit_pair,
  pairs_line, skip_or_refuse, trim_start, parse_register_pairs, is_ignorable, drop_equals,
}

-- A character ends after the second byte.
abbrev pub HasBoundary : List ℕ → Type 0
HasBoundary line =
    (front : List ℕ) × (rest : List ℕ) × (line ≡ front ++ rest) × (byte_len front ≡ 2)

len_utf8-positive : (c : ℕ) → 0 < len_utf8 c
len_utf8-positive c = ground arith

split_at_two-HasBoundary :
    (line front rest : List ℕ) → split_at_two line ≡ some (front, rest) → HasBoundary line
unfolding split_at_two
split_at_two-HasBoundary [] front rest h = absurd (ground arith)
split_at_two-HasBoundary (c ∷ []) front rest h = elim (Bool-cases (len_utf8 c == 2)) [
  | inl two ↦ (c ∷ [], [], refl, omega (arith, (==_iff (len_utf8 c) 2).0 two))
  | inr other ↦ absurd (ground (arith, other))
]
split_at_two-HasBoundary (c ∷ d ∷ s) front rest h = elim (Bool-cases (len_utf8 c == 2)) [
  | inl two ↦ (c ∷ [], d ∷ s, refl, omega (arith, (==_iff (len_utf8 c) 2).0 two))
  | inr other ↦ elim (Bool-cases ((len_utf8 c == 1) && (len_utf8 d == 1))) [
    | inl ones ↦ (c ∷ d ∷ [], s, refl, ground (arith, ones))
    | inr neither ↦ absurd (ground (arith, other, neither))
  ]
]

first_inj : (c d : ℕ) (s t : List ℕ) → c ∷ s ≡ d ∷ t → c ≡ d
first_inj c d s t h = ground arith

rest_inj : (c d : ℕ) (s t : List ℕ) → c ∷ s ≡ d ∷ t → s ≡ t
rest_inj c d s t h = ground arith

-- A line is split at the boundary that it has.
boundary-split_at_two :
    (front rest : List ℕ) → byte_len front ≡ 2 → split_at_two (front ++ rest) ≢ none
unfolding split_at_two
boundary-split_at_two [] rest two h = absurd (omega arith)
boundary-split_at_two (c ∷ []) [] two h =
    let e : (len_utf8 c == 2) ≡ true = (==_iff (len_utf8 c) 2).1 (omega arith) in
    absurd (ground (arith, e))
boundary-split_at_two (c ∷ []) (d ∷ s) two h =
    let e : (len_utf8 c == 2) ≡ true = (==_iff (len_utf8 c) 2).1 (omega arith) in
    absurd (ground (arith, e))
boundary-split_at_two (c ∷ d ∷ []) rest two h =
    let pc = len_utf8-positive c in
    let pd = len_utf8-positive d in
    let ec : (len_utf8 c == 2) ≡ false = ground (arith, pc, pd) in
    let e1 : (len_utf8 c == 1) ≡ true = (==_iff (len_utf8 c) 1).1 (omega arith) in
    let e2 : (len_utf8 d == 1) ≡ true = (==_iff (len_utf8 d) 1).1 (omega arith) in
    absurd (ground (arith, ec, e1, e2))
boundary-split_at_two (c ∷ d ∷ e ∷ s) rest two h =
    let pc = len_utf8-positive c in
    let pd = len_utf8-positive d in let pe = len_utf8-positive e in absurd (omega arith)

-- A line with one of these prefixes has a boundary there.
prefix-HasBoundary :
    (p q : ℕ) (ps line rest : List ℕ)
    → ltb p 128 ≡ true
    → ltb q 128 ≡ true
    → strip_prefix (p ∷ q ∷ ps) line ≡ some rest
    → HasBoundary line
prefix-HasBoundary p q ps line rest hp hq h =
    (p ∷ q ∷ [], ps ++ rest, strip_prefix-append (p ∷ q ∷ ps) line rest h, ground (arith, hp, hq))

no_prefix :
    (p q : ℕ) (ps line : List ℕ)
    → ltb p 128 ≡ true
    → ltb q 128 ≡ true
    → (HasBoundary line → ⊥)
    → strip_prefix (p ∷ q ∷ ps) line ≡ none
no_prefix p q ps line hp hq none_there = elim (Option-cases (strip_prefix (p ∷ q ∷ ps) line)) [
  | inl nothing ↦ nothing
  | inr (rest, there) ↦ absurd (none_there (prefix-HasBoundary p q ps line rest hp hq there))
]

no_split : (line : List ℕ) → (HasBoundary line → ⊥) → split_at_two line ≡ none
no_split line none_there = elim (Option-cases (split_at_two line)) [
  | inl nothing ↦ nothing
  | inr ((front, rest), there) ↦
      absurd (none_there (split_at_two-HasBoundary line front rest there))
]

-- A line with no boundary breaks every step down to the split.
segment_name-broken : (line : List ℕ) → (HasBoundary line → ⊥) → segment_name line ≡ broken
unfolding segment_name two_letters
segment_name-broken line h =
    rw
      (
        segment_name,
        no_prefix 76 68 (codes "T=") line refl refl h,
        no_prefix 84 82 (codes " ") line refl refl h,
        no_prefix 84 82 (codes "=") line refl refl h,
        two_letters,
        no_split line h,
      )
      refl

parse_segment_line-broken :
    (line : List ℕ) → (HasBoundary line → ⊥) → parse_segment_line line ≡ broken
unfolding parse_segment_line
parse_segment_line-broken line h = rw (parse_segment_line, segment_name-broken line h) refl

-- A line that breaks has no boundary.
two_letters-broken : (line : List ℕ) → two_letters line ≡ broken → split_at_two line ≡ none
unfolding two_letters
two_letters-broken line h = elim (Option-cases (split_at_two line)) [
  | inl nothing ↦ nothing
  | inr ((name, rest), there) ↦ elim (Bool-cases (all_chars is_ascii_uppercase name)) [
    | inl upper ↦ elim (Option-cases (strip_prefix (codes "=") (trim_start rest))) [
      | inl missing ↦ absurd (ground (arith, there, upper, missing))
      | inr (after, equals) ↦ absurd (ground (arith, there, upper, equals))
    ]
    | inr lower ↦ absurd (ground (arith, there, lower))
  ]
]

broken-segment_name : (line : List ℕ) → segment_name line ≡ broken → split_at_two line ≡ none
unfolding segment_name
broken-segment_name line h = elim (Option-cases (strip_prefix (codes "LDT=") line)) [
  | inr (r, there) ↦ absurd (ground (arith, there))
  | inl ldt ↦ elim (Option-cases (strip_prefix (codes "TR ") line)) [
    | inr (r, there) ↦ absurd (ground (arith, ldt, there))
    | inl tr ↦ elim (Option-cases (strip_prefix (codes "TR=") line)) [
      | inr (r, there) ↦ absurd (ground (arith, ldt, tr, there))
      | inl te ↦ two_letters-broken line (rw (segment_name, ldt, tr, te) at h)
    ]
  ]
]

Attempt-cases :
    {A : Type 0} (a : Attempt A) → ((x : A) × (a ≡ found x)) ⊎ (a ≡ not_found) ⊎ (a ≡ broken)
Attempt-cases (found x) = inl (x, refl)
Attempt-cases not_found = inr (inl refl)
Attempt-cases broken = inr (inr refl)

broken-parse_segment_line :
    (line : List ℕ) → parse_segment_line line ≡ broken → segment_name line ≡ broken
unfolding parse_segment_line
broken-parse_segment_line line h = elim (Attempt-cases (segment_name line)) [
  | inr (inr bad) ↦ bad
  | inr (inl missing) ↦ absurd (ground (arith, missing))
  | inl ((name, rest), there) ↦
      elim (Option-cases (segment_fields name (split_whitespace (drop_equals rest)))) [
        | inl nothing ↦ absurd (ground (arith, there, nothing))
        | inr (segment, fields) ↦ absurd (ground (arith, there, fields))
      ]
]

pairs_line-ne-panicked :
    (report : RegistersReport) (line : List ℕ) → pairs_line report line ≢ panicked
unfolding pairs_line skip_or_refuse
pairs_line-ne-panicked report line h = elim (Option-cases (parse_register_pairs line)) [
  | inl nothing ↦ elim (Bool-cases (is_ignorable line)) [
    | inl skip ↦ absurd (ground (arith, nothing, skip))
    | inr other ↦ absurd (ground (arith, nothing, other))
  ]
  | inr ([], there) ↦ elim (Bool-cases (is_ignorable line)) [
    | inl skip ↦ absurd (ground (arith, there, skip))
    | inr other ↦ absurd (ground (arith, there, other))
  ]
  | inr (pair ∷ pairs, there) ↦ absurd (ground (arith, there))
]

panicked-body_line :
    (report : RegistersReport) (line : List ℕ)
    → body_line report line ≡ panicked
    → parse_segment_line line ≡ broken
unfolding body_line
panicked-body_line report line h = elim (Attempt-cases (parse_segment_line line)) [
  | inr (inr bad) ↦ bad
  | inl (segment, there) ↦ absurd (ground (arith, there))
  | inr (inl missing) ↦ elim (Bool-cases (starts_with (codes "RIP=") line)) [
    | inl rip ↦ absurd (ground (arith, missing, rip))
    | inr other ↦ absurd (pairs_line-ne-panicked report line (rw (body_line, missing, other) at h))
  ]
]

panicked-table_line :
    (report : RegistersReport) (line : List ℕ)
    → table_line report line ≡ panicked
    → parse_segment_line line ≡ broken
unfolding table_line
panicked-table_line report line h = elim (Option-cases (strip_prefix (codes "GDT=") line)) [
  | inr (rest, there) ↦ elim (Option-cases (parse_limit_pair rest)) [
    | inl nothing ↦ absurd (ground (arith, there, nothing))
    | inr ((base, limit), pair) ↦ absurd (ground (arith, there, pair))
  ]
  | inl gdt ↦ elim (Option-cases (strip_prefix (codes "IDT=") line)) [
    | inr (rest, there) ↦ elim (Option-cases (parse_limit_pair rest)) [
      | inl nothing ↦ absurd (ground (arith, gdt, there, nothing))
      | inr ((base, limit), pair) ↦ absurd (ground (arith, gdt, there, pair))
    ]
    | inl idt ↦ panicked-body_line report line (rw (table_line, gdt, idt) at h)
  ]
]

-- The step on a trimmed line that is not empty.
panicked-registers_line :
    (report : RegistersReport) (text : List ℕ)
    → registers_line report text ≡ panicked
    → (is_empty (trim text) ≡ false) × (split_at_two (trim text) ≡ none)
unfolding registers_line
panicked-registers_line report text h = elim (Bool-cases (is_empty (trim text))) [
  | inl blank ↦ absurd (ground (arith, blank))
  | inr inhabited ↦ elim (Option-cases (strip_prefix (codes "CPU#") (trim text))) [
    | inr (rest, there) ↦ elim (Option-cases (below (2 ^ 32) (parse_usize (trim rest)))) [
      | inl nothing ↦ absurd (ground (arith, inhabited, there, nothing))
      | inr (cpu, number) ↦ absurd (ground (arith, inhabited, there, number))
    ]
    | inl cpu ↦
        let table : table_line report (trim text) ≡ panicked =
          rw (registers_line, inhabited, cpu) at h in
        (
          inhabited,
          broken-segment_name (trim text) (
              broken-parse_segment_line (trim text) (panicked-table_line report (trim text) table)),
        )
  ]
]

registers_line-panicked :
    (report : RegistersReport) (text : List ℕ)
    → is_empty (trim text) ≡ false
    → (HasBoundary (trim text) → ⊥)
    → registers_line report text ≡ panicked
unfolding registers_line table_line body_line
registers_line-panicked report text inhabited h =
    rw
      (
        registers_line,
        inhabited,
        no_prefix 67 80 (codes "U#") (trim text) refl refl h,
        table_line,
        no_prefix 71 68 (codes "T=") (trim text) refl refl h,
        no_prefix 73 68 (codes "T=") (trim text) refl refl h,
        body_line,
        parse_segment_line-broken (trim text) h,
      )
      refl

-- A line of `info registers` panics exactly when it is not blank and, without the white space around
-- it, has no character that ends after its second byte: where it is one byte long, or a character
-- stands across the end of the second byte.
pub registers_line-panicked_iff :
    (report : RegistersReport) (text : List ℕ)
    → (registers_line report text ≡ panicked)
      ↔ ((is_empty (trim text) ≡ false) × (HasBoundary (trim text) → ⊥))
registers_line-panicked_iff report text = (
  λ h.
      let (inhabited, split) = panicked-registers_line report text h in
      (
        inhabited,
        λ (front, rest, e, two).
            boundary-split_at_two front rest two (ap split_at_two (sym e) ∙ split),
      ),
  λ (inhabited, h). registers_line-panicked report text inhabited h,
)
