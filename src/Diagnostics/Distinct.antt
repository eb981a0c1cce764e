-- ===== src/Diagnostics/Distinct.antt =====
-- crates/princess-build/src/diagnostics.rs `dedup`: the diagnostics of a build, each once.
use mathlib.Core.List.{append_assoc, append-nil}
use mathlib.Core.Path.{subst}
use princess_ide.Prelude.{
  ℕ, ◌≡◌, ◌⊎◌, refl, sym, ap, ◌∙◌, inl, inr, arith, Bool, true, false, ◌&&◌, Option, none, some,
  List, [], ◌∷◌, ◌++◌, ◌==◌, if◌then◌else◌, Bool-cases, ==_iff,
}
use princess_ide.Str.{same_text}
use princess_ide.Diagnostics.{
  DiagnosticSeverity, error, warning, note, DiagnosticSource, from_clang, from_gcc, from_ld,
  from_nasm,
}
use princess_ide.Diagnostics.Parser.{
  ParsedDiagnostic, same_file, same_number, severity_code, source_code, same_diagnostic, has,
  dedup_from, dedup,
}

same_text-eq : (s t : List ℕ) → same_text s t ≡ true → s ≡ t
same_text-eq [] [] h = refl
same_text-eq [] (d ∷ t) h = absurd (ground arith)
same_text-eq (c ∷ s) [] h = absurd (ground arith)
same_text-eq (c ∷ s) (d ∷ t) h =
    let first : c ≡ d = ground arith in
    let rest = same_text-eq s t (ground arith) in ap (λ n. n ∷ s) first ∙ ap (λ l. d ∷ l) rest

same_text_refl : (s : List ℕ) → same_text s s ≡ true
same_text_refl [] = refl
same_text_refl (c ∷ s) = let same : (c == c) ≡ true = ground arith in rw same (same_text_refl s)

same_file-eq : (a b : Option (List ℕ)) → same_file a b ≡ true → a ≡ b
same_file-eq none none h = refl
same_file-eq none (some b) h = absurd (ground arith)
same_file-eq (some a) none h = absurd (ground arith)
same_file-eq (some a) (some b) h = ap (λ s. some s) (same_text-eq a b h)

same_file_refl : (a : Option (List ℕ)) → same_file a a ≡ true
same_file_refl none = refl
same_file_refl (some a) = same_text_refl a

same_number-eq : (a b : Option ℕ) → same_number a b ≡ true → a ≡ b
same_number-eq none none h = refl
same_number-eq none (some b) h = absurd (ground arith)
same_number-eq (some a) none h = absurd (ground arith)
same_number-eq (some a) (some b) h = ground arith

same_number_refl : (a : Option ℕ) → same_number a a ≡ true
same_number_refl none = refl
same_number_refl (some a) = ground arith

severity_code-inj : (a b : DiagnosticSeverity) → severity_code a ≡ severity_code b → a ≡ b
severity_code-inj error error h = refl
severity_code-inj error warning h = absurd (omega arith)
severity_code-inj error note h = absurd (omega arith)
severity_code-inj warning error h = absurd (omega arith)
severity_code-inj warning warning h = refl
severity_code-inj warning note h = absurd (omega arith)
severity_code-inj note error h = absurd (omega arith)
severity_code-inj note warning h = absurd (omega arith)
severity_code-inj note note h = refl

-- The source that a number stands for.
abbrev source_at : ℕ → DiagnosticSource
source_at n =
    if n == 0
    then from_clang
    else if n == 1
    then from_gcc
    else if n == 2
    then from_ld
    else from_nasm

source_at-source_code : (s : DiagnosticSource) → source_at (source_code s) ≡ s
source_at-source_code from_clang = refl
source_at-source_code from_gcc = refl
source_at-source_code from_ld = refl
source_at-source_code from_nasm = refl

and-left : (a b : Bool) → (a && b) ≡ true → a ≡ true
and-left true b h = refl
and-left false b h = h

and-right : (a b : Bool) → (a && b) ≡ true → b ≡ true
and-right true b h = h
and-right false b h = absurd (ground arith)

same_diagnostic-eq : (a b : ParsedDiagnostic) → same_diagnostic a b ≡ true → a ≡ b
unfolding same_diagnostic
same_diagnostic-eq a b h =
    let source = and-right _ _ h in
    let h4 = and-left _ _ h in
    let message = same_text-eq a.message b.message (and-right _ _ h4) in
    let h3 = and-left _ _ h4 in
    let col = same_number-eq a.col b.col (and-right _ _ h3) in
    let h2 = and-left _ _ h3 in
    let line = same_number-eq a.line b.line (and-right _ _ h2) in
    let h1 = and-left _ _ h2 in
    let file = same_file-eq a.file b.file (and-right _ _ h1) in
    let severity =
      severity_code-inj a.severity b.severity
        ((==_iff (severity_code a.severity) (severity_code b.severity)).0 (and-left _ _ h1)) in
    let producer : a.source ≡ b.source =
      sym (source_at-source_code a.source)
      ∙ ap source_at ((==_iff (source_code a.source) (source_code b.source)).0 source)
      ∙ source_at-source_code b.source in
    λ i. record {
      severity = severity i;
      file = file i;
      line = line i;
      col = col i;
      message = message i;
      source = producer i;
    }

same_diagnostic_refl : (a : ParsedDiagnostic) → same_diagnostic a a ≡ true
unfolding same_diagnostic
same_diagnostic_refl a =
    let severity : (severity_code a.severity == severity_code a.severity) ≡ true =
      (==_iff (severity_code a.severity) (severity_code a.severity)).1 refl in
    let source : (source_code a.source == source_code a.source) ≡ true =
      (==_iff (source_code a.source) (source_code a.source)).1 refl in
    rw
      (
        same_diagnostic,
        severity,
        same_file_refl a.file,
        same_number_refl a.line,
        same_number_refl a.col,
        same_text_refl a.message,
      )
      source

-- A diagnostic among others.
abbrev pub Among : ParsedDiagnostic → List ParsedDiagnostic → Type 0
Among d [] = ⊥
Among d (e ∷ es) = (d ≡ e) ⊎ Among d es

-- No diagnostic stands twice.
abbrev pub NoDouble : List ParsedDiagnostic → Type 0
NoDouble [] = Unit {0}
NoDouble (d ∷ ds) = (Among d ds → ⊥) × NoDouble ds

-- Some of a list, in its order.
pub data Sublist : List ParsedDiagnostic → List ParsedDiagnostic → Type 0 where
  done : Sublist [] []
  skip :
      (d : ParsedDiagnostic) {xs ys : List ParsedDiagnostic} → Sublist xs ys → Sublist xs (d ∷ ys)
  keep :
      (d : ParsedDiagnostic) {xs ys : List ParsedDiagnostic}
      → Sublist xs ys
      → Sublist (d ∷ xs) (d ∷ ys)

has-Among : (es : List ParsedDiagnostic) (d : ParsedDiagnostic) → has es d ≡ true → Among d es
unfolding has
has-Among [] d h = absurd (ground arith)
has-Among (e ∷ es) d h = elim (Bool-cases (same_diagnostic e d)) [
  | inl same ↦ inl (sym (same_diagnostic-eq e d same))
  | inr other ↦ inr (has-Among es d (rw (has, other) at h))
]

Among-has : (es : List ParsedDiagnostic) (d : ParsedDiagnostic) → Among d es → has es d ≡ true
unfolding has
Among-has [] d h = absurd h
Among-has (e ∷ es) d (inl same) =
    let e_same : same_diagnostic e d ≡ true =
      ap (λ x. same_diagnostic e x) same ∙ same_diagnostic_refl e in
    rw (has, e_same) refl
Among-has (e ∷ es) d (inr later) = elim (Bool-cases (same_diagnostic e d)) [
  | inl same ↦ rw (has, same) refl
  | inr other ↦ rw (has, other) (Among-has es d later)
]

-- What the loop adds to the diagnostics that it has.
fresh : List ParsedDiagnostic → List ParsedDiagnostic → List ParsedDiagnostic
fresh out [] = []
fresh out (d ∷ ds) = elim (has out d) [
  | true ↦ fresh out ds
  | false ↦ d ∷ fresh (out ++ (d ∷ [])) ds
]

dedup_from-fresh : (out ds : List ParsedDiagnostic) → dedup_from out ds ≡ out ++ fresh out ds
unfolding dedup_from fresh
dedup_from-fresh out [] = sym (append-nil out)
dedup_from-fresh out (d ∷ ds) = elim (Bool-cases (has out d)) [
  | inl there ↦ rw (dedup_from, fresh, there) (dedup_from-fresh out ds)
  | inr missing ↦
      rw (dedup_from, fresh, missing)
        (dedup_from-fresh (out ++ (d ∷ [])) ds
          ∙ append_assoc out (d ∷ []) (fresh (out ++ (d ∷ [])) ds))
]

fresh-Sublist : (out ds : List ParsedDiagnostic) → Sublist (fresh out ds) ds
unfolding fresh
fresh-Sublist out [] = done
fresh-Sublist out (d ∷ ds) = elim (Bool-cases (has out d)) [
  | inl there ↦ rw (fresh, there) (skip d (fresh-Sublist out ds))
  | inr missing ↦ rw (fresh, missing) (keep d (fresh-Sublist (out ++ (d ∷ [])) ds))
]

Among-append :
    (xs ys : List ParsedDiagnostic) (d : ParsedDiagnostic)
    → Among d xs ⊎ Among d ys
    → Among d (xs ++ ys)
Among-append [] ys d (inl h) = absurd h
Among-append [] ys d (inr h) = h
Among-append (x ∷ xs) ys d (inl (inl same)) = inl same
Among-append (x ∷ xs) ys d (inl (inr later)) = inr (Among-append xs ys d (inl later))
Among-append (x ∷ xs) ys d (inr h) = inr (Among-append xs ys d (inr h))

append-Among :
    (xs ys : List ParsedDiagnostic) (d : ParsedDiagnostic)
    → Among d (xs ++ ys)
    → Among d xs ⊎ Among d ys
append-Among [] ys d h = inr h
append-Among (x ∷ xs) ys d (inl same) = inl (inl same)
append-Among (x ∷ xs) ys d (inr later) = elim (append-Among xs ys d later) [
  | inl left ↦ inl (inr left)
  | inr right ↦ inr right
]

-- The added ones are new and stand once.
fresh-new :
    (out ds : List ParsedDiagnostic) (d : ParsedDiagnostic)
    → Among d out
    → Among d (fresh out ds)
    → ⊥
unfolding fresh
fresh-new out [] d h k = k
fresh-new out (e ∷ ds) d h k = elim (Bool-cases (has out e)) [
  | inl there ↦ fresh-new out ds d h (rw (fresh, there) at k)
  | inr missing ↦
      let k2 : (d ≡ e) ⊎ Among d (fresh (out ++ (e ∷ [])) ds) = rw (fresh, missing) at k in
      elim k2 [
        | inl same ↦
            let there = Among-has out e (subst (λ x. Among x out) same h) in
            absurd (ground (arith, there, missing))
        | inr later ↦ fresh-new (out ++ (e ∷ [])) ds d (Among-append out (e ∷ []) d (inl h)) later
      ]
]

fresh-NoDouble : (out ds : List ParsedDiagnostic) → NoDouble (fresh out ds)
unfolding fresh
fresh-NoDouble out [] = tt
fresh-NoDouble out (d ∷ ds) = elim (Bool-cases (has out d)) [
  | inl there ↦ rw (fresh, there) (fresh-NoDouble out ds)
  | inr missing ↦
      rw (fresh, missing)
        (
          fresh-new (out ++ (d ∷ [])) ds d (Among-append out (d ∷ []) d (inr (inl refl))),
          fresh-NoDouble (out ++ (d ∷ [])) ds,
        )
]

fresh-covers :
    (out ds : List ParsedDiagnostic) (d : ParsedDiagnostic)
    → Among d ds
    → Among d out ⊎ Among d (fresh out ds)
unfolding fresh
fresh-covers out [] d h = absurd h
fresh-covers out (e ∷ ds) d h = elim (Bool-cases (has out e)) [
  | inl there ↦ elim h [
    | inl same ↦ inl (subst (λ x. Among x out) (sym same) (has-Among out e there))
    | inr later ↦ rw (fresh, there) (fresh-covers out ds d later)
  ]
  | inr missing ↦ elim h [
    | inl same ↦ inr (rw (fresh, missing) (inl same))
    | inr later ↦ elim (fresh-covers (out ++ (e ∷ [])) ds d later) [
      | inr new_one ↦ inr (rw (fresh, missing) (inr new_one))
      | inl old ↦ elim (append-Among out (e ∷ []) d old) [
        | inl left ↦ inl left
        | inr (inl same) ↦ inr (rw (fresh, missing) (inl same))
        | inr (inr nothing) ↦ absurd nothing
      ]
    ]
  ]
]

-- `dedup` gives some of the diagnostics in their order, none of them twice, and each of them that was
-- there at all.
pub dedup-NoDouble :
    (diagnostics : List ParsedDiagnostic)
    → Sublist (dedup diagnostics) diagnostics
      × NoDouble (dedup diagnostics)
      × ((d : ParsedDiagnostic) → Among d diagnostics → Among d (dedup diagnostics))
unfolding dedup
dedup-NoDouble diagnostics =
    let e : fresh [] diagnostics ≡ dedup diagnostics = sym (dedup_from-fresh [] diagnostics) in
    (
      subst (λ l. Sublist l diagnostics) e (fresh-Sublist [] diagnostics),
      subst NoDouble e (fresh-NoDouble [] diagnostics),
      λ d h. elim (fresh-covers [] diagnostics d h) [
        | inl nothing ↦ absurd nothing
        | inr there ↦ subst (Among d) e there
      ],
    )
