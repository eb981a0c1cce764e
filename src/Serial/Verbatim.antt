-- ===== src/Serial/Verbatim.antt =====
-- The address of a fault is the guest's own text, and its value.
use princess_ide.Prelude.{
  ℕ, ◌≡◌, refl, sym, ap, ◌∙◌, ◌⊎◌, inl, inr, arith, true, Option, some, List, [], ◌∷◌, ◌++◌,
  Option-cases,
}
use princess_ide.Str.{
  codes, all_chars, is_whitespace, strip_prefix, split_once, split_whitespace, first_word,
}
use princess_ide.Str.Prefix.{split_once-append, first_word-append}
use princess_ide.Serial.Parse.{
  RawFault, fault_prefix, parse_fault, parse_hex_u64, add_field, add_fields, fault_at,
}
use princess_ide.Serial.Observer.{
  SerialObserver, see_banner, see_paging, see_vector, see_fault, see_panic, complete, feed,
}
use princess_ide.Serial.Verdict.{
  see_banner-facts, see_panic-facts, see_vector-facts, see_paging-fault,
}
use princess_ide.Serial.Gate.{complete-rip}

-- The address of a fault stands in a line behind the prefix and white space.
pub record Verbatim (line : List ℕ) (f : RawFault) : Type 0 where
  pub before : List ℕ
  pub space : List ℕ
  pub after : List ℕ
  pub blank : all_chars is_whitespace space ≡ true
  pub text : line ≡ before ++ (fault_prefix ++ (space ++ (f.rip_text ++ after)))
  pub value : parse_hex_u64 f.rip_text ≡ some f.rip

abbrev IsSameRip : RawFault → RawFault → Type 0
IsSameRip f g = (f.rip ≡ g.rip) × (f.rip_text ≡ g.rip_text)

add_field-rip : (f : RawFault) (field : List ℕ) → IsSameRip (add_field f field) f
unfolding add_field
add_field-rip f field = elim (Option-cases (strip_prefix (codes "cs=") field)) [
  | inr (value, there) ↦ rw (add_field, there) (refl, refl)
  | inl no_cs ↦ elim (Option-cases (strip_prefix (codes "rflags=") field)) [
    | inr (value, there) ↦ rw (add_field, no_cs, there) (refl, refl)
    | inl no_rflags ↦ elim (Option-cases (strip_prefix (codes "error=") field)) [
      | inr (value, there) ↦ rw (add_field, no_cs, no_rflags, there) (refl, refl)
      | inl no_error ↦ rw (add_field, no_cs, no_rflags, no_error) (refl, refl)
    ]
  ]
]

add_fields-rip : (fields : List (List ℕ)) (f : RawFault) → IsSameRip (add_fields f fields) f
unfolding add_fields
add_fields-rip [] f = (refl, refl)
add_fields-rip (field ∷ fields) f =
    let (r, t) = add_field-rip f field in
    let (rs, ts) = add_fields-rip fields (add_field f field) in (rs ∙ r, ts ∙ t)

-- What a parsed fault is made of.
record Parsed (rest : List ℕ) (f : RawFault) : Type 0 where
  pub word : first_word rest ≡ some f.rip_text
  pub value : parse_hex_u64 f.rip_text ≡ some f.rip

List-cases : (l : List (List ℕ)) → (l ≡ []) ⊎ ((w : List ℕ) × (ws : List (List ℕ)) × (l ≡ w ∷ ws))
List-cases [] = inl refl
List-cases (w ∷ ws) = inr (w, ws, refl)

parse_fault_found :
    (rest w : List ℕ) (ws : List (List ℕ)) (rip : ℕ)
    → split_whitespace rest ≡ w ∷ ws
    → parse_hex_u64 w ≡ some rip
    → parse_fault rest ≡ some (add_fields (fault_at rip w) ws)
unfolding parse_fault
parse_fault_found rest w ws rip there good = rw (parse_fault, there, good) refl

some_inj : {f g : RawFault} → ◌≡◌ {A = Option RawFault} (some f) (some g) → f ≡ g
some_inj h = ground arith

parse_fault-Parsed : (rest : List ℕ) (f : RawFault) → parse_fault rest ≡ some f → Parsed rest f
unfolding parse_fault
parse_fault-Parsed rest f h = elim (List-cases (split_whitespace rest)) [
  | inl nothing ↦ absurd (ground (arith, nothing))
  | inr (w, ws, there) ↦ elim (Option-cases (parse_hex_u64 w)) [
    | inl bad ↦ absurd (ground (arith, there, bad))
    | inr (rip, good) ↦
        let e : add_fields (fault_at rip w) ws ≡ f =
          some_inj (sym (parse_fault_found rest w ws rip there good) ∙ h) in
        let (same_rip, same_text) = add_fields-rip ws (fault_at rip w) in
        let text : f.rip_text ≡ w = ap (λ g. g.rip_text) (sym e) ∙ same_text in
        let value : f.rip ≡ rip = ap (λ g. g.rip) (sym e) ∙ same_rip in
        record { word = rw (first_word, there, text) refl; value = rw (text, value) good }
  ]
]

reports-Verbatim :
    (line before rest : List ℕ) (f : RawFault)
    → split_once fault_prefix line ≡ some (before, rest)
    → parse_fault rest ≡ some f
    → Verbatim line f
reports-Verbatim line before rest f there found =
    let parsed = parse_fault-Parsed rest f found in
    let (space, after, blank, e) = first_word-append rest f.rip_text parsed.word in
    record {
      before = before;
      space = space;
      after = after;
      blank = blank;
      text =
          split_once-append fault_prefix line before rest there
          ∙ ap (λ r. before ++ (fault_prefix ++ r)) e;
      value = parsed.value;
    }

-- The fault that an observer has after a line is the one from before, or it is the line's.
see_fault-Verbatim :
    (o : SerialObserver) (line : List ℕ)
    → ((see_fault o line).0.fault ≡ o.fault)
      ⊎ ((f : RawFault) × ((see_fault o line).0.fault ≡ some f) × Verbatim line f)
unfolding see_fault
see_fault-Verbatim o line = elim (Option-cases (split_once fault_prefix line)) [
  | inl nothing ↦ rw (see_fault, nothing) (inl refl)
  | inr ((before, rest), there) ↦ elim (Option-cases (parse_fault rest)) [
    | inl missing ↦ rw (see_fault, there, missing) (inl refl)
    | inr (parsed, found) ↦
        let v = reports-Verbatim line before rest parsed there found in
        let (r, t) = complete-rip o line parsed in
        let f = complete o line parsed in
        let own : Verbatim line f = record {
          before = v.before;
          space = v.space;
          after = v.after;
          blank = v.blank;
          text = rw t v.text;
          value = rw (r, t) v.value;
        } in
        rw (see_fault, there, found) (inr (f, refl, own))
  ]
]

-- A line that changes the observer's fault has the fault's address in it, character for character,
-- after the prefix and white space, and the address is the number that this text stands for.
pub feed-Verbatim :
    (o : SerialObserver) (line : List ℕ)
    → ((feed o line).0.fault ≡ o.fault)
      ⊎ ((f : RawFault) × ((feed o line).0.fault ≡ some f) × Verbatim line f)
unfolding feed
feed-Verbatim o line =
    let o1 = (see_banner o line).0 in
    let o2 = (see_paging o1 line).0 in
    let o3 = see_vector o2 line in
    let o4 = (see_fault o3 line).0 in
    let last : (see_panic o4 line).0.fault ≡ o4.fault = ap (λ p. p.1.0) (see_panic-facts o4 line) in
    let first : o3.fault ≡ o.fault =
      ap (λ p. p.1.0) (see_vector-facts o2 line)
      ∙ (see_paging-fault o1 line).0
      ∙ ap (λ p. p.1.0) (see_banner-facts o line) in
    elim (see_fault-Verbatim o3 line) [
      | inl same ↦ inl (last ∙ same ∙ first)
      | inr (f, there, v) ↦ inr (f, last ∙ there, v)
    ]
