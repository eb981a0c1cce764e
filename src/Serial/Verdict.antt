-- ===== src/Serial/Verdict.antt =====
-- The observer's verdict on a page fault, against what the lines of the run say of paging.
use princess_ide.Prelude.{
  ℕ, ◌≡◌, refl, inl, inr, arith, Bool, true, false, not, ◌&&◌, Option, none, some, List, [], ◌∷◌,
  ◌++◌, if◌then◌else◌, Option-cases, Bool-cases, All,
}
use princess_ide.Str.{codes, contains, split_once}
use princess_ide.Serial.Parse.{
  RawFault, is_page_fault, paging_enabled_marker, exception_prefix, panic_prefix, parse_vector,
  detect_banner, fault_prefix, parse_fault,
}
use princess_ide.Serial.Observer.{
  SerialObserver, SerialObservation, PageFaultGate, paging_confirmed, paging_unproven,
  paging_disabled, not_applicable, see_banner, see_paging, see_vector, see_panic, feed, is_state,
  paging_state,
}

-- The observer and the observations after some lines.
abbrev pub feed_all : SerialObserver → List (List ℕ) → SerialObserver × List SerialObservation
feed_all o [] = (o, [])
feed_all o (line ∷ rest) =
    let (next, seen) = feed o line in let (last, more) = feed_all next rest in (last, seen ++ more)

abbrev pub says_on : List ℕ → Bool
says_on line = contains paging_enabled_marker line

abbrev pub says_off : List ℕ → Bool
says_off line = contains (codes "CR0.PG=0") line

-- What some lines say of paging: the last one that says something counts.
abbrev pub stated : Option Bool → List (List ℕ) → Option Bool
stated before [] = before
stated before (line ∷ rest) =
    stated (if says_on line then some true else if says_off line then some false else before) rest

-- No line says both.
abbrev pub IsClear : List (List ℕ) → Type 0
IsClear lines = All (λ line. (says_on line && says_off line) ≡ false) lines

-- Three branches of `see_paging`, on the three states.
paging_step :
    (on off : Bool) (p : Option Bool) (o : SerialObserver)
    → o.paging_enabled ≡ p
    → (on && off) ≡ false
    → (if◌then◌else◌ {A = SerialObserver × List SerialObservation}
        (on && not (is_state p true))
        (record o { paging_enabled = some true }, paging_state true ∷ [])
        (if off && not (is_state p false)
          then (record o { paging_enabled = some false }, paging_state false ∷ [])
          else (o, []))).0.paging_enabled
      ≡ (if on then some true else if off then some false else p)
paging_step false false p o e clear = e
paging_step false true none o e clear = refl
paging_step false true (some true) o e clear = refl
paging_step false true (some false) o e clear = e
paging_step true false none o e clear = refl
paging_step true false (some true) o e clear = e
paging_step true false (some false) o e clear = refl
paging_step true true p o e clear = absurd (ground arith)

pub see_paging-stated :
    (o : SerialObserver) (line : List ℕ)
    → (says_on line && says_off line) ≡ false
    → (see_paging o line).0.paging_enabled ≡ stated o.paging_enabled (line ∷ [])
unfolding see_paging
see_paging-stated o line clear =
    paging_step (says_on line) (says_off line) o.paging_enabled o refl clear

-- The part of an observer that the verdict depends on.
abbrev pub facts : SerialObserver → Option Bool × (Option RawFault × Option PageFaultGate)
facts o = (o.paging_enabled, (o.fault, o.page_fault_gate))

pub see_banner-facts : (o : SerialObserver) (line : List ℕ) → facts (see_banner o line).0 ≡ facts o
unfolding see_banner
see_banner-facts o line = elim (Option-cases o.banner) [
  | inr (text, there) ↦ rw (see_banner, there) refl
  | inl nothing ↦ elim (Option-cases (detect_banner line)) [
    | inl missing ↦ rw (see_banner, nothing, missing) refl
    | inr (text, there) ↦ rw (see_banner, nothing, there) refl
  ]
]

pub see_panic-facts : (o : SerialObserver) (line : List ℕ) → facts (see_panic o line).0 ≡ facts o
unfolding see_panic
see_panic-facts o line = elim (Bool-cases (contains panic_prefix line && not o.panic_seen)) [
  | inl first ↦ rw (see_panic, first) refl
  | inr other ↦ rw (see_panic, other) refl
]

pub see_vector-facts : (o : SerialObserver) (line : List ℕ) → facts (see_vector o line) ≡ facts o
unfolding see_vector
see_vector-facts o line = elim (Option-cases (split_once exception_prefix line)) [
  | inl nothing ↦ rw (see_vector, nothing) refl
  | inr ((before, rest), there) ↦ elim (Option-cases (parse_vector rest)) [
    | inl missing ↦ rw (see_vector, there, missing) refl
    | inr (vector, parsed) ↦ rw (see_vector, there, parsed) refl
  ]
]

pub see_paging-fault :
    (o : SerialObserver) (line : List ℕ)
    → ((see_paging o line).0.fault ≡ o.fault)
      × ((see_paging o line).0.page_fault_gate ≡ o.page_fault_gate)
unfolding see_paging
see_paging-fault o line = elim (Bool-cases (says_on line && not (is_state o.paging_enabled true))) [
  | inl on ↦ rw (see_paging, on) (refl, refl)
  | inr other ↦ elim (Bool-cases (says_off line && not (is_state o.paging_enabled false))) [
    | inl off ↦ rw (see_paging, other, off) (refl, refl)
    | inr silent ↦ rw (see_paging, other, silent) (refl, refl)
  ]
]

-- The fault that a line reports, if it does.
abbrev pub reports : List ℕ → Option RawFault
reports line = elim (split_once fault_prefix line) [
  | none ↦ none
  | some (before, rest) ↦ parse_fault rest
]

-- The gate of a fault, by whether it is a page fault and what was said of paging.
abbrev pub due_gate : Bool → Option Bool → PageFaultGate
due_gate false said = not_applicable
due_gate true none = paging_unproven
due_gate true (some false) = paging_disabled
due_gate true (some true) = paging_confirmed

-- The fault `f` is the one of the last line that reports one, and its gate goes by the lines up to it.
pub record Judged (lines : List (List ℕ)) (f : RawFault) (gate : PageFaultGate) : Type 0 where
  pub earlier : List (List ℕ)
  pub line : List ℕ
  pub later : List (List ℕ)
  pub parsed : RawFault
  pub split : lines ≡ (earlier ++ (line ∷ [])) ++ later
  pub reported : reports line ≡ some parsed
  pub same : (f.rip ≡ parsed.rip) × (f.rip_text ≡ parsed.rip_text)
  pub quiet : All (λ l. reports l ≡ none) later
  pub judged : gate ≡ due_gate (is_page_fault f) (stated none (earlier ++ (line ∷ [])))

-- The fault that an observer keeps and its gate, after some lines.
abbrev pub Verdict : List (List ℕ) → Option RawFault → Option PageFaultGate → Type 0
Verdict lines none none = All (λ l. reports l ≡ none) lines
Verdict lines none (some gate) = ⊥
Verdict lines (some f) none = ⊥
Verdict lines (some f) (some gate) = Judged lines f gate
