-- ===== src/Serial/Gate.antt =====
-- The verdict on a page fault holds after every line.
use mathlib.Core.Path.{subst}
use mathlib.Core.List.{append_assoc, append-nil}
use princess_ide.Prelude.{
  ℕ, ◌≡◌, refl, sym, ap, ◌∙◌, inl, inr, Bool, true, false, ◌&&◌, Option, none, some, List, [], ◌∷◌,
  ◌++◌, if◌then◌else◌, Option-cases, Bool-cases, All,
}
use princess_ide.Str.{split_once}
use princess_ide.Serial.Parse.{RawFault, is_page_fault, fault_prefix, parse_fault}
use princess_ide.Serial.Observer.{
  SerialObserver, PageFaultGate, new_observer, gate_for, complete, with_vector, line_error,
  see_banner, see_paging, see_vector, see_fault, see_panic, feed,
}
use princess_ide.Serial.Verdict.{
  feed_all, says_on, says_off, stated, IsClear, facts, see_banner-facts, see_panic-facts,
  see_vector-facts, see_paging-fault, see_paging-stated, Judged, Verdict, reports, due_gate,
}

stated-append :
    (before : Option Bool) (xs ys : List (List ℕ))
    → stated before (xs ++ ys) ≡ stated (stated before xs) ys
stated-append before [] ys = refl
stated-append before (x ∷ xs) ys =
    stated-append (if says_on x then some true else if says_off x then some false else before) xs ys

All-snoc :
    (lines : List (List ℕ)) (line : List ℕ)
    → All (λ l. reports l ≡ none) lines
    → reports line ≡ none
    → All (λ l. reports l ≡ none) (lines ++ (line ∷ []))
All-snoc [] line all e = (e, tt)
All-snoc (l ∷ lines) line (h, all) e = (h, All-snoc lines line all e)

-- A line without a fault leaves the verdict.
Verdict-quiet :
    (lines : List (List ℕ)) (line : List ℕ) (f : Option RawFault) (gate : Option PageFaultGate)
    → reports line ≡ none
    → Verdict lines f gate
    → Verdict (lines ++ (line ∷ [])) f gate
Verdict-quiet lines line none none quiet v = All-snoc lines line v quiet
Verdict-quiet lines line none (some gate) quiet v = v
Verdict-quiet lines line (some f) none quiet v = v
Verdict-quiet lines line (some f) (some gate) quiet v = record {
  earlier = v.earlier;
  line = v.line;
  later = v.later ++ (line ∷ []);
  parsed = v.parsed;
  split =
      ap (λ l. l ++ (line ∷ [])) v.split
      ∙ append_assoc (v.earlier ++ (v.line ∷ [])) v.later (line ∷ []);
  reported = v.reported;
  same = v.same;
  quiet = All-snoc v.later line v.quiet quiet;
  judged = v.judged;
}

gate_for-due_gate :
    (o : SerialObserver) (f : RawFault) → gate_for o f ≡ due_gate (is_page_fault f) o.paging_enabled
unfolding gate_for
gate_for-due_gate o f = elim (Bool-cases (is_page_fault f)) [
  | inr other ↦ rw (gate_for, other) refl
  | inl page ↦ elim (Option-cases o.paging_enabled) [
    | inl unknown ↦ rw (gate_for, page, unknown) refl
    | inr (true, known) ↦ rw (gate_for, page, known) refl
    | inr (false, known) ↦ rw (gate_for, page, known) refl
  ]
]

with_vector-rip :
    (o : SerialObserver) (f : RawFault)
    → ((with_vector o f).rip ≡ f.rip) × ((with_vector o f).rip_text ≡ f.rip_text)
unfolding with_vector
with_vector-rip o f = elim (Option-cases o.last_vector) [
  | inl nothing ↦ rw (with_vector, nothing) (refl, refl)
  | inr ((number, name), known) ↦ rw (with_vector, known) (refl, refl)
]

pub complete-rip :
    (o : SerialObserver) (line : List ℕ) (f : RawFault)
    → ((complete o line f).rip ≡ f.rip) × ((complete o line f).rip_text ≡ f.rip_text)
unfolding complete
complete-rip o line f = elim (Option-cases (line_error line)) [
  | inl missing ↦ rw (complete, missing) (with_vector-rip o f)
  | inr (e, there) ↦ rw (complete, there) (with_vector-rip o f)
]

-- An observer whose paging state and verdict are right after some lines.
pub record Sound (lines : List (List ℕ)) (o : SerialObserver) : Type 0 where
  pub paging : o.paging_enabled ≡ stated none lines
  pub verdict : Verdict lines o.fault o.page_fault_gate

-- The paging state is right with one line more than the verdict.
record Ahead (lines : List (List ℕ)) (line : List ℕ) (o : SerialObserver) : Type 0 where
  pub paging : o.paging_enabled ≡ stated none (lines ++ (line ∷ []))
  pub verdict : Verdict lines o.fault o.page_fault_gate

Ahead-quiet :
    (o : SerialObserver) (line : List ℕ) (lines : List (List ℕ))
    → reports line ≡ none
    → Ahead lines line o
    → Sound (lines ++ (line ∷ [])) o
Ahead-quiet o line lines quiet good = record {
  paging = good.paging;
  verdict = Verdict-quiet lines line o.fault o.page_fault_gate quiet good.verdict;
}

see_fault-Sound :
    (o : SerialObserver) (line : List ℕ) (lines : List (List ℕ))
    → Ahead lines line o
    → Sound (lines ++ (line ∷ [])) (see_fault o line).0
unfolding see_fault
see_fault-Sound o line lines good = elim (Option-cases (split_once fault_prefix line)) [
  | inl nothing ↦
      rw (see_fault, nothing) (Ahead-quiet o line lines (rw (reports, nothing) refl) good)
  | inr ((before, rest), there) ↦ elim (Option-cases (parse_fault rest)) [
    | inl missing ↦
        rw (see_fault, there, missing)
          (Ahead-quiet o line lines (rw (reports, there, missing) refl) good)
    | inr (parsed, found) ↦
        let f = complete o line parsed in
        let judged : Judged (lines ++ (line ∷ [])) f (gate_for o f) = record {
          earlier = lines;
          line = line;
          later = [];
          parsed = parsed;
          split = sym (append-nil (lines ++ (line ∷ [])));
          reported = rw (reports, there, found) refl;
          same = complete-rip o line parsed;
          quiet = tt;
          judged = gate_for-due_gate o f ∙ ap (due_gate (is_page_fault f)) good.paging;
        } in
        rw (see_fault, there, found) (record { paging = good.paging; verdict = judged })
  ]
]

-- The other steps do not touch what the verdict depends on.
facts-Sound :
    (o o' : SerialObserver) (lines : List (List ℕ))
    → facts o' ≡ facts o
    → Sound lines o
    → Sound lines o'
facts-Sound o o' lines e good = record {
  paging = ap (λ p. p.0) e ∙ good.paging;
  verdict = subst (λ p. Verdict lines p.0 p.1) (sym (ap (λ p. p.1) e)) good.verdict;
}

facts-Ahead :
    (o o' : SerialObserver) (line : List ℕ) (lines : List (List ℕ))
    → facts o' ≡ facts o
    → Ahead lines line o
    → Ahead lines line o'
facts-Ahead o o' line lines e good = record {
  paging = ap (λ p. p.0) e ∙ good.paging;
  verdict = subst (λ p. Verdict lines p.0 p.1) (sym (ap (λ p. p.1) e)) good.verdict;
}

see_paging-Ahead :
    (o : SerialObserver) (line : List ℕ) (lines : List (List ℕ))
    → (says_on line && says_off line) ≡ false
    → Sound lines o
    → Ahead lines line (see_paging o line).0
see_paging-Ahead o line lines clear good =
    let (f, g) = see_paging-fault o line in
    record {
      paging =
          see_paging-stated o line clear
          ∙ ap (λ p. stated p (line ∷ [])) good.paging
          ∙ sym (stated-append none lines (line ∷ []));
      verdict = rw (f, g) good.verdict;
    }

feed-Sound :
    (o : SerialObserver) (line : List ℕ) (lines : List (List ℕ))
    → (says_on line && says_off line) ≡ false
    → Sound lines o
    → Sound (lines ++ (line ∷ [])) (feed o line).0
unfolding feed
feed-Sound o line lines clear good =
    let o1 = (see_banner o line).0 in
    let o2 = (see_paging o1 line).0 in
    let o3 = see_vector o2 line in
    let o4 = (see_fault o3 line).0 in
    let banners = facts-Sound o o1 lines (see_banner-facts o line) good in
    let pagings = see_paging-Ahead o1 line lines clear banners in
    let vectors = facts-Ahead o2 o3 line lines (see_vector-facts o2 line) pagings in
    let faults = see_fault-Sound o3 line lines vectors in
    facts-Sound o4 (see_panic o4 line).0 (lines ++ (line ∷ [])) (see_panic-facts o4 line) faults

feed_all-Sound_from :
    (o : SerialObserver) (seen lines : List (List ℕ))
    → IsClear lines
    → Sound seen o
    → Sound (seen ++ lines) (feed_all o lines).0
feed_all-Sound_from o seen [] clear good = rw (append-nil seen) good
feed_all-Sound_from o seen (line ∷ rest) (c, clear) good =
    let go =
      feed_all-Sound_from (feed o line).0 (seen ++ (line ∷ [])) rest clear
        (feed-Sound o line seen c good) in
    subst (λ l. Sound l (feed_all (feed o line).0 rest).0) (append_assoc seen (line ∷ []) rest) go

-- After any lines of which none says both that paging is on and that it is off, a new observer's
-- paging state is what the last line that says something of paging says. It has a fault, and a gate,
-- exactly when some line reports a fault: then the fault's address is the one of the last such line,
-- and the gate confirms, denies or leaves open that paging was on as the lines up to that one do, or
-- does not apply if the fault is no page fault.
pub feed_all-Sound :
    (lines : List (List ℕ)) → IsClear lines → Sound lines (feed_all new_observer lines).0
feed_all-Sound lines clear =
    feed_all-Sound_from new_observer [] lines clear (record { paging = refl; verdict = tt })
