-- ===== src/Serial/Tally.antt =====
-- The observer's counts against the observations that it has given.
use princess_ide.Prelude.{
  ℕ, ◌+◌, ◌%◌, ◌^◌, ◌<◌, ◌≡◌, refl, inl, inr, arith, Bool, true, false, not, ◌&&◌, none, some, List,
  [], ◌∷◌, ◌++◌, Option-cases, Bool-cases, if◌then◌else◌,
}
use princess_ide.Str.{codes, contains, split_once}
use princess_ide.Serial.Parse.{
  RawFault, fault_prefix, exception_prefix, panic_prefix, paging_enabled_marker, parse_fault,
  parse_vector, detect_banner,
}
use princess_ide.Serial.Observer.{
  SerialObserver, SerialObservation, banner, fault, panic, paging_state, new_observer, is_state,
  PageFaultGate, complete, gate_for, see_banner, see_paging, see_vector, see_fault, see_panic, feed,
}
use princess_ide.Serial.Verdict.{feed_all}

abbrev pub is_banner : SerialObservation → ℕ
is_banner (banner text) = 1
is_banner (fault f) = 0
is_banner panic = 0
is_banner (paging_state on) = 0

abbrev pub is_fault : SerialObservation → ℕ
is_fault (banner text) = 0
is_fault (fault f) = 1
is_fault panic = 0
is_fault (paging_state on) = 0

abbrev pub is_panic : SerialObservation → ℕ
is_panic (banner text) = 0
is_panic (fault f) = 0
is_panic panic = 1
is_panic (paging_state on) = 0

-- How many observations a test counts.
abbrev pub count : (SerialObservation → ℕ) → List SerialObservation → ℕ
count test [] = 0
count test (x ∷ xs) = test x + count test xs

abbrev pub banner_count : SerialObserver → ℕ
banner_count o = elim o.banner [ some text ↦ 1 | none ↦ 0 ]

abbrev pub panic_count : SerialObserver → ℕ
panic_count o = if o.panic_seen then 1 else 0

-- From `o` to `next` the counts grow by the observations `seen`.
pub record Counts (o next : SerialObserver) (seen : List SerialObservation) : Type 0 where
  pub banner_growth : banner_count next ≡ banner_count o + count is_banner seen
  pub panic_growth : panic_count next ≡ panic_count o + count is_panic seen
  pub fault_growth : next.fault_count % 2 ^ 64 ≡ (o.fault_count + count is_fault seen) % 2 ^ 64
  pub fault_bound : o.fault_count < 2 ^ 64 → next.fault_count < 2 ^ 64

count-append :
    (test : SerialObservation → ℕ) (xs ys : List SerialObservation)
    → count test (xs ++ ys) ≡ count test xs + count test ys
count-append test [] ys = omega arith
count-append test (x ∷ xs) ys = omega (arith, count-append test xs ys)

Counts-refl : (o : SerialObserver) → Counts o o []
Counts-refl o = record {
  banner_growth = omega arith;
  panic_growth = omega arith;
  fault_growth = omega arith;
  fault_bound = λ h. h;
}

Counts-trans :
    (a b c : SerialObserver) (xs ys : List SerialObservation)
    → Counts a b xs
    → Counts b c ys
    → Counts a c (xs ++ ys)
Counts-trans a b c xs ys p q = record {
  banner_growth = omega (arith, p.banner_growth, q.banner_growth, count-append is_banner xs ys);
  panic_growth = omega (arith, p.panic_growth, q.panic_growth, count-append is_panic xs ys);
  fault_growth = omega (arith, p.fault_growth, q.fault_growth, count-append is_fault xs ys);
  fault_bound = λ h. q.fault_bound (p.fault_bound h);
}

see_banner-Counts :
    (o : SerialObserver) (line : List ℕ) → Counts o (see_banner o line).0 (see_banner o line).1
unfolding see_banner
see_banner-Counts o line = elim (Option-cases o.banner) [
  | inr (text, there) ↦ simp (see_banner, there) (Counts-refl o)
  | inl nothing ↦ elim (Option-cases (detect_banner line)) [
    | inl missing ↦ simp (see_banner, nothing, missing) (Counts-refl o)
    | inr (text, there) ↦
        let grown : Counts o (record o { banner = some text }) (banner text ∷ []) = record {
          banner_growth = rw nothing refl;
          panic_growth = omega arith;
          fault_growth = omega arith;
          fault_bound = λ h. h;
        } in
        simp (see_banner, nothing, there) grown
  ]
]

and_not : (a b : Bool) → (a && not b) ≡ true → b ≡ false
and_not a true h = absurd (ground arith)
and_not a false h = refl

see_panic-Counts :
    (o : SerialObserver) (line : List ℕ) → Counts o (see_panic o line).0 (see_panic o line).1
unfolding see_panic
see_panic-Counts o line = elim (Bool-cases (contains panic_prefix line && not o.panic_seen)) [
  | inr other ↦ simp (see_panic, other) (Counts-refl o)
  | inl first ↦
      let fresh = and_not (contains panic_prefix line) o.panic_seen first in
      let grown : Counts o (record o { panic_seen = true }) (panic ∷ []) = record {
        banner_growth = omega arith;
        panic_growth = rw fresh refl;
        fault_growth = omega arith;
        fault_bound = λ h. h;
      } in
      simp (see_panic, first) grown
]

paging_grown :
    (o : SerialObserver) (on : Bool)
    → Counts o (record o { paging_enabled = some on }) (paging_state on ∷ [])
paging_grown o on = record {
  banner_growth = omega arith;
  panic_growth = omega arith;
  fault_growth = omega arith;
  fault_bound = λ h. h;
}

see_paging-Counts :
    (o : SerialObserver) (line : List ℕ) → Counts o (see_paging o line).0 (see_paging o line).1
unfolding see_paging
see_paging-Counts o line =
    elim (Bool-cases
      (contains paging_enabled_marker line && not (is_state o.paging_enabled true))) [
        | inl on ↦ simp (see_paging, on) (paging_grown o true)
        | inr other ↦
            elim (Bool-cases
              (contains (codes "CR0.PG=0") line && not (is_state o.paging_enabled false))) [
                | inl off ↦ simp (see_paging, other, off) (paging_grown o false)
                | inr silent ↦ simp (see_paging, other, silent) (Counts-refl o)
              ]
      ]

see_vector-Counts : (o : SerialObserver) (line : List ℕ) → Counts o (see_vector o line) []
unfolding see_vector
see_vector-Counts o line = elim (Option-cases (split_once exception_prefix line)) [
  | inl nothing ↦ simp (see_vector, nothing) (Counts-refl o)
  | inr ((before, rest), there) ↦ elim (Option-cases (parse_vector rest)) [
    | inl missing ↦ simp (see_vector, there, missing) (Counts-refl o)
    | inr (vector, parsed) ↦
        let same : Counts o (record o { last_vector = some vector }) [] = record {
          banner_growth = omega arith;
          panic_growth = omega arith;
          fault_growth = omega arith;
          fault_bound = λ h. h;
        } in
        simp (see_vector, there, parsed) same
  ]
]

fault_grown :
    (o : SerialObserver) (f : RawFault) (gate : PageFaultGate)
    → Counts o
        (record o {
          fault_count = (o.fault_count + 1) % 2 ^ 64;
          page_fault_gate = some gate;
          fault = some f;
        })
        (fault f ∷ [])
fault_grown o f gate = record {
  banner_growth = omega arith;
  panic_growth = omega arith;
  fault_growth = omega arith;
  fault_bound = λ h. omega arith;
}

see_fault-Counts :
    (o : SerialObserver) (line : List ℕ) → Counts o (see_fault o line).0 (see_fault o line).1
unfolding see_fault
see_fault-Counts o line = elim (Option-cases (split_once fault_prefix line)) [
  | inl nothing ↦ simp (see_fault, nothing) (Counts-refl o)
  | inr ((before, rest), there) ↦ elim (Option-cases (parse_fault rest)) [
    | inl missing ↦ simp (see_fault, there, missing) (Counts-refl o)
    | inr (parsed, found) ↦
        let f = complete o line parsed in
        simp (see_fault, there, found) (fault_grown o f (gate_for o f))
  ]
]

feed-Counts : (o : SerialObserver) (line : List ℕ) → Counts o (feed o line).0 (feed o line).1
unfolding feed
feed-Counts o line =
    let (o1, banner_seen) = see_banner o line in
    let (o2, paging_seen) = see_paging o1 line in
    let o3 = see_vector o2 line in
    let (o4, fault_seen) = see_fault o3 line in
    let (o5, panic_seen) = see_panic o4 line in
    let ends =
      Counts-trans o3 o4 o5 fault_seen panic_seen (see_fault-Counts o3 line)
        (see_panic-Counts o4 line) in
    let vector =
      Counts-trans o2 o3 o5 [] (fault_seen ++ panic_seen) (see_vector-Counts o2 line) ends in
    let paging =
      Counts-trans o1 o2 o5 paging_seen (fault_seen ++ panic_seen) (see_paging-Counts o1 line)
        vector in
    Counts-trans o o1 o5 banner_seen (paging_seen ++ (fault_seen ++ panic_seen))
      (see_banner-Counts o line) paging

feed_all-Counts :
    (o : SerialObserver) (lines : List (List ℕ))
    → Counts o (feed_all o lines).0 (feed_all o lines).1
feed_all-Counts o [] = Counts-refl o
feed_all-Counts o (line ∷ rest) =
    let (next, seen) = feed o line in
    let (last, more) = feed_all next rest in
    Counts-trans o next last seen more (feed-Counts o line) (feed_all-Counts next rest)

-- After any lines, a new observer has given one banner observation if it has a banner and none
-- otherwise, one panic observation if it has seen a panic and none otherwise, and its fault count is
-- the number of its fault observations, up to wrap-around.
pub feed_all-count :
    (lines : List (List ℕ))
    → let (last, seen) = feed_all new_observer lines in
      (count is_banner seen ≡ banner_count last)
      × (count is_panic seen ≡ panic_count last)
      × (last.fault_count ≡ count is_fault seen % 2 ^ 64)
feed_all-count lines =
    let (last, seen) = feed_all new_observer lines in
    let c = feed_all-Counts new_observer lines in
    let b = c.banner_growth in
    let p = c.panic_growth in
    let f = c.fault_growth in
    let small = c.fault_bound (omega arith) in
    (omega (arith, b), omega (arith, p), omega (arith, f, small))
