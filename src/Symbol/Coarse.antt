-- ===== src/Symbol/Coarse.antt =====
-- The function-level answer for an address is the narrowest symbol that has it.
use Prim.Native.String.{String}
use princess_ide.Prelude.{
  zero, suc, ◌+◌, min, ℕ, ◌≤◌, ◌<◌, ◌≡◌, ◌⊎◌, refl, sym, ap, ◌∙◌, inl, inr, arith, true, false,
  Option, none, some, List, [], ◌∷◌, leb, leb_iff, ◌-◌, ◌^◌, All, Option-cases, Bool-cases, ok,
}
use mathlib.Core.Path.{subst}
use princess_ide.Symbol.{
  SymbolInfo, CoarseLocation, extent, covers, narrower, best_symbol, located, coarse_location,
}

abbrev pub IsAmong : SymbolInfo → List SymbolInfo → Type 0
IsAmong found [] = ⊥
IsAmong found (s ∷ symbols) = (found ≡ s) ⊎ IsAmong found symbols

-- A symbol has an address: its own, when its size is 0; else those from its own on, as many as its size,
-- but never the last of the address space, where a sum saturates.
abbrev pub Has : SymbolInfo → ℕ → Type 0
Has s address =
    ((s.size ≡ 0) × (address ≡ s.address))
    ⊎ ((s.address ≤ address) × (address < s.address + s.size) × (address < 2 ^ 64 - 1))

-- The number of addresses that a symbol counts for.
abbrev pub width : ℕ → ℕ
width zero = 1
width (suc n) = suc n

width_pos : (n : ℕ) → (0 < width n) × (n ≤ width n)
width_pos zero = omega arith
width_pos (suc n) = omega arith

extent-width : (s : SymbolInfo) → extent s ≡ width s.size
extent-width s = extent_of s s.size refl
  where
    extent_of : (s : SymbolInfo) (n : ℕ) → s.size ≡ n → extent s ≡ width n
    extent_of s zero e = ground arith
    extent_of s (suc n) e = ground arith

covers-Has : (s : SymbolInfo) (address : ℕ) → covers s address ≡ true → Has s address
unfolding covers
covers-Has s address h = ground arith

Has-covers : (s : SymbolInfo) (address : ℕ) → covers s address ≡ false → ¬ Has s address
unfolding covers
Has-covers s address h has = ground arith

-- No symbol of these that has the address is narrower than the width.
abbrev pub IsBelow : ℕ → ℕ → List SymbolInfo → Type 0
IsBelow address width symbols = All (λ s. (covers s address ≡ false) ⊎ (width ≤ extent s)) symbols

-- `found` is what the loop ends with when it starts with `best`.
record Best (address : ℕ) (best : Option SymbolInfo) (symbols : List SymbolInfo)
    (found : SymbolInfo) : Type 0 where
  pub from : (best ≡ some found) ⊎ (IsAmong found symbols × (covers found address ≡ true))
  pub below : IsBelow address (extent found) symbols
  pub before : (b : SymbolInfo) → best ≡ some b → extent found ≤ extent b

abbrev Outcome : ℕ → Option SymbolInfo → List SymbolInfo → Option SymbolInfo → Type 0
Outcome address best symbols none = (best ≡ none) × All (λ s. covers s address ≡ false) symbols
Outcome address best symbols (some found) = Best address best symbols found

some_inj : {a b : SymbolInfo} → ◌≡◌ {A = Option SymbolInfo} (some a) (some b) → a ≡ b
some_inj h = ground arith

narrower_from :
    (best : Option SymbolInfo) (s : SymbolInfo)
    → (best ≡ some (narrower best s)) ⊎ (narrower best s ≡ s)
narrower_from none s = inr refl
narrower_from (some prev) s = elim (Bool-cases (leb (extent s) (extent prev))) [
  | inl yes_less ↦ inr (rw yes_less refl)
  | inr more ↦ inl (rw more refl)
]

narrower-extent :
    (best : Option SymbolInfo) (s : SymbolInfo)
    → (extent (narrower best s) ≤ extent s)
      × ((b : SymbolInfo) → best ≡ some b → extent (narrower best s) ≤ extent b)
narrower-extent none s = (omega arith, λ b e. absurd (ground arith))
narrower-extent (some prev) s = elim (Bool-cases (leb (extent s) (extent prev))) [
  | inl less ↦
      let le = (leb_iff (extent s) (extent prev)).0 less in
      rw less (omega arith, λ b e. rw (← ap extent (some_inj e)) le)
  | inr more ↦
      let lt : extent prev < extent s = ground (arith, more) in
      rw more (omega (arith, lt), λ b e. rw (← ap extent (some_inj e)) (omega arith))
]

Outcome-skip :
    (address : ℕ) (best : Option SymbolInfo) (s : SymbolInfo) (symbols : List SymbolInfo)
    (o : Option SymbolInfo)
    → covers s address ≡ false
    → Outcome address best symbols o
    → Outcome address best (s ∷ symbols) o
Outcome-skip address best s symbols none out (e, all) = (e, (out, all))
Outcome-skip address best s symbols (some found) out b = record {
  from = elim b.from [ inl e ↦ inl e | inr (m, c) ↦ inr (inr m, c) ];
  below = (inl out, b.below);
  before = b.before;
}

Outcome-take :
    (address : ℕ) (best : Option SymbolInfo) (s : SymbolInfo) (symbols : List SymbolInfo)
    (o : Option SymbolInfo)
    → covers s address ≡ true
    → Outcome address (some (narrower best s)) symbols o
    → Outcome address best (s ∷ symbols) o
Outcome-take address best s symbols none inside (e, all) = absurd (ground arith)
Outcome-take address best s symbols (some found) inside b =
    let (of_s, of_best) = narrower-extent best s in
    let wide = b.before (narrower best s) refl in
    record {
      from = elim b.from [
        | inr (m, c) ↦ inr (inr m, c)
        | inl e ↦
            let same : narrower best s ≡ found = some_inj e in
            elim (narrower_from best s) [
              | inl old ↦ inl (old ∙ e)
              | inr new ↦ let own : found ≡ s = sym same ∙ new in inr (inl own, rw own inside)
            ]
      ];
      below = (inr (omega (arith, of_s, wide)), b.below);
      before = λ c e. omega (arith, of_best c e, wide);
    }

best_symbol-Outcome :
    (address : ℕ) (best : Option SymbolInfo) (symbols : List SymbolInfo)
    → Outcome address best symbols (best_symbol address best symbols)
unfolding best_symbol
best_symbol-Outcome address none [] = (refl, tt)
best_symbol-Outcome address (some b) [] = record {
  from = inl refl;
  below = tt;
  before = λ c e. rw (← ap extent (some_inj e)) (omega arith);
}
best_symbol-Outcome address best (s ∷ symbols) = elim (Bool-cases (covers s address)) [
  | inl inside ↦
      let o = best_symbol address (some (narrower best s)) symbols in
      rw (best_symbol, inside)
        (Outcome-take address best s symbols o inside
          (best_symbol-Outcome address (some (narrower best s)) symbols))
  | inr out ↦
      rw (best_symbol, out)
        (Outcome-skip address best s symbols (best_symbol address best symbols) out
          (best_symbol-Outcome address best symbols))
]

-- The location of a symbol that has the address and than which no other that has it is narrower.
pub record IsNarrowest (address : ℕ) (symbols : List SymbolInfo) (l : CoarseLocation) : Type 0 where
  pub own : SymbolInfo
  pub among : IsAmong own symbols
  pub inside : Has own address
  pub below : All (λ s. Has s address → width own.size ≤ width s.size) symbols
  pub name : l.raw_symbol ≡ own.name
  pub start : l.address_start ≡ own.address
  pub end : l.address_end ≡ min (own.address + width own.size) (2 ^ 64 - 1)

abbrev pub Answer : ℕ → List SymbolInfo → Option CoarseLocation → Type 0
Answer address symbols none = All (λ s. ¬ Has s address) symbols
Answer address symbols (some l) = IsNarrowest address symbols l

none-Has :
    (address : ℕ) (symbols : List SymbolInfo)
    → All (λ s. covers s address ≡ false) symbols
    → All (λ s. ¬ Has s address) symbols
none-Has address [] h = tt
none-Has address (s ∷ symbols) (h, hs) = (Has-covers s address h, none-Has address symbols hs)

below-Has :
    (address : ℕ) (own : SymbolInfo) (symbols : List SymbolInfo)
    → IsBelow address (extent own) symbols
    → All (λ s. Has s address → width own.size ≤ width s.size) symbols
below-Has address own [] h = tt
below-Has address own (s ∷ symbols) (h, hs) = (
  λ has. elim h [
    | inl out ↦ absurd (Has-covers s address out has)
    | inr le ↦ omega (arith, le, extent-width own, extent-width s)
  ],
  below-Has address own symbols hs,
)

-- `coarse_location` always answers when the symbols can be read. It answers with none when no symbol has
-- the address: a symbol of size 0 has its own address alone, another those of its range, but for the
-- last address of the address space. Otherwise it answers with a symbol that has the address and than
-- which no other that has it is narrower, by its name, its start, and its end, which saturates.
pub coarse_location-narrowest :
    (demangle : String → String) (symbols : List SymbolInfo) (address : ℕ)
    → (answer : Option CoarseLocation) × (coarse_location demangle (ok symbols) address ≡ ok answer)
      × Answer address symbols answer
unfolding coarse_location
coarse_location-narrowest demangle symbols address =
    let outcome = best_symbol-Outcome address none symbols in
    elim (Option-cases (best_symbol address none symbols)) [
      | inl nothing ↦ (
        none,
        rw (coarse_location, nothing) refl,
        none-Has address symbols (subst (Outcome address none symbols) nothing outcome).1,
      )
      | inr (s, there) ↦
          let b = subst (Outcome address none symbols) there outcome in
          elim b.from [
            | inl e ↦ absurd (ground arith)
            | inr (among, inside) ↦ (
              some (located demangle s),
              rw (coarse_location, there) refl,
              record {
                own = s;
                among = among;
                inside = covers-Has s address inside;
                below = below-Has address s symbols b.below;
                name = refl;
                start = refl;
                end = ap (λ n. min (s.address + n) (2 ^ 64 - 1)) (extent-width s);
              },
            )
          ]
    ]
