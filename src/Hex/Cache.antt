-- ===== src/Hex/Cache.antt =====
-- What one lookup does to the cache of a `HexReader`.
use princess_ide.Prelude.{
  ℕ, zero, suc, ◌+◌, ◌≤◌, ◌≡◌, refl, ap, arith, Option, none, some, List, [], ◌∷◌, length, All, ltb,
  Option-cases, Bool-cases, inl, inr, ok, ◌==◌,
}
use princess_ide.Hex.{
  File, HexReader, Window, Outcome, remove_window, pop_back, evict_from, evict, load_window, window,
  saturating_mul,
}

-- The window that was found has the index, and with the others makes up the cache.
record Removed (P : Window → Type 0) (index : ℕ) (cache : List Window) (r : Window × List Window)
    : Type 0 where
  pub at_index : r.0.0 ≡ index
  pub found : P r.0
  pub others : All P r.1
  pub one_less : length cache ≡ suc (length r.1)

remove_window-Removed :
    (P : Window → Type 0) (index : ℕ) (cache : List Window) (r : Window × List Window)
    → remove_window index cache ≡ some r
    → All P cache
    → Removed P index cache r
unfolding remove_window
remove_window-Removed P index [] r h all = absurd (ground arith)
remove_window-Removed P index ((i, w) ∷ cache) r h (here, all) = elim (Bool-cases (i == index)) [
  | inl same ↦
      let e : r ≡ ((i, w), cache) = ground arith in
      rw e (record { at_index = ground arith; found = here; others = all; one_less = refl })
  | inr other ↦ elim (Option-cases (remove_window index cache)) [
    | inl nothing ↦ absurd (ground arith)
    | inr ((v, rest), later) ↦
        let e : r ≡ (v, (i, w) ∷ rest) = ground arith in
        let d = remove_window-Removed P index cache (v, rest) later all in
        rw e (record {
          at_index = d.at_index;
          found = d.found;
          others = (here, d.others);
          one_less = ap suc d.one_less;
        })
  ]
]

All-pop_back : (P : Window → Type 0) (cache : List Window) → All P cache → All P (pop_back cache)
All-pop_back P [] all = tt
All-pop_back P (w ∷ []) all = tt
All-pop_back P (w ∷ v ∷ cache) (here, all) = (here, All-pop_back P (v ∷ cache) all)

length-pop_back : (w : Window) (cache : List Window) → length (pop_back (w ∷ cache)) ≡ length cache
length-pop_back w [] = refl
length-pop_back w (v ∷ cache) = ap suc (length-pop_back v cache)

All-evict_from :
    (P : Window → Type 0) (turns capacity : ℕ) (cache : List Window)
    → All P cache
    → All P (evict_from turns capacity cache)
unfolding evict_from
All-evict_from P zero capacity cache all = all
All-evict_from P (suc turns) capacity cache all = elim (Bool-cases (ltb capacity (length cache))) [
  | inl full ↦ rw full (All-evict_from P turns capacity (pop_back cache) (All-pop_back P cache all))
  | inr fits ↦ rw fits all
]

evict_from-fits :
    (turns capacity : ℕ) (cache : List Window)
    → length cache ≤ turns + capacity
    → length (evict_from turns capacity cache) ≤ capacity
unfolding evict_from
evict_from-fits zero capacity cache h = omega arith
evict_from-fits (suc turns) capacity [] h = ground arith
evict_from-fits (suc turns) capacity (w ∷ cache) h =
    ground (arith, length-pop_back w cache, evict_from-fits turns capacity (pop_back (w ∷ cache)))

-- What a lookup leaves: windows that have the property, no more than before or than the capacity;
-- and where it succeeds, a window of the index with the property.
pub record Looked (P : Window → Type 0) (reader : HexReader) (index : ℕ) (o : Outcome (List ℕ))
    : Type 0 where
  pub same_options : o.0.options ≡ reader.options
  pub same_len : o.0.len ≡ reader.len
  pub windows : All P o.0.cache
  pub bounded :
      length reader.cache ≤ reader.options.capacity → length o.0.cache ≤ reader.options.capacity
  pub looked : (bytes : List ℕ) → o.1 ≡ ok bytes → P (index, bytes)

load_window-Looked :
    (P : Window → Type 0) (reader : HexReader) (index : ℕ) (loaded : Option (List ℕ))
    → All P reader.cache
    → ((bytes : List ℕ) → loaded ≡ some bytes → P (index, bytes))
    → Looked P reader index (load_window reader index loaded)
unfolding evict
load_window-Looked P reader index none all good = record {
  same_options = refl;
  same_len = refl;
  windows = all;
  bounded = λ h. h;
  looked = λ bytes e. absurd (ground arith);
}
load_window-Looked P reader index (some buffer) all good = record {
  same_options = refl;
  same_len = refl;
  windows =
      All-evict_from P (suc (length reader.cache)) reader.options.capacity
        ((index, buffer) ∷ reader.cache) (good buffer refl, all);
  bounded = λ h.
      evict_from-fits (suc (length reader.cache)) reader.options.capacity
        ((index, buffer) ∷ reader.cache) (omega arith);
  looked = λ bytes e. let same : buffer ≡ bytes = ground arith in rw (← same) (good buffer refl);
}

pub window-Looked :
    (P : Window → Type 0) (file : File) (reader : HexReader) (index : ℕ)
    → All P reader.cache
    → ((bytes : List ℕ)
        → file.read_at (saturating_mul index reader.options.window_size) reader.options.window_size
          ≡ some bytes
        → P (index, bytes))
    → Looked P reader index (window file reader index)
unfolding window
window-Looked P file reader index all good =
    elim (Option-cases (remove_window index reader.cache)) [
      | inl miss ↦
          rw (window, miss)
            (load_window-Looked P reader index
              (file.read_at (saturating_mul index reader.options.window_size)
                reader.options.window_size)
              all good)
      | inr (((i, w), rest), hit) ↦
          let d = remove_window-Removed P index reader.cache ((i, w), rest) hit all in
          rw (window, hit)
            (record {
              same_options = refl;
              same_len = refl;
              windows = (d.found, d.others);
              bounded = λ h. omega (arith, d.one_less);
              looked = λ bytes e.
                  let same : w ≡ bytes = ground arith in rw (← same, ← d.at_index) d.found;
            })
    ]
