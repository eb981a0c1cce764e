-- ===== src/Hex/History.antt =====
-- Every reader that a sequence of calls can lead to stays within its options.
use princess_ide.Prelude.{
  ℕ, ◌*◌, ◌^◌, ◌<◌, ◌≤◌, ◌≡◌, refl, ap, arith, [], length, Option-cases, inl, inr, ok,
}
use princess_ide.Hex.{
  File, HexReader, HexWindowOptions, byte_bound, max_of, opened, with_options, refresh_len,
  clear_cache, stats, read_range, read_exact_at,
}
use princess_ide.Hex.Rows.{read_lines}
use princess_ide.Hex.Bound.{
  ReadsAtMost, IsBounded, held, held_bound, read_range-IsBounded, require-IsBounded,
  lines_loop-IsBounded,
}

-- One call, on the file as it is at that moment.
pub data Step (reader : HexReader) : HexReader → Type 0 where
  read :
      (file : File) (offset len : ℕ)
      → ReadsAtMost file
      → Step reader (read_range file reader offset len).0
  read_exact :
      (file : File) (offset len : ℕ)
      → ReadsAtMost file
      → Step reader (read_exact_at file reader offset len).0
  lines :
      (file : File) (first_row row_count : ℕ)
      → ReadsAtMost file
      → Step reader (read_lines file reader first_row row_count).0
  refresh : (file : File) → Step reader (refresh_len file reader).0
  clear : Step reader (clear_cache reader)

pub data Reach (start : HexReader) : HexReader → Type 0 where
  here : Reach start start
  next : {r s : HexReader} → Reach start r → Step r s → Reach start s

Step-IsBounded :
    (options : HexWindowOptions) {r s : HexReader}
    → Step r s
    → IsBounded options r
    → IsBounded options s
unfolding read_exact_at read_lines refresh_len clear_cache
Step-IsBounded options {r} (read file offset len most) good =
    read_range-IsBounded options file r offset len most good
Step-IsBounded options {r} (read_exact file offset len most) good =
    require-IsBounded options len (read_range file r offset len)
      (read_range-IsBounded options file r offset len most good)
Step-IsBounded options {r} (lines file first_row row_count most) good =
    lines_loop-IsBounded options file row_count r first_row 0 [] most good
Step-IsBounded options {r} (refresh file) good = elim (Option-cases file.metadata_len) [
  | inl gone ↦ rw (refresh_len, gone) good
  | inr (len, there) ↦
      rw (refresh_len, there) (record { same = good.same; few = good.few; windows = good.windows })
]
Step-IsBounded options clear good = record { same = good.same; few = omega arith; windows = tt }

Reach-IsBounded :
    (options : HexWindowOptions) {r s : HexReader}
    → Reach r s
    → IsBounded options r
    → IsBounded options s
Reach-IsBounded options here good = good
Reach-IsBounded options (next reach step) good =
    Step-IsBounded options step (Reach-IsBounded options reach good)

abbrev clamped : HexWindowOptions → HexWindowOptions
clamped options = record {
  window_size = max_of options.window_size 1;
  capacity = max_of options.capacity 1;
}

with_options-IsBounded :
    (file : File) (options : HexWindowOptions) (reader : HexReader)
    → with_options file options ≡ ok reader
    → IsBounded (clamped options) reader
unfolding with_options
with_options-IsBounded file options reader h = elim (Option-cases file.metadata_len) [
  | inl gone ↦ absurd (ground arith)
  | inr (len, there) ↦
      let e : opened len options ≡ reader = ground arith in
      rw (← e) (record { same = refl; few = omega arith; windows = tt })
]

product_bound : (n c s : ℕ) → n ≤ c → n * s ≤ s * c
product_bound n c s h = grind arith

-- The bytes that the cache of a reader holds, and the number that its statistics show for them, stay
-- within the bound that its options give, where that bound is below 2 ^ 64, after any sequence of calls, on files that may change, as
-- long as `pread` never gives more than was asked for.
pub held_bound-Reach :
    (file : File) (options : HexWindowOptions) (start reader : HexReader)
    → max_of options.window_size 1 * max_of options.capacity 1 < 2 ^ 64
    → with_options file options ≡ ok start
    → Reach start reader
    → (held reader.cache ≤ byte_bound options)
      × ((stats reader).resident_bytes ≤ byte_bound options)
unfolding byte_bound stats
held_bound-Reach file options start reader fits opened reach =
    let good =
      Reach-IsBounded (clamped options) reach (with_options-IsBounded file options start opened) in
    let h = held_bound (max_of options.window_size 1) reader.cache good.windows in
    let e = ap (λ o. o.window_size) good.same in
    let all =
      product_bound (length reader.cache) (max_of options.capacity 1) (max_of options.window_size 1)
        good.few in
    (omega (arith, h, all), rw e (omega (arith, all)))
