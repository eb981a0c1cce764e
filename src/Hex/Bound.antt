-- ===== src/Hex/Bound.antt =====
-- The cache of a `HexReader` never outgrows its options, whatever the file does and whether or not
-- the reads succeed.
use princess_ide.Prelude.{
  ℕ, zero, suc, ◌+◌, ◌-◌, ◌*◌, ◌/◌, ◌≤◌, ◌≡◌, ap, ◌∙◌, arith, some, List, [], ◌∷◌, length, All, ltb,
  leb, min, Bool-cases, inl, inr, ok, err, ◌==◌,
}
use princess_ide.GuestMem.{saturating_add}
use princess_ide.Hex.{
  File, HexReader, HexWindowOptions, Window, Outcome, window, saturating_mul, serve, read_loop,
  read_range, require, count_served, count_short,
}
use princess_ide.Hex.Rows.{HexLine, lines_loop, add_line}
use princess_ide.Hex.Cache.{window-Looked}

-- `pread` never gives more than was asked for.
abbrev pub ReadsAtMost : File → Type 0
ReadsAtMost file = (o n : ℕ) (bytes : List ℕ) → file.read_at o n ≡ some bytes → length bytes ≤ n

abbrev pub IsSmall : ℕ → Window → Type 0
IsSmall size (index, bytes) = length bytes ≤ size

pub record IsBounded (options : HexWindowOptions) (reader : HexReader) : Type 0 where
  pub same : reader.options ≡ options
  pub few : length reader.cache ≤ options.capacity
  pub windows : All (IsSmall options.window_size) reader.cache

-- The bytes that the windows hold.
abbrev pub held : List Window → ℕ
held [] = 0
held ((i, bytes) ∷ cache) = length bytes + held cache

pub held_bound :
    (size : ℕ) (cache : List Window) → All (IsSmall size) cache → held cache ≤ length cache * size
held_bound size [] all = omega arith
held_bound size ((i, bytes) ∷ cache) (small, all) = grind (arith, held_bound size cache all)

window-IsBounded :
    (options : HexWindowOptions) (file : File) (reader : HexReader) (index : ℕ)
    → ReadsAtMost file
    → IsBounded options reader
    → IsBounded options (window file reader index).0
window-IsBounded options file reader index most good =
    let look =
      window-Looked (IsSmall options.window_size) file reader index good.windows
        (λ bytes e. rw (← good.same) (most _ _ bytes e)) in
    record {
      same = look.same_options ∙ good.same;
      few = ground (arith, look.bounded, ap (λ o. o.capacity) good.same, good.few);
      windows = look.windows;
    }

-- A change of the statistics alone.
recount :
    (options : HexWindowOptions) (reader : HexReader)
    → IsBounded options reader
    → IsBounded options (count_short reader)
recount options reader good = record { same = good.same; few = good.few; windows = good.windows }

serve-IsBounded :
    (options : HexWindowOptions) (position end : ℕ) (out : List ℕ) (o : Outcome (List ℕ))
    (within : ℕ) (onward : HexReader → ℕ → List ℕ → Outcome (List ℕ))
    → IsBounded options o.0
    → ((r : HexReader) (p : ℕ) (out' : List ℕ)
        → IsBounded options r
        → IsBounded options (onward r p out').0)
    → IsBounded options (serve position end out o within onward).0
serve-IsBounded options position end out (reader, err e) within onward good more = good
serve-IsBounded options position end out (reader, ok bytes) within onward good more =
    elim (Bool-cases (length bytes - within == 0)) [
      | inl nothing ↦ rw (serve, nothing) (recount options reader good)
      | inr some_left ↦ rw (serve, some_left) (more _ _ _ good)
    ]

read_loop-IsBounded :
    (options : HexWindowOptions) (file : File) (fuel : ℕ) (reader : HexReader) (position end : ℕ)
    (out : List ℕ)
    → ReadsAtMost file
    → IsBounded options reader
    → IsBounded options (read_loop file fuel reader position end out).0
unfolding read_loop
read_loop-IsBounded options file zero reader position end out most good = good
read_loop-IsBounded options file (suc fuel) reader position end out most good =
    elim (Bool-cases (ltb position end)) [
      | inr done ↦ rw (read_loop, done) good
      | inl more ↦
          rw (read_loop, more)
            (serve-IsBounded options position end out
              (window file reader (position / reader.options.window_size))
              (position - position / reader.options.window_size * reader.options.window_size)
              (λ r p o. read_loop file fuel r p end o)
              (window-IsBounded options file reader (position / reader.options.window_size) most
                good)
              (λ r p o b. read_loop-IsBounded options file fuel r p end o most b))
    ]

count_served-IsBounded :
    (options : HexWindowOptions) (len : ℕ) (o : Outcome (List ℕ))
    → IsBounded options o.0
    → IsBounded options (count_served len o).0
count_served-IsBounded options len (reader, err e) good = good
count_served-IsBounded options len (reader, ok out) good =
    elim (Bool-cases (ltb (length out) len)) [
      | inl short ↦
          rw (count_served, short)
            (record { same = good.same; few = good.few; windows = good.windows })
      | inr whole ↦
          rw (count_served, whole)
            (record { same = good.same; few = good.few; windows = good.windows })
    ]

pub read_range-IsBounded :
    (options : HexWindowOptions) (file : File) (reader : HexReader) (offset len : ℕ)
    → ReadsAtMost file
    → IsBounded options reader
    → IsBounded options (read_range file reader offset len).0
unfolding read_range
read_range-IsBounded options file reader offset len most good =
    count_served-IsBounded options len
      (read_loop file (saturating_add offset len - offset) reader offset (saturating_add offset len)
        [])
      (read_loop-IsBounded options file (saturating_add offset len - offset) reader offset
        (saturating_add offset len) [] most good)

pub require-IsBounded :
    (options : HexWindowOptions) (len : ℕ) (o : Outcome (List ℕ))
    → IsBounded options o.0
    → IsBounded options (require len o).0
require-IsBounded options len (reader, err e) good = good
require-IsBounded options len (reader, ok bytes) good = good

add_line-IsBounded :
    (options : HexWindowOptions) (offset : ℕ) (lines : List HexLine) (o : Outcome (List ℕ))
    (onward : HexReader → List HexLine → Outcome (List HexLine))
    → IsBounded options o.0
    → ((r : HexReader) (ls : List HexLine)
        → IsBounded options r
        → IsBounded options (onward r ls).0)
    → IsBounded options (add_line offset lines o onward).0
add_line-IsBounded options offset lines (reader, err e) onward good more = good
add_line-IsBounded options offset lines (reader, ok bytes) onward good more = more _ _ good

pub lines_loop-IsBounded :
    (options : HexWindowOptions) (file : File) (left : ℕ) (reader : HexReader) (first_row index : ℕ)
    (lines : List HexLine)
    → ReadsAtMost file
    → IsBounded options reader
    → IsBounded options (lines_loop file left reader first_row index lines).0
unfolding lines_loop
lines_loop-IsBounded options file zero reader first_row index lines most good = good
lines_loop-IsBounded options file (suc left) reader first_row index lines most good =
    let offset = saturating_mul (saturating_add first_row index) 16 in
    elim (Bool-cases (leb reader.len offset)) [
      | inl done ↦ rw (lines_loop, done) good
      | inr more ↦
          rw (lines_loop, more)
            (add_line-IsBounded options offset lines
              (read_range file reader offset (min (reader.len - offset) 16))
              (λ r ls. lines_loop file left r first_row (index + 1) ls)
              (read_range-IsBounded options file reader offset (min (reader.len - offset) 16) most
                good)
              (λ r ls b. lines_loop-IsBounded options file left r first_row (index + 1) ls most b))
    ]
