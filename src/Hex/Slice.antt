-- ===== src/Hex/Slice.antt =====
-- A `HexReader` reads what the file holds, whatever its cache went through.
use native.Mathlib.Nat.{div-mul-le_self, mod-eq-sub-div-mul, mod-lt}
use mathlib.Core.List.{append-nil, append_assoc}
use princess_ide.Prelude.{
  ℕ, zero, suc, ◌+◌, ◌-◌, ◌*◌, ◌/◌, ◌^◌, ◌≤◌, ◌<◌, min, ◌≡◌, refl, sym, ap, ◌∙◌, arith, true, false,
  some, List, [], ◌++◌, length, take, drop, All, ltb, Option-cases, Bool-cases, inl, inr, ok, err,
  ◌==◌, length-drop_sub, length-take-min, drop-drop, drop-take, take-take, take_plus, drop_beyond,
  take_nil,
}
use princess_ide.GuestMem.{saturating_add}
use princess_ide.Hex.{
  File, HexReader, Window, Outcome, remove_window, window, saturating_mul, serve, read_loop,
  read_range, count_served, count_short,
}
use princess_ide.Hex.Cache.{window-Looked}

-- A file that nobody writes to: `pread` gives the bytes at the offset, as many as there are.
abbrev pub Serves : File → List ℕ → Type 0
Serves file contents = (o n : ℕ) → file.read_at o n ≡ some (take n (drop o contents))

-- The window that the file has at an index.
abbrev pub part : List ℕ → ℕ → ℕ → List ℕ
part contents size index = take size (drop (index * size) contents)

abbrev pub IsPart : List ℕ → ℕ → Window → Type 0
IsPart contents size (index, bytes) = bytes ≡ part contents size index

-- A reader whose cache holds windows of the file.
pub record Coherent (contents : List ℕ) (reader : HexReader) : Type 0 where
  pub positive : 1 ≤ reader.options.window_size
  pub windows : All (IsPart contents reader.options.window_size) reader.cache

-- A lookup of a file that is served succeeds.
window-eq-ok :
    (file : File) (contents : List ℕ) (reader : HexReader) (index : ℕ)
    → Serves file contents
    → (bytes : List ℕ) × ((window file reader index).1 ≡ ok bytes)
unfolding window
window-eq-ok file contents reader index serves =
    elim (Option-cases (remove_window index reader.cache)) [
      | inl miss ↦
          let size = reader.options.window_size in
          let r = serves (saturating_mul index size) size in
          (take size (drop (saturating_mul index size) contents), rw (window, miss, r) refl)
      | inr (((i, w), rest), hit) ↦ (w, rw (window, hit) refl)
    ]

record Got (contents : List ℕ) (reader : HexReader) (index : ℕ) (o : Outcome (List ℕ))
    : Type 0 where
  pub coherent : Coherent contents o.0
  pub same_size : o.0.options.window_size ≡ reader.options.window_size
  pub bytes : o.1 ≡ ok (part contents reader.options.window_size index)

window-Got :
    (file : File) (contents : List ℕ) (reader : HexReader) (index : ℕ)
    → Serves file contents
    → Coherent contents reader
    → index * reader.options.window_size < 2 ^ 64
    → Got contents reader index (window file reader index)
window-Got file contents reader index serves good small =
    let size = reader.options.window_size in
    let look = window-Looked (IsPart contents size) file reader index good.windows (λ bytes e.
      let at : saturating_mul index size ≡ index * size = omega arith in
      let r = serves (saturating_mul index size) size in ground (arith, r, at)) in
    let (bytes, e) = window-eq-ok file contents reader index serves in
    record {
      coherent = record {
        positive = rw look.same_options good.positive;
        windows = rw look.same_options look.windows;
      };
      same_size = ap (λ o. o.window_size) look.same_options;
      bytes = e ∙ ap ok (look.looked bytes e);
    }

serve_end :
    (position end : ℕ) (out bytes : List ℕ) (o : Outcome (List ℕ)) (within : ℕ)
    (onward : HexReader → ℕ → List ℕ → Outcome (List ℕ))
    → o.1 ≡ ok bytes
    → length bytes - within ≡ 0
    → serve position end out o within onward ≡ (count_short o.0, ok out)
serve_end position end out bytes (reader, ok b) within onward e none_left =
    let same : b ≡ bytes = ground arith in
    let z : (length b - within == 0) ≡ true = ground (arith, ap length same) in rw (serve, z) refl
serve_end position end out bytes (reader, err f) within onward e none_left = absurd (ground arith)

serve_on :
    (position end : ℕ) (out bytes : List ℕ) (o : Outcome (List ℕ)) (within : ℕ)
    (onward : HexReader → ℕ → List ℕ → Outcome (List ℕ))
    → o.1 ≡ ok bytes
    → within < length bytes
    → serve position end out o within onward
      ≡ onward o.0
          (position + min (length bytes - within) (end - position))
          (out ++ take (min (length bytes - within) (end - position)) (drop within bytes))
serve_on position end out bytes (reader, ok b) within onward e some_left =
    let same : b ≡ bytes = ground arith in
    let z : (length b - within == 0) ≡ false = ground (arith, ap length same) in
    rw (serve, z, same) refl
serve_on position end out bytes (reader, err f) within onward e some_left = absurd (ground arith)

-- What a window gives from a place in it on is what the file gives from there on.
part_slice :
    (contents : List ℕ) (size m position k : ℕ)
    → m ≤ position
    → k ≤ size - (position - m)
    → take k (drop (position - m) (take size (drop m contents))) ≡ take k (drop position contents)
part_slice contents size m position k le fits =
    let e : m + (position - m) ≡ position = omega arith in
    ap (take k) (drop-take (position - m) size (drop m contents))
    ∙ take-take k (size - (position - m)) (drop (position - m) (drop m contents)) fits
    ∙ ap (take k) (drop-drop (position - m) m contents ∙ ap (λ n. drop n contents) e)

length-part :
    (contents : List ℕ) (size index : ℕ)
    → length (part contents size index) ≡ min size (length contents - index * size)
length-part contents size index =
    length-take-min size (drop (index * size) contents)
    ∙ ap (min size) (length-drop_sub (index * size) contents)

-- A slice is what one round takes of it and what is left for the others.
slice_parts :
    (contents : List ℕ) (position end k : ℕ)
    → k ≤ end - position
    → take k (drop position contents) ++ take (end - (position + k)) (drop (position + k) contents)
      ≡ take (end - position) (drop position contents)
slice_parts contents position end k fits =
    let n = end - (position + k) in
    let e : end - position ≡ k + n = omega arith in
    ap (λ t. take k (drop position contents) ++ take n t) (sym (drop-drop k position contents))
    ∙ sym (take_plus k n (drop position contents))
    ∙ ap (λ j. take j (drop position contents)) (sym e)

-- The loop adds the rest of the slice to what it has.
read_loop-slice :
    (file : File) (contents : List ℕ) (fuel : ℕ) (reader : HexReader) (position end : ℕ)
    (out : List ℕ)
    → Serves file contents
    → Coherent contents reader
    → end < 2 ^ 64
    → end - position ≤ fuel
    → Coherent contents (read_loop file fuel reader position end out).0
      × ((read_loop file fuel reader position end out).1
          ≡ ok (out ++ take (end - position) (drop position contents)))
unfolding read_loop
read_loop-slice file contents zero reader position end out serves good small enough =
    let z : end - position ≡ 0 = omega arith in (good, rw z (ap ok (sym (append-nil out))))
read_loop-slice file contents (suc fuel) reader position end out serves good small enough =
    elim (Bool-cases (ltb position end)) [
      | inr done ↦
          let z : end - position ≡ 0 = ground arith in
          rw (read_loop, done, z) (good, ap ok (sym (append-nil out)))
      | inl more ↦
          let size = reader.options.window_size in
          let index = position / size in
          let m = index * size in
          let below = div-mul-le_self position size in
          let rem = mod-eq-sub-div-mul position size in
          let lt = mod-lt position {m = size} good.positive in
          let before : position < end = ground arith in
          let got = window-Got file contents reader index serves good (omega arith) in
          let len = length-part contents size index in
          let bytes = part contents size index in
          let within = position - m in
          let onward : HexReader → ℕ → List ℕ → Outcome (List ℕ) =
            λ r p o. read_loop file fuel r p end o in
          elim (Bool-cases (ltb within (length bytes))) [
            | inr short ↦
                let s =
                  serve_end position end out bytes (window file reader index) within onward
                    got.bytes (ground arith) in
                let past : length contents ≤ position = ground (arith, len) in
                rw
                  (
                    read_loop,
                    more,
                    s,
                    drop_beyond position contents past,
                    take_nil {A = ℕ} (end - position),
                  )
                  (
                    record { positive = got.coherent.positive; windows = got.coherent.windows },
                    ap ok (sym (append-nil out)),
                  )
            | inl on ↦
                let k = min (length bytes - within) (end - position) in
                let s =
                  serve_on position end out bytes (window file reader index) within onward got.bytes
                    (ground arith) in
                let taken = take k (drop within bytes) in
                let (good', e) =
                  read_loop-slice file contents fuel (window file reader index).0 (position + k) end
                    (out ++ taken) serves got.coherent small (ground arith) in
                let rest = take (end - (position + k)) (drop (position + k) contents) in
                rw (read_loop, more, s)
                  (
                    good',
                    e
                        ∙ ap ok (
                            append_assoc out taken rest
                            ∙ ap (λ t. out ++ t)
                                (ap (λ t. t ++ rest)
                                    (part_slice contents size m position k below
                                      (omega (arith, len)))
                                  ∙ slice_parts contents position end k (omega arith))),
                  )
          ]
    ]

count_served-Coherent :
    (contents : List ℕ) (len : ℕ) (o : Outcome (List ℕ))
    → Coherent contents o.0
    → Coherent contents (count_served len o).0 × ((count_served len o).1 ≡ o.1)
count_served-Coherent contents len (reader, err e) good = (good, refl)
count_served-Coherent contents len (reader, ok out) good =
    elim (Bool-cases (ltb (length out) len)) [
      | inl short ↦
          rw (count_served, short)
            (record { positive = good.positive; windows = good.windows }, refl)
      | inr whole ↦
          rw (count_served, whole)
            (record { positive = good.positive; windows = good.windows }, refl)
    ]

-- On a file that is not written to, a read through the cache gives the slice of the file, short only
-- where the file ends, whatever was read before; and the cache keeps to the file.
pub read_range-slice :
    (file : File) (contents : List ℕ) (reader : HexReader) (offset len : ℕ)
    → Serves file contents
    → Coherent contents reader
    → offset + len < 2 ^ 64
    → ((read_range file reader offset len).1 ≡ ok (take len (drop offset contents)))
      × Coherent contents (read_range file reader offset len).0
unfolding read_range
read_range-slice file contents reader offset len serves good small =
    let at : saturating_add offset len ≡ offset + len = omega arith in
    let size : offset + len - offset ≡ len = omega arith in
    let (good', e) =
      read_loop-slice file contents len reader offset (offset + len) [] serves good small
        (omega arith) in
    let done = read_loop file len reader offset (offset + len) [] in
    let (kept, same) = count_served-Coherent contents len done good' in
    rw (at, size) (same ∙ e ∙ ap (λ n. ok (take n (drop offset contents))) size, kept)
