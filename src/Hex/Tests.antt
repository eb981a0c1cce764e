-- ===== src/Hex/Tests.antt =====
-- A reader with windows of 4 bytes, 2 of them, on a file of 10 bytes.
use princess_ide.Prelude.{
  ℕ, ◌≤◌, ◌≡◌, refl, arith, some, List, [], ◌∷◌, take, drop, length-take-min, ok,
}
use princess_ide.Hex.{
  File, HexReader, HexWindowOptions, opened, window, remove_window, evict, evict_from, read_loop,
  read_range, with_options, byte_bound, stats,
}
use princess_ide.Hex.Slice.{Coherent, read_range-slice}
use princess_ide.Hex.Bound.{ReadsAtMost, held}
use princess_ide.Hex.History.{read, here, next, held_bound-Reach}

abbrev contents : List ℕ
contents = 65 ∷ 66 ∷ 67 ∷ 68 ∷ 69 ∷ 70 ∷ 71 ∷ 72 ∷ 10 ∷ 200 ∷ []

abbrev file : File
file = record { read_at = λ o n. some (take n (drop o contents)); metadata_len = some 10 }

abbrev small : HexWindowOptions
small = record { window_size = 4; capacity = 2 }

abbrev fresh : HexReader
fresh = opened 10 small

-- A read across a window's end is cut at the end of the file.
read_across : (read_range file fresh 6 9).1 ≡ ok (71 ∷ 72 ∷ 10 ∷ 200 ∷ [])
unfolding read_range read_loop window remove_window evict evict_from
read_across = refl

-- One byte that is served costs a window that is read.
one_byte_stats :
    ((read_range file fresh 0 1).0.stats.bytes_read ≡ 4)
    × ((read_range file fresh 0 1).0.stats.bytes_served ≡ 1)
unfolding read_range read_loop window remove_window evict evict_from
one_byte_stats = (refl, refl)

-- A read that runs past the end of the last window counts as short twice.
short_twice : (read_range file fresh 8 4).0.stats.short_reads ≡ 2
unfolding read_range read_loop window remove_window evict evict_from
short_twice = refl

read_range-slice_example :
    ((read_range file fresh 6 9).1 ≡ ok (take 9 (drop 6 contents)))
    × Coherent contents (read_range file fresh 6 9).0
read_range-slice_example =
    read_range-slice file contents fresh 6 9 (λ o n. refl)
      (record { positive = omega arith; windows = tt }) (omega arith)

file-ReadsAtMost : ReadsAtMost file
file-ReadsAtMost o n bytes e = ground (arith, length-take-min n (drop o contents))

abbrev read_twice : HexReader
read_twice = (read_range file (read_range file fresh 0 9).0 6 9).0

held_bound-Reach_example :
    (held read_twice.cache ≤ byte_bound small)
    × ((stats read_twice).resident_bytes ≤ byte_bound small)
unfolding with_options
held_bound-Reach_example =
    held_bound-Reach file small fresh read_twice (omega arith) refl
      (next (next here (read file 0 9 file-ReadsAtMost)) (read file 6 9 file-ReadsAtMost))
