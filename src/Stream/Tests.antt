-- ===== src/Stream/Tests.antt =====
-- A euro sign that comes in two reads, and bytes that are no UTF-8.
use princess_ide.Prelude.{ℕ, ◌≡◌, refl, List, [], ◌∷◌, All, map}
use princess_ide.Utf8.{is_utf8, from_utf8_lossy, utf8_error}
use princess_ide.Stream.{
  utf8, utf8_lossy, new, Op, push_bytes, lines, available, run, input, texts, decoded, push,
  take_prefix, take_lines, last_feed, take_available, take_remainder,
}
use princess_ide.Stream.Whole.{run-Whole}
use princess_ide.Stream.Conserved.{joined, run-conserved}

abbrev two_reads : List Op
two_reads =
    push_bytes (111 ∷ 107 ∷ 10 ∷ 226 ∷ 130 ∷ [])
    ∷ lines
    ∷ available
    ∷ push_bytes (172 ∷ 33 ∷ [])
    ∷ available
    ∷ []

run-Whole_example :
    (texts (run new two_reads) ≡ from_utf8_lossy (input two_reads))
    × All (λ chunk. chunk.encoding ≡ utf8) (run new two_reads)
unfolding is_utf8
run-Whole_example = run-Whole two_reads refl

two_chunks :
    run new two_reads
    ≡ record { text = 111 ∷ 107 ∷ 10 ∷ []; encoding = utf8 }
      ∷ record { text = 8364 ∷ 33 ∷ []; encoding = utf8 }
      ∷ []
unfolding run push take_lines last_feed take_prefix take_available take_remainder decoded utf8_error
    is_utf8 from_utf8_lossy
two_chunks = refl

run-conserved_example :
    (pieces : List (List ℕ)) × (joined pieces ≡ input two_reads)
    × (run new two_reads ≡ map decoded pieces)
run-conserved_example = run-conserved two_reads

-- The valid bytes in front of the garbage go out with it, marked as lossy.
garbage :
    run new (push_bytes (111 ∷ 107 ∷ 255 ∷ 33 ∷ []) ∷ available ∷ [])
    ≡ record { text = 111 ∷ 107 ∷ 65533 ∷ []; encoding = utf8_lossy }
      ∷ record { text = 33 ∷ []; encoding = utf8 }
      ∷ []
unfolding run push take_lines last_feed take_prefix take_available take_remainder decoded utf8_error
    is_utf8 from_utf8_lossy
garbage = refl
