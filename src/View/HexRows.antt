-- ===== src/View/HexRows.antt =====
-- crates/princess-view/src/hex.rs: what the rows show of the bytes.
use princess_ide.Prelude.{
  ◌<◌, ◌%◌, ◌^◌, ◌⊎◌, arith, ◌≤◌, ap, take-drop, ℕ, zero, suc, ◌+◌, ◌*◌, ◌≡◌, refl, sym, ◌∙◌, List,
  [], ◌∷◌, ◌++◌, length, map, take, drop, length-take-min, length-drop_sub,
}
use princess_ide.View.{HexRow, HexBuilder, chunks, printable_or_dot, hex_row, rows_from, build_hex}

abbrev pub all_bytes : List HexRow → List ℕ
all_bytes [] = []
all_bytes (row ∷ rows) = row.bytes ++ all_bytes rows

-- A character for each byte: itself from 32 to 126, the dot of ASCII elsewhere.
abbrev pub Shows : List ℕ → List ℕ → Type 0
Shows [] [] = Unit {0}
Shows [] (c ∷ cs) = ⊥
Shows (b ∷ bs) [] = ⊥
Shows (b ∷ bs) (c ∷ cs) =
    (((32 ≤ b) × (b ≤ 126) × (c ≡ b)) ⊎ (((b < 32) ⊎ (126 < b)) × (c ≡ 46))) × Shows bs cs

printable_or_dot-map : (bytes : List ℕ) → Shows bytes (map printable_or_dot bytes)
printable_or_dot-map [] = tt
printable_or_dot-map (b ∷ bytes) = (ground arith, printable_or_dot-map bytes)

-- Rows that begin at an address: each has 16 bytes where another follows it, one to 16 bytes in any case,
-- the ASCII column of its bytes, and the next row is 16 further on, modulo 2 ^ 64.
abbrev pub AreRows : ℕ → List HexRow → Type 0
AreRows addr [] = Unit {0}
AreRows addr (row ∷ []) =
    (row.addr ≡ addr % 2 ^ 64)
    × (1 ≤ length row.bytes)
    × (length row.bytes ≤ 16)
    × (Shows row.bytes row.ascii)
AreRows addr (row ∷ next ∷ rows) =
    (row.addr ≡ addr % 2 ^ 64)
    × (length row.bytes ≡ 16)
    × (Shows row.bytes row.ascii)
    × AreRows (addr + 16) (next ∷ rows)

shorter :
    (fuel : ℕ) (b : ℕ) (bytes : List ℕ)
    → length (b ∷ bytes) ≤ suc fuel
    → length (drop 16 (b ∷ bytes)) ≤ fuel
shorter fuel b bytes h = omega (arith, length-drop_sub 16 (b ∷ bytes))

rows_from-all_bytes :
    (fuel base i : ℕ) (bytes : List ℕ)
    → length bytes ≤ fuel
    → all_bytes (rows_from base i (chunks fuel bytes)) ≡ bytes
unfolding chunks rows_from hex_row
rows_from-all_bytes fuel base i [] h = refl
rows_from-all_bytes zero base i (b ∷ bytes) h = absurd (omega arith)
rows_from-all_bytes (suc fuel) base i (b ∷ bytes) h =
    ap (λ l. take 16 (b ∷ bytes) ++ l)
      (rows_from-all_bytes fuel base (i + 1) (drop 16 (b ∷ bytes)) (shorter fuel b bytes h))
    ∙ take-drop 16 (b ∷ bytes)

-- One row in front of the rows of the bytes that are left.
AreRows-chunk :
    (fuel base i addr : ℕ) (chunk bytes : List ℕ)
    → addr ≡ base + i * 16
    → 1 ≤ length chunk
    → length chunk ≤ 16
    → (1 ≤ length bytes → length chunk ≡ 16)
    → length bytes ≤ fuel
    → AreRows (addr + 16) (rows_from base (i + 1) (chunks fuel bytes))
    → AreRows addr (hex_row base i chunk ∷ rows_from base (i + 1) (chunks fuel bytes))
unfolding chunks rows_from hex_row
AreRows-chunk fuel base i addr chunk [] at low high full enough rest =
    (ap (λ a. a % 2 ^ 64) (sym at), low, high, printable_or_dot-map chunk)
AreRows-chunk zero base i addr chunk (b ∷ bytes) at low high full enough rest = absurd (omega arith)
AreRows-chunk (suc fuel) base i addr chunk (b ∷ bytes) at low high full enough rest =
    (ap (λ a. a % 2 ^ 64) (sym at), full (omega arith), printable_or_dot-map chunk, rest)

rows_from-AreRows :
    (fuel base i addr : ℕ) (bytes : List ℕ)
    → addr ≡ base + i * 16
    → length bytes ≤ fuel
    → AreRows addr (rows_from base i (chunks fuel bytes))
unfolding chunks rows_from
rows_from-AreRows fuel base i addr [] at h = tt
rows_from-AreRows zero base i addr (b ∷ bytes) at h = absurd (omega arith)
rows_from-AreRows (suc fuel) base i addr (b ∷ bytes) at h =
    let size = length-take-min 16 (b ∷ bytes) in
    let left = length-drop_sub 16 (b ∷ bytes) in
    let rest = drop 16 (b ∷ bytes) in
    AreRows-chunk fuel base i addr (take 16 (b ∷ bytes)) rest at (omega (arith, size))
      (omega (arith, size)) (λ more. omega (arith, size, left, more)) (shorter fuel b bytes h)
      (rows_from-AreRows fuel base (i + 1) (addr + 16) rest (omega (arith, at))
        (shorter fuel b bytes h))

-- The rows of the hex view hold the bytes in order and nothing else, and the size is their number; the
-- first row stands at the base address and each later one 16 further on, modulo 2 ^ 64; every row but the last has 16
-- bytes, the last one to 16, and the ASCII column has, for each byte, the byte itself from 32 to 126 and a dot (46) elsewhere.
pub build_hex-AreRows :
    (b : HexBuilder)
    → (all_bytes (build_hex b).rows ≡ b.bytes_given)
      × AreRows b.base (build_hex b).rows
      × ((build_hex b).total_size ≡ length (all_bytes (build_hex b).rows))
unfolding build_hex
build_hex-AreRows b =
    let size = length b.bytes_given in
    let same = rows_from-all_bytes size b.base 0 b.bytes_given (omega arith) in
    (
      same,
      rows_from-AreRows size b.base 0 b.base b.bytes_given (omega arith) (omega arith),
      ap length (sym same),
    )
