-- ===== src/Hex/Rows.antt =====
-- crates/princess-bin/src/hex.rs: the rows that `HexReader` renders.
use princess_ide.Prelude.{
  ℕ, zero, suc, ◌+◌, ◌-◌, ◌/◌, ◌%◌, min, Bool, true, false, List, [], ◌∷◌, ◌++◌, length, ltb, ◌==◌,
  if◌then◌else◌, ok, err, ◌||◌, ◌&&◌, leb,
}
use princess_ide.GuestMem.{saturating_add}
use princess_ide.Sse.{trim_end}
use princess_ide.Hex.{File, HexReader, Outcome, saturating_mul, read_range}

pub record HexLine : Type 0 where
  pub offset : ℕ
  pub bytes : List ℕ
  pub hex : List ℕ
  pub ascii : List ℕ
  pub at_eof : Bool

-- A digit of `{:02x}`, in ASCII.
abbrev pub hex_digit : ℕ → ℕ
hex_digit n = if ltb n 10 then 48 + n else 87 + n

-- The bodies of the two loops of `render_line`, with the columns that are left.
abbrev pub hex_columns : ℕ → List ℕ → List ℕ
hex_columns zero bytes = []
hex_columns (suc n) [] = 63 ∷ 63 ∷ 32 ∷ hex_columns n []
hex_columns (suc n) (b ∷ bytes) = hex_digit (b / 16) ∷ hex_digit (b % 16) ∷ 32 ∷ hex_columns n bytes

-- `is_ascii_graphic`, or a space.
abbrev pub gutter : ℕ → ℕ
gutter b = if (leb 33 b && leb b 126) || (b == 32) then b else 46

abbrev pub ascii_columns : ℕ → List ℕ → List ℕ
ascii_columns zero bytes = []
ascii_columns (suc n) [] = 32 ∷ ascii_columns n []
ascii_columns (suc n) (b ∷ bytes) = gutter b ∷ ascii_columns n bytes

unfoldable pub render_line : ℕ → List ℕ → Bool → HexLine
render_line offset bytes at_eof = record {
  offset = offset;
  bytes = bytes;
  hex = trim_end (λ c. c == 32) (hex_columns 16 bytes);
  ascii = ascii_columns 16 bytes;
  at_eof = at_eof;
}

-- The rest of a round of `read_lines`, on the bytes of its row.
abbrev pub add_line :
    ℕ
    → List HexLine
    → Outcome (List ℕ)
    → (HexReader → List HexLine → Outcome (List HexLine))
    → Outcome (List HexLine)
add_line offset lines (reader, err e) onward = (reader, err e)
add_line offset lines (reader, ok bytes) onward =
    onward reader (lines ++ render_line offset bytes (ltb (length bytes) 16) ∷ [])

unfoldable pub lines_loop : File → ℕ → HexReader → ℕ → ℕ → List HexLine → Outcome (List HexLine)
lines_loop file zero reader first_row index lines = (reader, ok lines)
lines_loop file (suc left) reader first_row index lines =
    let offset = saturating_mul (saturating_add first_row index) 16 in
    elim (leb reader.len offset) [
      | true ↦ (reader, ok lines)
      | false ↦
          add_line offset lines (read_range file reader offset (min (reader.len - offset) 16))
            (λ reader' lines'. lines_loop file left reader' first_row (index + 1) lines')
    ]

unfoldable pub read_lines : File → HexReader → ℕ → ℕ → Outcome (List HexLine)
unfolding lines_loop
read_lines file reader first_row row_count = lines_loop file row_count reader first_row 0 []
