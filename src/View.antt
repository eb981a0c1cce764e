-- ===== src/View.antt =====
-- crates/princess-view/src/hex.rs: the rows of the hex view. Addresses wrap at 64 bits, as in a release
-- build.
use princess_ide.Prelude.{
  ℕ, zero, suc, ◌+◌, ◌*◌, ◌%◌, ◌^◌, ◌&&◌, List, [], ◌∷◌, ◌++◌, leb, if◌then◌else◌, length, map,
  take, drop,
}
pub mod HexRows
mod Tests

pub record HexRow : Type 0 where
  pub addr : ℕ
  pub bytes : List ℕ
  pub ascii : List ℕ

pub record HexModel : Type 0 where
  pub rows : List HexRow
  pub base_addr : ℕ
  pub total_size : ℕ

pub record HexBuilder : Type 0 where
  pub bytes_given : List ℕ
  pub base : ℕ

abbrev pub new_builder : List ℕ → HexBuilder
new_builder bytes = record { bytes_given = bytes; base = 0 }

unfoldable pub with_base_addr : HexBuilder → ℕ → HexBuilder
with_base_addr b addr = record b { base = addr }

-- `chunks(16)`. Each chunk takes a byte at least, so the number of bytes is fuel enough.
unfoldable pub chunks : ℕ → List ℕ → List (List ℕ)
chunks fuel [] = []
chunks zero (b ∷ bytes) = []
chunks (suc fuel) (b ∷ bytes) = take 16 (b ∷ bytes) ∷ chunks fuel (drop 16 (b ∷ bytes))

abbrev pub printable_or_dot : ℕ → ℕ
printable_or_dot b = if leb 32 b && leb b 126 then b else 46

unfoldable pub hex_row : ℕ → ℕ → List ℕ → HexRow
hex_row base i chunk = record {
  addr = (base + i * 16) % 2 ^ 64;
  bytes = chunk;
  ascii = map printable_or_dot chunk;
}

-- `enumerate().map(..)`, from an index.
unfoldable pub rows_from : ℕ → ℕ → List (List ℕ) → List HexRow
unfolding hex_row
rows_from base i [] = []
rows_from base i (chunk ∷ rest) = hex_row base i chunk ∷ rows_from base (i + 1) rest

-- The method `build`.
unfoldable pub build_hex : HexBuilder → HexModel
unfolding chunks rows_from
build_hex b = record {
  rows = rows_from b.base 0 (chunks (length b.bytes_given) b.bytes_given);
  base_addr = b.base;
  total_size = length b.bytes_given;
}
