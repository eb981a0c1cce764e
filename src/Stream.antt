-- ===== src/Stream.antt =====
-- crates/princess-core/src/stream.rs: `Utf8Chunker`. A chunker is its pending bytes; a method that takes
-- a chunk gives it, where there is one, and the new state.
use princess_ide.Prelude.{
  ℕ, suc, ◌+◌, Bool, true, false, Option, none, some, List, [], ◌∷◌, ◌++◌, ◌==◌, if◌then◌else◌,
  length, take, drop,
}
use princess_ide.Utf8.{from_utf8_lossy, is_utf8, utf8_error}
pub mod Whole
pub mod Conserved
mod Tests

pub data TextEncoding : Type 0 where
  utf8 utf8_lossy : TextEncoding

pub record Chunk : Type 0 where
  pub text : List ℕ
  pub encoding : TextEncoding

pub record Utf8Chunker : Type 0 where
  pub pending : List ℕ

abbrev pub new : Utf8Chunker
new = record { pending = [] }

unfoldable pub push : Utf8Chunker → List ℕ → Utf8Chunker
push c bytes = record { pending = c.pending ++ bytes }

unfoldable pub pending_len : Utf8Chunker → ℕ
pending_len c = length c.pending

abbrev pub Taken : Type 0
Taken = Option Chunk × Utf8Chunker

-- What `take_prefix` makes of the drained bytes. `String::from_utf8` gives the characters of valid
-- bytes, which are those of the lossy decoding.
unfoldable pub decoded : List ℕ → Chunk
unfolding from_utf8_lossy is_utf8
decoded bytes = record {
  text = from_utf8_lossy bytes;
  encoding = if is_utf8 bytes then utf8 else utf8_lossy;
}

unfoldable pub take_prefix : Utf8Chunker → ℕ → Taken
unfolding decoded
take_prefix c cut = (some (decoded (take cut c.pending)), record { pending = drop cut c.pending })

-- `rposition(|b| *b == b'\n')`.
unfoldable pub last_feed : List ℕ → Option ℕ
last_feed [] = none
last_feed (b ∷ bytes) = elim (last_feed bytes) [
  | some i ↦ some (suc i)
  | none ↦ if b == 10 then some 0 else none
]

unfoldable pub take_lines : Utf8Chunker → Taken
unfolding last_feed take_prefix
take_lines c = elim (last_feed c.pending) [ none ↦ (none, c) | some i ↦ take_prefix c (i + 1) ]

abbrev pub is_empty : Utf8Chunker → Bool
is_empty c = length c.pending == 0

-- `take_available` on bytes that are there, by the error of `from_utf8`.
abbrev pub by_error : Utf8Chunker → Option (ℕ × Option ℕ) → Taken
by_error c none = take_prefix c (length c.pending)
by_error c (some (valid, none)) = if valid == 0 then (none, c) else take_prefix c valid
by_error c (some (valid, some invalid_len)) = take_prefix c (valid + invalid_len)

unfoldable pub take_available : Utf8Chunker → Taken
unfolding utf8_error take_prefix
take_available c = if is_empty c then (none, c) else by_error c (utf8_error 0 0 c.pending)

unfoldable pub take_remainder : Utf8Chunker → Taken
unfolding take_prefix
take_remainder c = if is_empty c then (none, c) else take_prefix c (length c.pending)

-- What the owner of a chunker does, in any order, until the producer is gone.
pub data Op : Type 0 where
  push_bytes : List ℕ → Op
  lines available : Op

abbrev pub emit : Option Chunk → List Chunk → List Chunk
emit none chunks = chunks
emit (some chunk) chunks = chunk ∷ chunks

-- The chunks, the remainder's included.
unfoldable pub run : Utf8Chunker → List Op → List Chunk
unfolding push take_lines take_available take_remainder
run c [] = emit (take_remainder c).0 []
run c (push_bytes bytes ∷ ops) = run (push c bytes) ops
run c (lines ∷ ops) = emit (take_lines c).0 (run (take_lines c).1 ops)
run c (available ∷ ops) = emit (take_available c).0 (run (take_available c).1 ops)

-- All bytes that come in.
abbrev pub input : List Op → List ℕ
input [] = []
input (push_bytes bytes ∷ ops) = bytes ++ input ops
input (lines ∷ ops) = input ops
input (available ∷ ops) = input ops

abbrev pub texts : List Chunk → List ℕ
texts [] = []
texts (chunk ∷ chunks) = chunk.text ++ texts chunks
