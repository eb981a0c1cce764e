-- ===== src/Hex.antt =====
-- crates/princess-bin/src/hex.rs: `HexReader`, a window onto a file behind a cache of windows, the
-- most recently used first. The file is the record `File`, an argument of each operation, since it
-- may change between two of them. An operation returns the reader that it leaves, also where it
-- fails. The path, which only texts of errors name, is left out. Offsets are `u64`.
use princess_ide.Prelude.{
  ℕ, zero, suc, ◌+◌, ◌-◌, ◌*◌, ◌/◌, ◌%◌, ◌^◌, min, Bool, true, false, not, Option, none, some, List,
  [], ◌∷◌, ◌++◌, length, take, drop, ltb, ◌==◌, if◌then◌else◌, Result, ok, err, ◌||◌, ◌&&◌, leb,
}
use princess_ide.ErrorCode.{ErrorCode, internal, not_found}
use princess_ide.GuestMem.{saturating_add}
pub mod Rows
pub mod Cache
pub mod Slice
pub mod Bound
pub mod History
mod Tests

-- What the reader asks of the operating system: `pread` at an offset, with the bytes wanted, and
-- the length. An error of the system is its own.
pub record File : Type 0 where
  pub read_at : ℕ → ℕ → Option (List ℕ)
  pub metadata_len : Option ℕ

pub record HexWindowOptions : Type 0 where
  pub window_size : ℕ
  pub capacity : ℕ

abbrev pub default_options : HexWindowOptions
default_options = record { window_size = 4096; capacity = 256 }

-- `a.max(b)`.
abbrev pub max_of : ℕ → ℕ → ℕ
max_of a b = if ltb a b then b else a

unfoldable pub byte_bound : HexWindowOptions → ℕ
byte_bound options = max_of options.window_size 1 * max_of options.capacity 1 % 2 ^ 64

pub record ImageStats : Type 0 where
  pub syscalls : ℕ
  pub hits : ℕ
  pub misses : ℕ
  pub resident_windows : ℕ
  pub resident_bytes : ℕ
  pub bytes_served : ℕ
  pub bytes_read : ℕ
  pub short_reads : ℕ

abbrev pub no_stats : ImageStats
no_stats = record {
  syscalls = 0;
  hits = 0;
  misses = 0;
  resident_windows = 0;
  resident_bytes = 0;
  bytes_served = 0;
  bytes_read = 0;
  short_reads = 0;
}

-- A window of the cache: its index, and the bytes that were read for it.
abbrev pub Window : Type 0
Window = ℕ × List ℕ

pub record HexReader : Type 0 where
  pub len : ℕ
  pub options : HexWindowOptions
  pub cache : List Window
  pub stats : ImageStats

abbrev pub opened : ℕ → HexWindowOptions → HexReader
opened len options = record {
  len = len;
  options = record {
    window_size = max_of options.window_size 1;
    capacity = max_of options.capacity 1;
  };
  cache = [];
  stats = no_stats;
}

-- `with_options`: the file was opened, and asked for its length.
unfoldable pub with_options : File → HexWindowOptions → Result ErrorCode HexReader
with_options file options = elim file.metadata_len [
  | none ↦ err not_found
  | some len ↦ ok (opened len options)
]

-- What an operation leaves, and its result.
abbrev pub Outcome : Type 0 → Type 0
Outcome A = HexReader × Result ErrorCode A

unfoldable pub refresh_len : File → HexReader → Outcome ℕ
refresh_len file reader = elim file.metadata_len [
  | none ↦ (reader, err not_found)
  | some len ↦ (record reader { len = len }, ok len)
]

unfoldable pub stats : HexReader → ImageStats
stats reader = record reader.stats {
  resident_windows = length reader.cache;
  resident_bytes = length reader.cache * reader.options.window_size % 2 ^ 64;
}

unfoldable pub clear_cache : HexReader → HexReader
clear_cache reader = record reader { cache = [] }

-- `position` of the first window of an index, and `remove` there: the window, and the others.
abbrev pub put_back : Window → Option (Window × List Window) → Option (Window × List Window)
put_back entry none = none
put_back entry (some (found, rest)) = some (found, entry ∷ rest)

unfoldable pub remove_window : ℕ → List Window → Option (Window × List Window)
remove_window index [] = none
remove_window index ((i, w) ∷ cache) =
    let later = put_back (i, w) (remove_window index cache) in
    if i == index then some ((i, w), cache) else later

-- `pop_back`, without the window.
abbrev pub pop_back : List Window → List Window
pop_back [] = []
pop_back (w ∷ []) = []
pop_back (w ∷ v ∷ cache) = w ∷ pop_back (v ∷ cache)

-- The loop that evicts while there are too many windows; it turns once for each of them at most.
unfoldable pub evict_from : ℕ → ℕ → List Window → List Window
evict_from zero capacity cache = cache
evict_from (suc turns) capacity cache =
    let rest = evict_from turns capacity (pop_back cache) in
    if ltb capacity (length cache) then rest else cache

unfoldable pub evict : ℕ → List Window → List Window
unfolding evict_from
evict capacity cache = evict_from (length cache) capacity cache

-- `a.saturating_mul(b)` on `u64`.
abbrev pub saturating_mul : ℕ → ℕ → ℕ
saturating_mul a b = min (a * b) (2 ^ 64 - 1)

-- The statistics of a miss, before and after the bytes are there.
abbrev pub count_miss : HexReader → HexReader
count_miss reader = record reader {
  stats = record reader.stats { misses = reader.stats.misses + 1 };
}

abbrev pub count_load : ℕ → ImageStats → ImageStats
count_load n s = record s { syscalls = s.syscalls + 1; bytes_read = s.bytes_read + n }

abbrev pub load_window : HexReader → ℕ → Option (List ℕ) → Outcome (List ℕ)
load_window reader index none = (count_miss reader, err internal)
load_window reader index (some buffer) = (
  record reader {
    cache = evict reader.options.capacity ((index, buffer) ∷ reader.cache);
    stats = count_load (length buffer) (count_miss reader).stats;
  },
  ok buffer,
)

-- `window`: the front of the cache, after a hit was moved there or a miss was loaded.
unfoldable pub window : File → HexReader → ℕ → Outcome (List ℕ)
window file reader index = elim (remove_window index reader.cache) [
  | some ((i, bytes), rest) ↦ (
    record reader {
      cache = (i, bytes) ∷ rest;
      stats = record reader.stats { hits = reader.stats.hits + 1 };
    },
    ok bytes,
  )
  | none ↦
      load_window reader index
        (file.read_at (saturating_mul index reader.options.window_size) reader.options.window_size)
]

abbrev pub count_short : HexReader → HexReader
count_short reader = record reader {
  stats = record reader.stats { short_reads = reader.stats.short_reads + 1 };
}

-- The rest of a round, on the window and the place in it; `onward` is the next round.
abbrev pub serve :
    ℕ
    → ℕ
    → List ℕ
    → Outcome (List ℕ)
    → ℕ
    → (HexReader → ℕ → List ℕ → Outcome (List ℕ))
    → Outcome (List ℕ)
serve position end out (reader, err e) within onward = (reader, err e)
serve position end out (reader, ok bytes) within onward =
    let available = length bytes - within in
    let taken = min available (end - position) in
    elim (available == 0) [
      | true ↦ (count_short reader, ok out)
      | false ↦ onward reader (position + taken) (out ++ take taken (drop within bytes))
    ]

-- `end - position` bytes are left and each round of the loop takes at least one, so they are fuel
-- enough.
unfoldable pub read_loop : File → ℕ → HexReader → ℕ → ℕ → List ℕ → Outcome (List ℕ)
read_loop file zero reader position end out = (reader, ok out)
read_loop file (suc fuel) reader position end out =
    let size = reader.options.window_size in
    let index = position / size in
    elim (ltb position end) [
      | false ↦ (reader, ok out)
      | true ↦
          serve position end out (window file reader index) (position - index * size)
            (λ reader' position' out'. read_loop file fuel reader' position' end out')
    ]

-- The statistics after the loop.
abbrev pub count_served : ℕ → Outcome (List ℕ) → Outcome (List ℕ)
count_served len (reader, err e) = (reader, err e)
count_served len (reader, ok out) =
    let served = record reader {
      stats = record reader.stats { bytes_served = reader.stats.bytes_served + length out };
    } in
    (if ltb (length out) len then count_short served else served, ok out)

unfoldable pub read_range : File → HexReader → ℕ → ℕ → Outcome (List ℕ)
read_range file reader offset len =
    let end = saturating_add offset len in
    count_served len (read_loop file (end - offset) reader offset end [])

abbrev pub require : ℕ → Outcome (List ℕ) → Outcome (List ℕ)
require len (reader, err e) = (reader, err e)
require len (reader, ok bytes) = (reader, if length bytes == len then ok bytes else err not_found)

unfoldable pub read_exact_at : File → HexReader → ℕ → ℕ → Outcome (List ℕ)
unfolding read_range
read_exact_at file reader offset len = require len (read_range file reader offset len)
