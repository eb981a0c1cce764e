-- ===== src/GuestMem.antt =====
-- crates/princess-bin/src/guestmem.rs: guest physical memory behind the trait `GuestMemory`, and
-- the in-memory implementation `GuestRam`. Addresses, sizes and words are `u64`, bytes `u8`; the
-- `BTreeMap` is a partial function. A method that mutates returns the new state, also where it
-- fails. `message` of `MemoryError::Source` is text that a host tool printed.
use Prim.Native.String.{String}
use princess_ide.Prelude.{
  ℕ, zero, suc, ◌+◌, ◌-◌, ◌*◌, ◌%◌, ◌^◌, min, bit_or, Bool, false, Option, none, some, List, [],
  ◌∷◌, ltb, leb, ◌==◌, if◌then◌else◌, Result, ok, err, ◌>>=◌,
}
use princess_ide.Bits.{◌<<◌, ◌>>◌}
pub mod Words
pub mod RoundTrip
mod Tests

pub data MemoryError : Type 0 where
  not_in_ram : (address : ℕ) → MemoryError
  short : (address wanted got : ℕ) → MemoryError
  source : (address : ℕ) (message : String) → MemoryError

-- The trait, as a record of its methods.
pub record GuestMemory : Type 0 where
  pub read_u64 : ℕ → Result MemoryError ℕ
  pub read_bytes : ℕ → ℕ → Result MemoryError (List ℕ)
  pub ram_size : Option ℕ
  pub is_ram : ℕ → Bool

-- The trait's default for `is_ram`: `ram_size().is_some_and(|size| address < size)`.
unfoldable pub default_is_ram : Option ℕ → ℕ → Bool
default_is_ram none address = false
default_is_ram (some size) address = ltb address size

pub record GuestRam : Type 0 where
  pub bytes : ℕ → Option ℕ
  pub size : ℕ

unfoldable pub new : ℕ → GuestRam
new size = record { bytes = λ a. none; size = size }

-- `BTreeMap::insert`.
abbrev pub insert : (ℕ → Option ℕ) → ℕ → ℕ → ℕ → Option ℕ
insert m a v b = if b == a then some v else m b

-- A mutating method's outcome: the state that it leaves, and its result.
abbrev pub Written : Type 0
Written = GuestRam × Result MemoryError (Unit {0})

-- `?` after a write: go on from the new state, or stop with it.
abbrev pub and_then : Written → (GuestRam → Written) → Written
and_then (ram, ok _) next = next ram
and_then (ram, err e) next = (ram, err e)

unfoldable pub write_byte : GuestRam → ℕ → ℕ → Written
write_byte ram address value =
    if leb ram.size address
    then (ram, err (not_in_ram address))
    else (record ram { bytes = insert ram.bytes address value }, ok tt)

-- The loop of `write_u64` at `index`, with `n` rounds left.
unfoldable pub write_u64_from : ℕ → ℕ → ℕ → ℕ → GuestRam → Written
write_u64_from zero index address value ram = (ram, ok tt)
write_u64_from (suc n) index address value ram =
    and_then (write_byte ram (address + index) ((value >> (index * 8)) % 256))
      (write_u64_from n (index + 1) address value)

unfoldable pub write_u64 : GuestRam → ℕ → ℕ → Written
write_u64 ram address value = write_u64_from 8 0 address value ram

-- The loop of `write_bytes` at `index`.
unfoldable pub write_bytes_from : ℕ → ℕ → List ℕ → GuestRam → Written
write_bytes_from index address [] ram = (ram, ok tt)
write_bytes_from index address (byte ∷ rest) ram =
    and_then (write_byte ram (address + index) byte) (write_bytes_from (index + 1) address rest)

unfoldable pub write_bytes : GuestRam → ℕ → List ℕ → Written
write_bytes ram address content = write_bytes_from 0 address content ram

-- `a.saturating_add(b)` on `u64`.
abbrev pub saturating_add : ℕ → ℕ → ℕ
saturating_add a b = min (a + b) (2 ^ 64 - 1)

abbrev pub or_zero_byte : Option ℕ → ℕ
or_zero_byte none = 0
or_zero_byte (some b) = b

-- The loop of `read_bytes` at `offset`, with `n` rounds left.
unfoldable pub read_from : (ℕ → Option ℕ) → ℕ → ℕ → ℕ → List ℕ
read_from m address offset zero = []
read_from m address offset (suc n) =
    or_zero_byte (m (address + offset)) ∷ read_from m address (offset + 1) n

unfoldable pub read_bytes : GuestRam → ℕ → ℕ → Result MemoryError (List ℕ)
read_bytes ram address len =
    if ltb ram.size (saturating_add address len)
    then (if leb ram.size address
        then err (not_in_ram address)
        else err (short address len (ram.size - address)))
    else ok (read_from ram.bytes address 0 len)

-- The loop of `read_u64`: byte `index` is shifted into place.
unfoldable pub or_bytes : ℕ → ℕ → List ℕ → ℕ
or_bytes index value [] = value
or_bytes index value (byte ∷ rest) = or_bytes (index + 1) (bit_or value (byte << (index * 8))) rest

unfoldable pub read_u64 : GuestRam → ℕ → Result MemoryError ℕ
read_u64 ram address = do bytes ← read_bytes ram address 8; ok (or_bytes 0 0 bytes)

-- `impl GuestMemory for GuestRam`.
abbrev pub guest_memory : GuestRam → GuestMemory
guest_memory ram = record {
  read_u64 = read_u64 ram;
  read_bytes = read_bytes ram;
  ram_size = some ram.size;
  is_ram = default_is_ram (some ram.size);
}
