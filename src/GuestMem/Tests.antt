-- ===== src/GuestMem/Tests.antt =====
-- Runs of the in-memory guest.
use princess_ide.Prelude.{ℕ, ◌≡◌, refl, arith, none, List, [], ◌∷◌, ok, inr}
use princess_ide.GuestMem.{
  GuestRam, new, write_u64, write_u64_from, write_byte, read_bytes, read_from, read_u64,
}
use princess_ide.GuestMem.RoundTrip.{read_u64-write_u64}

abbrev empty : GuestRam
empty = record { bytes = λ a. none; size = 64 }

abbrev three : List ℕ
three = 1 ∷ 2 ∷ 3 ∷ []

-- Bytes that were never written read as zero.
fresh_bytes : read_bytes (new 64) 8 4 ≡ ok (0 ∷ 0 ∷ 0 ∷ 0 ∷ [])
unfolding read_bytes read_from new
fresh_bytes = refl

stored_bytes :
    read_bytes (write_u64 empty 8 0x0102030405060708).0 6 6 ≡ ok (0 ∷ 0 ∷ 8 ∷ 7 ∷ 6 ∷ 5 ∷ [])
unfolding read_bytes read_from write_u64 write_u64_from write_byte
stored_bytes = refl

read_u64-write_u64_example :
    ((write_u64 empty 8 0xDEADBEEF).1 ≡ ok tt)
    × (read_u64 (write_u64 empty 8 0xDEADBEEF).0 8 ≡ ok 0xDEADBEEF)
    × ((write_u64 empty 8 0xDEADBEEF).0.bytes 16 ≡ empty.bytes 16)
read_u64-write_u64_example =
    read_u64-write_u64 empty 8 0xDEADBEEF 16 (omega arith) (omega arith) (omega arith)
      (inr (omega arith))
