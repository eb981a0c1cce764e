-- ===== src/Descriptor/TaskState.antt =====
-- crates/princess-bin/src/descriptor.rs: the fields of a task state segment in its 0x68 bytes.
use princess_ide.Prelude.{
  ℕ, zero, suc, ◌+◌, ◌*◌, ◌≤◌, ◌≡◌, ◌↔◌, refl, ◌∙◌, arith, true, List, [], ◌∷◌, length, take, drop,
  All, leb_iff, ok,
}
use princess_ide.GuestMem.{GuestMemory}
use princess_ide.GuestMem.Words.{le_value, IsByte, or_bytes-le_value}
use princess_ide.Descriptor.Idt.{Tss64, read_tss, segment_of, word_at, words_at}

All-take : (n : ℕ) (xs : List ℕ) → All IsByte xs → All IsByte (take n xs)
All-take zero xs h = tt
All-take (suc n) [] h = tt
All-take (suc n) (x ∷ xs) (h, hs) = (h, All-take n xs hs)

All-drop : (n : ℕ) (xs : List ℕ) → All IsByte xs → All IsByte (drop n xs)
All-drop zero xs h = h
All-drop (suc n) [] h = tt
All-drop (suc n) (x ∷ xs) (h, hs) = All-drop n xs hs

length-take : (n : ℕ) (xs : List ℕ) → length (take n xs) ≤ n
length-take zero xs = omega arith
length-take (suc n) [] = omega arith
length-take (suc n) (x ∷ xs) = omega (arith, length-take n xs)

-- The 64-bit value of the eight bytes at an offset.
abbrev pub value_at : List ℕ → ℕ → ℕ
value_at raw offset = le_value (take 8 (drop offset raw))

word_at-value_at :
    (raw : List ℕ) (offset : ℕ) → All IsByte raw → word_at raw offset ≡ value_at raw offset
word_at-value_at raw offset h =
    or_bytes-le_value 0 0 (take 8 (drop offset raw)) (All-take 8 _ (All-drop offset raw h))
      (omega arith) (omega (arith, length-take 8 (drop offset raw)))
    ∙ omega arith

-- The values of the stack table, from an index on.
abbrev pub values_at : ℕ → ℕ → List ℕ → List ℕ
values_at zero index raw = []
values_at (suc left) index raw = value_at raw (36 + index * 8) ∷ values_at left (index + 1) raw

words_at-values_at :
    (left index : ℕ) (raw : List ℕ)
    → All IsByte raw
    → words_at left index raw ≡ values_at left index raw
words_at-values_at zero index raw h = refl
words_at-values_at (suc left) index raw h =
    rw (word_at-value_at raw (36 + index * 8) h, words_at-values_at left (index + 1) raw h)

-- Where the 0x68 bytes can be read, so can the segment: its stack pointers are the little-endian
-- values of the eight bytes at 4, 12 and 20, the seven of the stack table those from 36 on, and it
-- counts as having an I/O bitmap exactly when the two bytes at 0x66 give a number up to the limit.
pub read_tss-fields :
    (guest : GuestMemory) (base limit : ℕ) (raw : List ℕ)
    → guest.read_bytes base 0x68 ≡ ok raw
    → length raw ≡ 0x68
    → All IsByte raw
    → (t : Tss64) × (read_tss guest base limit ≡ ok t)
      × (t.rsp0 ≡ value_at raw 4)
      × (t.rsp1 ≡ value_at raw 12)
      × (t.rsp2 ≡ value_at raw 20)
      × (t.ist ≡ values_at 7 0 raw)
      × (t.io_map_base ≡ le_value (take 2 (drop 0x66 raw)))
      × ((t.has_io_bitmap ≡ true) ↔ (t.io_map_base ≤ limit))
unfolding read_tss
read_tss-fields guest base limit raw r len bytes = (
  segment_of base limit raw,
  ground arith,
  word_at-value_at raw 4 bytes,
  word_at-value_at raw 12 bytes,
  word_at-value_at raw 20 bytes,
  words_at-values_at 7 0 raw bytes,
  refl,
  leb_iff (le_value (take 2 (drop 0x66 raw))) limit,
)
