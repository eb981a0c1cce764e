-- ===== src/GuestMem/RoundTrip.antt =====
-- What a write to `GuestRam` leaves behind, and that a word that was written is read back.
use native.Mathlib.Nat.{div-div-eq-div-mul}
use princess_ide.Prelude.{
  ℕ, zero, suc, ◌+◌, ◌-◌, ◌*◌, ◌/◌, ◌%◌, ◌^◌, ◌≤◌, ◌<◌, ◌≡◌, refl, ap, ◌∙◌, arith, List, [], ◌∷◌,
  length, Bool-cases, inl, inr, ◌⊎◌, leb, ltb, ok, err, some, Option, if◌then◌else◌,
}
use mathlib.Core.Path.{ap₂, fun_ext}
use princess_ide.GuestMem.{
  GuestRam, not_in_ram, short, Written, and_then, insert, write_byte, write_u64_from, write_u64,
  write_bytes_from, write_bytes, read_from, read_bytes, read_u64, or_zero_byte,
}
use princess_ide.GuestMem.Words.{
  le_bytes, pow_byte, or_bytes-le_value, le_value-le_bytes, All-le_bytes,
}

-- Nothing outside the written range changes, and the size stays, also where the write fails.
record Frame (lo hi : ℕ) (before after : GuestRam) : Type 0 where
  pub same_size : after.size ≡ before.size
  pub outside : (b : ℕ) → (b < lo) ⊎ (hi ≤ b) → after.bytes b ≡ before.bytes b

write_byte-Frame :
    (ram : GuestRam) (a v lo hi : ℕ) → lo ≤ a → a < hi → Frame lo hi ram (write_byte ram a v).0
unfolding write_byte
write_byte-Frame ram a v lo hi p q = record {
  same_size = ground arith;
  outside = λ b h. ground arith;
}

Frame-trans : {lo hi : ℕ} {r s t : GuestRam} → Frame lo hi r s → Frame lo hi s t → Frame lo hi r t
Frame-trans f g = record {
  same_size = g.same_size ∙ f.same_size;
  outside = λ b h. g.outside b h ∙ f.outside b h;
}

and_then-Frame :
    {lo hi : ℕ} (ram : GuestRam) (w : Written) (next : GuestRam → Written)
    → Frame lo hi ram w.0
    → ((r : GuestRam) → Frame lo hi r (next r).0)
    → Frame lo hi ram (and_then w next).0
and_then-Frame ram (r, ok _) next f g = Frame-trans f (g r)
and_then-Frame ram (r, err e) next f g = f

write_bytes_from-Frame :
    (i a : ℕ) (bs : List ℕ) (lo hi : ℕ) (ram : GuestRam)
    → lo ≤ a + i
    → a + i + length bs ≤ hi
    → Frame lo hi ram (write_bytes_from i a bs ram).0
unfolding write_bytes_from
write_bytes_from-Frame i a [] lo hi ram p q = record { same_size = refl; outside = λ b h. refl }
write_bytes_from-Frame i a (x ∷ bs) lo hi ram p q =
    and_then-Frame ram (write_byte ram (a + i) x) (write_bytes_from (i + 1) a bs)
      (write_byte-Frame ram (a + i) x lo hi p (omega arith))
      (λ r. write_bytes_from-Frame (i + 1) a bs lo hi r (omega arith) (omega arith))

write_byte_fits :
    (ram : GuestRam) (a v : ℕ)
    → a < ram.size
    → write_byte ram a v ≡ (record ram { bytes = insert ram.bytes a v }, ok tt)
unfolding write_byte
write_byte_fits ram a v h = ground arith

insert_same : (m : ℕ → Option ℕ) (a v : ℕ) → insert m a v a ≡ some v
insert_same m a v = ground arith

write_bytes_from-cons :
    (i a x : ℕ) (bs : List ℕ) (ram : GuestRam)
    → a + i < ram.size
    → write_bytes_from i a (x ∷ bs) ram
      ≡ write_bytes_from (i + 1) a bs (record ram { bytes = insert ram.bytes (a + i) x })
unfolding write_bytes_from
write_bytes_from-cons i a x bs ram h = rw (write_byte_fits ram (a + i) x h)

read_from-cons :
    (m : ℕ → Option ℕ) (i a x : ℕ) (bs : List ℕ)
    → m (a + i) ≡ some x
    → read_from m a (i + 1) (length bs) ≡ bs
    → read_from m a i (suc (length bs)) ≡ x ∷ bs
unfolding read_from
read_from-cons m i a x bs e h = ap₂ ◌∷◌ (ap or_zero_byte e) h

-- A write that fits succeeds, and the range then reads as what was written.
write_bytes_from-read_from :
    (i a : ℕ) (bs : List ℕ) (ram : GuestRam)
    → a + i + length bs ≤ ram.size
    → ((write_bytes_from i a bs ram).1 ≡ ok tt)
      × (read_from (write_bytes_from i a bs ram).0.bytes a i (length bs) ≡ bs)
write_bytes_from-read_from i a [] ram h =
    (unfold write_bytes_from in refl, unfold read_from in refl)
write_bytes_from-read_from i a (x ∷ bs) ram h =
    let ram' : GuestRam = record ram { bytes = insert ram.bytes (a + i) x } in
    let rest = write_bytes_from-read_from (i + 1) a bs ram' (omega arith) in
    let frame =
      write_bytes_from-Frame (i + 1) a bs (a + (i + 1)) (a + (i + 1) + length bs) ram' (omega arith)
        (omega arith) in
    let same : (write_bytes_from (i + 1) a bs ram').0.bytes (a + i) ≡ some x =
      frame.outside (a + i) (inl (omega arith)) ∙ insert_same ram.bytes (a + i) x in
    rw (write_bytes_from-cons i a x bs ram (omega arith))
      (rest.0, read_from-cons _ i a x bs same rest.1)

-- A write that does not fit stops at the first address outside RAM.
write_bytes_from-error :
    (i a : ℕ) (bs : List ℕ) (ram : GuestRam)
    → a + i ≤ ram.size
    → ram.size < a + i + length bs
    → (write_bytes_from i a bs ram).1 ≡ err (not_in_ram ram.size)
write_bytes_from-error i a [] ram h k = absurd (omega arith)
write_bytes_from-error i a (x ∷ bs) ram h k = elim (Bool-cases (leb ram.size (a + i))) [
  | inl full ↦ unfold write_bytes_from write_byte in ground arith
  | inr room ↦ rw (write_bytes_from-cons i a x bs ram (ground arith)) (
      write_bytes_from-error (i + 1) a bs (record ram { bytes = insert ram.bytes (a + i) x })
        (ground arith) (omega arith))
]

next_byte : (i v : ℕ) → v / 2 ^ ((i + 1) * 8) ≡ v / 2 ^ (i * 8) / 256
next_byte i v = rw (pow_byte i, div-div-eq-div-mul)

-- Writing a word is writing its bytes.
write_u64_from-le_bytes :
    (n i a v : ℕ) (ram : GuestRam)
    → write_u64_from n i a v ram ≡ write_bytes_from i a (le_bytes n (v / 2 ^ (i * 8))) ram
unfolding write_u64_from write_bytes_from
write_u64_from-le_bytes zero i a v ram = refl
write_u64_from-le_bytes (suc n) i a v ram =
    ap (and_then (write_byte ram (a + i) (v / 2 ^ (i * 8) % 256))) (
      fun_ext (λ r.
        write_u64_from-le_bytes n (i + 1) a v r
        ∙ ap (λ t. write_bytes_from (i + 1) a (le_bytes n t) r) (next_byte i v)))

length-le_bytes : (n v : ℕ) → length (le_bytes n v) ≡ n
length-le_bytes zero v = refl
length-le_bytes (suc n) v = ap suc (length-le_bytes n (v / 256))

write_u64-le_bytes :
    (ram : GuestRam) (a v : ℕ) → write_u64 ram a v ≡ write_bytes ram a (le_bytes 8 v)
unfolding write_u64 write_bytes
write_u64-le_bytes ram a v =
    write_u64_from-le_bytes 8 0 a v ram
    ∙ ap (λ t. write_bytes_from 0 a (le_bytes 8 t) ram) (omega arith)

read_u64-le_bytes :
    (ram : GuestRam) (a v : ℕ)
    → a + 8 ≤ ram.size
    → ram.size < 2 ^ 64
    → v < 2 ^ 64
    → read_from ram.bytes a 0 8 ≡ le_bytes 8 v
    → read_u64 ram a ≡ ok v
unfolding read_u64 read_bytes
read_u64-le_bytes ram a v fits small word e =
    ground
      (arith, or_bytes-le_value 0 0 (le_bytes 8 v) (All-le_bytes 8 v), le_value-le_bytes 8 v word)

-- A 64-bit word that is written inside RAM, of fewer than 2 ^ 64 bytes, is read back as it was, and
-- the write changes no byte outside its eight.
pub read_u64-write_u64 :
    (ram : GuestRam) (a v b : ℕ)
    → a + 8 ≤ ram.size
    → ram.size < 2 ^ 64
    → v < 2 ^ 64
    → (b < a) ⊎ (a + 8 ≤ b)
    → ((write_u64 ram a v).1 ≡ ok tt)
      × (read_u64 (write_u64 ram a v).0 a ≡ ok v)
      × ((write_u64 ram a v).0.bytes b ≡ ram.bytes b)
unfolding write_bytes
read_u64-write_u64 ram a v b fits small word outside =
    let bs = le_bytes 8 v in
    let done = write_bytes_from-read_from 0 a bs ram (omega (arith, length-le_bytes 8 v)) in
    let frame = write_bytes_from-Frame 0 a bs a (a + 8) ram (omega arith) (omega arith) in
    rw (write_u64-le_bytes ram a v, write_bytes)
      (
        done.0,
        read_u64-le_bytes (write_bytes ram a bs).0 a v (omega (arith, frame.same_size))
            (omega (arith, frame.same_size)) word done.1,
        frame.outside b outside,
      )

-- A write of bytes that starts in RAM or at its end either fits and succeeds, or reports the first
-- address that is outside RAM; in both cases nothing outside the range that it was given changes.
pub write_bytes_outcome :
    (ram : GuestRam) (a b : ℕ) (bs : List ℕ)
    → a ≤ ram.size
    → (b < a) ⊎ (a + length bs ≤ b)
    → ((write_bytes ram a bs).1
        ≡ (if leb (a + length bs) ram.size then ok tt else err (not_in_ram ram.size)))
      × ((write_bytes ram a bs).0.size ≡ ram.size)
      × ((write_bytes ram a bs).0.bytes b ≡ ram.bytes b)
unfolding write_bytes
write_bytes_outcome ram a b bs h outside = (
  elim (Bool-cases (leb (a + length bs) ram.size)) [
    | inl fits ↦ rw fits (write_bytes_from-read_from 0 a bs ram (ground arith)).0
    | inr over ↦ rw over (write_bytes_from-error 0 a bs ram (omega arith) (ground arith))
  ],
  frame.same_size,
  frame.outside b outside,
)
  where
    frame : Frame a (a + length bs) ram (write_bytes_from 0 a bs ram).0
    frame = write_bytes_from-Frame 0 a bs a (a + length bs) ram (omega arith) (omega arith)

length-read_from : (m : ℕ → Option ℕ) (a i n : ℕ) → length (read_from m a i n) ≡ n
unfolding read_from
length-read_from m a i zero = refl
length-read_from m a i (suc n) = ap suc (length-read_from m a (i + 1) n)

-- Where RAM ends below the last `u64`, a read of `len` bytes has one of three outcomes: exactly
-- `len` bytes and the range lies in RAM; `NotInRam` and the range ends past RAM and starts outside
-- it; or `Short` with what is left, and the range starts inside and asks for more.
pub read_bytes_outcome :
    (ram : GuestRam) (a len : ℕ)
    → ram.size < 2 ^ 64 - 1
    → ((bs : List ℕ) × (read_bytes ram a len ≡ ok bs) × (length bs ≡ len) × (a + len ≤ ram.size))
      ⊎ ((read_bytes ram a len ≡ err (not_in_ram a)) × (ram.size ≤ a) × (ram.size < a + len))
      ⊎ ((read_bytes ram a len ≡ err (short a len (ram.size - a)))
          × (a < ram.size)
          × (ram.size - a < len))
unfolding read_bytes
read_bytes_outcome ram a len h = elim (Bool-cases (ltb ram.size (a + len))) [
  | inl over ↦ elim (Bool-cases (leb ram.size a)) [
    | inl out ↦ inr (inl (ground arith))
    | inr starts_in ↦ inr (inr (ground arith))
  ]
  | inr fits ↦
      inl (
        read_from ram.bytes a 0 len,
        ground arith,
        length-read_from ram.bytes a 0 len,
        ground arith,
      )
]
