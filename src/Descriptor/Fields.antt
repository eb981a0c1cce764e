-- ===== src/Descriptor/Fields.antt =====
-- The shifted fields of a descriptor as arithmetic on its raw words.
use princess_ide.Prelude.{
  ℕ, ◌+◌, ◌*◌, ◌/◌, ◌%◌, ◌^◌, ◌<◌, ◌≡◌, ◌↔◌, refl, sym, ap, ◌∙◌, arith, Bool, true, false, some,
  if◌then◌else◌, ◌==◌, ==_iff, Bool-cases, inl, inr,
}
use princess_ide.Bits.{and_ones, test_bit, test_bits, fields_or, or_fields}
use princess_ide.Descriptor.Decode.{
  limit_field, scaled_limit, low_base, access_byte, SegmentDescriptor, decode_segment, CodeDataKind,
  code_segment, data_segment, decode_system, bit_g, bit_s,
}

pub limit_field_lem : (raw : ℕ) → limit_field raw ≡ raw / 2 ^ 48 % 2 ^ 4 * 2 ^ 16 + raw % 2 ^ 16
limit_field_lem raw = ground (
  arith,
  and_ones 4 (raw / 2 ^ 48),
  and_ones 16 raw,
  fields_or 16 (raw / 2 ^ 48 % 2 ^ 4) (raw % 2 ^ 16),
)

pub low_base_lem : (raw : ℕ) → low_base raw ≡ raw / 2 ^ 56 % 2 ^ 8 * 2 ^ 24 + raw / 2 ^ 16 % 2 ^ 24
low_base_lem raw = ground (
  arith,
  and_ones 8 (raw / 2 ^ 56),
  and_ones 8 (raw / 2 ^ 32),
  and_ones 16 (raw / 2 ^ 16),
  fields_or 24 (raw / 2 ^ 56 % 2 ^ 8) (raw / 2 ^ 32 % 2 ^ 8 * 2 ^ 16),
  fields_or 16 (raw / 2 ^ 56 % 2 ^ 8 * 2 ^ 8 + raw / 2 ^ 32 % 2 ^ 8) (raw / 2 ^ 16 % 2 ^ 16),
)

pub access_byte_lem : (raw : ℕ) → access_byte raw ≡ raw / 2 ^ 40 % 2 ^ 8
access_byte_lem raw = omega (arith, and_ones 8 (raw / 2 ^ 40))

-- A limit that counts pages covers the last byte of its last page.
pub scaled_limit_lem :
    (raw : ℕ)
    → scaled_limit raw
      ≡ (if raw / 2 ^ 55 % 2 == 1 then limit_field raw * 2 ^ 12 + 0xFFF else limit_field raw)
scaled_limit_lem raw =
    ground (arith, test_bit 55 raw, limit_field_lem raw, fields_or 12 (limit_field raw) 0xFFF)

abbrev bit : Bool → ℕ
bit b = if b then 1 else 0

abbrev kind_bit : CodeDataKind → ℕ
kind_bit code_segment = 1
kind_bit data_segment = 0

-- The 20-bit field that a scaled limit came from.
abbrev unscaled : Bool → ℕ → ℕ
unscaled true limit = limit / 2 ^ 12
unscaled false limit = limit

-- A decoded segment put back into one word, with the `S` bit set.
abbrev pub encode_segment : SegmentDescriptor → ℕ
encode_segment d =
    unscaled d.granularity_4k d.limit % 2 ^ 16
    + d.base % 2 ^ 24 * 2 ^ 16
    + bit d.accessed * 2 ^ 40
    + bit d.readable_writable * 2 ^ 41
    + bit d.direction_or_conforming * 2 ^ 42
    + kind_bit d.kind * 2 ^ 43
    + 2 ^ 44
    + d.dpl * 2 ^ 45
    + bit d.present * 2 ^ 47
    + unscaled d.granularity_4k d.limit / 2 ^ 16 * 2 ^ 48
    + bit d.available * 2 ^ 52
    + bit d.long_mode * 2 ^ 53
    + bit d.default_size_32 * 2 ^ 54
    + bit d.granularity_4k * 2 ^ 55
    + d.base / 2 ^ 24 * 2 ^ 56

abbrev digit : ℕ → ℕ → ℕ
digit raw k = raw / 2 ^ k % 2

bit_of_test : (k raw : ℕ) → bit (test_bits raw (2 ^ k)) ≡ digit raw k
bit_of_test k raw = rw test_bit (bit_digit (digit raw k) (omega arith))
  where
    bit_digit : (d : ℕ) → d < 2 → bit (d == 1) ≡ d
    bit_digit d h = ground arith

unscaled_limit : (raw : ℕ) → unscaled (test_bits raw bit_g) (scaled_limit raw) ≡ limit_field raw
unscaled_limit raw = elim (Bool-cases (test_bits raw bit_g)) [
  | inl pages ↦ rw pages (ground (arith, limit_field_lem raw, fields_or 12 (limit_field raw) 0xFFF))
  | inr bytes ↦ rw bytes refl
]

kind_flag :
    (raw : ℕ)
    → kind_bit (if test_bits (access_byte raw) 0x08 then code_segment else data_segment)
      ≡ digit raw 43
kind_flag raw = ground (arith, test_bit 3 (access_byte raw), access_byte_lem raw)

-- A 64-bit word is the sum of its fields; `s` is its bit 44.
abbrev word_sum : ℕ → ℕ → ℕ
word_sum raw s =
    raw % 2 ^ 16
    + raw / 2 ^ 16 % 2 ^ 24 * 2 ^ 16
    + digit raw 40 * 2 ^ 40
    + digit raw 41 * 2 ^ 41
    + digit raw 42 * 2 ^ 42
    + digit raw 43 * 2 ^ 43
    + s * 2 ^ 44
    + raw / 2 ^ 45 % 2 ^ 2 * 2 ^ 45
    + digit raw 47 * 2 ^ 47
    + raw / 2 ^ 48 % 2 ^ 4 * 2 ^ 48
    + digit raw 52 * 2 ^ 52
    + digit raw 53 * 2 ^ 53
    + digit raw 54 * 2 ^ 54
    + digit raw 55 * 2 ^ 55
    + raw / 2 ^ 56 % 2 ^ 8 * 2 ^ 56

word_sum_lem : (raw : ℕ) → raw < 2 ^ 64 → word_sum raw (digit raw 44) ≡ raw
word_sum_lem raw h = omega arith

-- The fields as the decoder computes them are those of the sum.
record Same (raw limit base low : ℕ) : Type 0 where
  pub limit_low : limit % 2 ^ 16 ≡ raw % 2 ^ 16
  pub limit_high : limit / 2 ^ 16 ≡ raw / 2 ^ 48 % 2 ^ 4
  pub base_low : base % 2 ^ 24 ≡ raw / 2 ^ 16 % 2 ^ 24
  pub base_high : base / 2 ^ 24 ≡ raw / 2 ^ 56 % 2 ^ 8
  pub bit40 : digit low 0 ≡ digit raw 40
  pub bit41 : digit low 1 ≡ digit raw 41
  pub bit42 : digit low 2 ≡ digit raw 42
  pub level : low / 2 ^ 5 % 2 ^ 2 ≡ raw / 2 ^ 45 % 2 ^ 2
  pub bit47 : digit low 7 ≡ digit raw 47

fields-Same : (raw : ℕ) → Same raw (limit_field raw) (low_base raw) (access_byte raw)
fields-Same raw = record {
  limit_low = omega (arith, limit_field_lem raw);
  limit_high = omega (arith, limit_field_lem raw);
  base_low = omega (arith, low_base_lem raw);
  base_high = omega (arith, low_base_lem raw);
  bit40 = omega (arith, access_byte_lem raw);
  bit41 = omega (arith, access_byte_lem raw);
  bit42 = omega (arith, access_byte_lem raw);
  level = omega (arith, access_byte_lem raw);
  bit47 = omega (arith, access_byte_lem raw);
}

test_digit : (k raw : ℕ) → test_bits raw (2 ^ k) ≡ true → digit raw k ≡ 1
test_digit k raw h = (==_iff _ 1).0 (sym (test_bit k raw) ∙ h)

-- Decoding a code or data descriptor, a 64-bit word with `S` set, loses nothing: its fields, with the
-- limit unscaled and the base and limit split again, make up the word that was decoded.
pub encode_segment-decode_segment :
    (offset raw : ℕ)
    → raw < 2 ^ 64
    → test_bits raw bit_s ≡ true
    → encode_segment (decode_segment offset raw) ≡ raw
unfolding decode_segment
encode_segment-decode_segment offset raw h s =
    let f = fields-Same raw in
    rw
      (
        unscaled_limit raw,
        kind_flag raw,
        bit_of_test 0 (access_byte raw),
        bit_of_test 1 (access_byte raw),
        bit_of_test 2 (access_byte raw),
        bit_of_test 7 (access_byte raw),
        and_ones 2 (access_byte raw / 2 ^ 5),
        bit_of_test 52 raw,
        bit_of_test 53 raw,
        bit_of_test 54 raw,
        bit_of_test 55 raw,
        f.limit_low,
        f.limit_high,
        f.base_low,
        f.base_high,
        f.bit40,
        f.bit41,
        f.bit42,
        f.level,
        f.bit47,
      )
      (ap (word_sum raw) (sym (test_digit 44 raw s)) ∙ word_sum_lem raw h)

-- The base that the manual gives a descriptor of 16 bytes: bits 63:32 are the low half of its
-- second word.
abbrev pub manual_base : ℕ → ℕ → ℕ
manual_base low high = low_base low + high % 2 ^ 32 * 2 ^ 32

-- The decoded base of a descriptor of 16 bytes is the manual's exactly when the two halves of its
-- second word, of 64 bits, agree: the decoder takes bits 63:32 from the upper half, where the manual has them in
-- the lower one.
pub system_base_iff :
    (offset low high : ℕ)
    → high < 2 ^ 64
    → ((decode_system offset low (some high)).base ≡ manual_base low high)
      ↔ (high / 2 ^ 32 ≡ high % 2 ^ 32)
unfolding decode_system
system_base_iff offset low high h = ground (
  arith,
  low_base_lem low,
  and_ones 32 (high / 2 ^ 32),
  or_fields 32 (low_base low) (high / 2 ^ 32),
)
