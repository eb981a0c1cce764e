-- ===== src/Monitor/Flags.antt =====
-- crates/princess-bin/src/monitor.rs: the nine flags of an `info tlb` line, as QEMU prints them.
use princess_ide.Prelude.{
  ℕ, suc, ◌≡◌, ◌≢◌, ◌↔◌, refl, sym, ap, ◌∙◌, inl, inr, arith, Bool, true, false, Option, none, some,
  List, [], ◌∷◌, ◌==◌, if◌then◌else◌, Bool-cases, Option-cases, ==_iff, length, All,
}
use princess_ide.Monitor.Tables.{TlbFlags, flag_bits, named_flags, expected, decode_tlb_flags}

-- A set flag's letter, or the dash of a clear one.
abbrev pub mark : Bool → ℕ → ℕ
mark bit letter = if bit then letter else 45

abbrev pub spelled : List Bool → List ℕ → List ℕ
spelled [] letters = []
spelled (bit ∷ bits) [] = []
spelled (bit ∷ bits) (letter ∷ letters) = mark bit letter ∷ spelled bits letters

abbrev pub bits_of : TlbFlags → List Bool
bits_of f = f.nx ∷ f.global ∷ f.ps ∷ f.dirty ∷ f.accessed ∷ f.pcd ∷ f.pwt ∷ f.user ∷ f.writable ∷ []

-- The flag column of a line, `X G P D A C T U W`.
abbrev pub spell : TlbFlags → List ℕ
spell f = spelled (bits_of f) expected

flag_bits-spelled :
    (bits : List Bool) (letters : List ℕ)
    → length bits ≡ length letters
    → All (λ c. c ≢ 45) letters
    → flag_bits (spelled bits letters) letters ≡ some bits
unfolding flag_bits
flag_bits-spelled [] letters h k = refl
flag_bits-spelled (bit ∷ bits) [] h k = absurd (omega arith)
flag_bits-spelled (true ∷ bits) (letter ∷ letters) h (k, ks) =
    let same : (letter == letter) ≡ true = ground arith in
    rw (flag_bits, same, flag_bits-spelled bits letters (omega arith) ks) refl
flag_bits-spelled (false ∷ bits) (letter ∷ letters) h (k, ks) =
    let other : (45 == letter) ≡ false = ground (arith, k) in
    rw (flag_bits, other, flag_bits-spelled bits letters (omega arith) ks) refl

some_bits_inj : {s t : List Bool} → ◌≡◌ {A = Option (List Bool)} (some s) (some t) → s ≡ t
some_bits_inj h = ground arith

-- A character that stands for a bit in front of others.
flag_bits_cons :
    (c letter : ℕ) (s letters : List ℕ) (set : List Bool)
    → flag_bits (c ∷ s) (letter ∷ letters) ≡ some set
    → (bit : Bool) × (bits : List Bool) × (flag_bits s letters ≡ some bits)
      × (set ≡ bit ∷ bits)
      × (c ≡ mark bit letter)
unfolding flag_bits
flag_bits_cons c letter s letters set h = elim (Option-cases (flag_bits s letters)) [
  | inl nothing ↦ absurd (ground (arith, nothing))
  | inr (bits, there) ↦ elim (Bool-cases (c == letter)) [
    | inl same ↦ (
      true,
      bits,
      there,
      some_bits_inj (sym (rw (flag_bits, there, same) at h)),
      (==_iff c letter).0 same,
    )
    | inr other ↦ elim (Bool-cases (c == 45)) [
      | inl dash ↦ (
        false,
        bits,
        there,
        some_bits_inj (sym (rw (flag_bits, there, other, dash) at h)),
        (==_iff c 45).0 dash,
      )
      | inr bad ↦ absurd (ground (arith, other, bad))
    ]
  ]
]

spelled-flag_bits :
    (s letters : List ℕ) (set : List Bool)
    → length s ≡ length letters
    → flag_bits s letters ≡ some set
    → (s ≡ spelled set letters) × (length set ≡ length letters)
spelled-flag_bits [] [] set h e =
    let nil : [] ≡ set = some_bits_inj (unfold flag_bits in e) in rw (← nil) (refl, refl)
spelled-flag_bits [] (letter ∷ letters) set h e = absurd (omega arith)
spelled-flag_bits (c ∷ s) [] set h e = absurd (omega arith)
spelled-flag_bits (c ∷ s) (letter ∷ letters) set h e =
    let (bit, bits, there, same, char) = flag_bits_cons c letter s letters set e in
    let (rest, len) = spelled-flag_bits s letters bits (omega arith) there in
    (
      ap (λ t. c ∷ t) rest
          ∙ ap (λ d. d ∷ spelled bits letters) char
          ∙ ap (λ l. spelled l (letter ∷ letters)) (sym same),
      ap length same ∙ ap suc len,
    )

bits_of-named_flags : (bits : List Bool) → length bits ≡ 9 → bits_of (named_flags bits) ≡ bits
bits_of-named_flags (a ∷ b ∷ c ∷ d ∷ e ∷ f ∷ g ∷ h ∷ i ∷ []) n = refl
bits_of-named_flags (a ∷ b ∷ c ∷ d ∷ e ∷ f ∷ g ∷ h ∷ i ∷ j ∷ rest) n = absurd (omega arith)
bits_of-named_flags (a ∷ b ∷ c ∷ d ∷ e ∷ f ∷ g ∷ h ∷ []) n = absurd (omega arith)
bits_of-named_flags (a ∷ b ∷ c ∷ d ∷ e ∷ f ∷ g ∷ []) n = absurd (omega arith)
bits_of-named_flags (a ∷ b ∷ c ∷ d ∷ e ∷ f ∷ []) n = absurd (omega arith)
bits_of-named_flags (a ∷ b ∷ c ∷ d ∷ e ∷ []) n = absurd (omega arith)
bits_of-named_flags (a ∷ b ∷ c ∷ d ∷ []) n = absurd (omega arith)
bits_of-named_flags (a ∷ b ∷ c ∷ []) n = absurd (omega arith)
bits_of-named_flags (a ∷ b ∷ []) n = absurd (omega arith)
bits_of-named_flags (a ∷ []) n = absurd (omega arith)
bits_of-named_flags [] n = absurd (omega arith)

-- The flags that a set of bits is named by.
abbrev name_bits : Option (List Bool) → Option TlbFlags
name_bits none = none
name_bits (some set) = some (named_flags set)

named_inj : {a b : TlbFlags} → ◌≡◌ {A = Option TlbFlags} (some a) (some b) → a ≡ b
named_inj h = ground arith

pub decode_tlb_flags-spell : (f : TlbFlags) → decode_tlb_flags (spell f) ≡ some f
unfolding decode_tlb_flags
decode_tlb_flags-spell f = ap name_bits (flag_bits-spelled (bits_of f) expected refl (omega arith))

spell-decode_tlb_flags :
    (text : List ℕ) (f : TlbFlags) → decode_tlb_flags text ≡ some f → text ≡ spell f
unfolding decode_tlb_flags
spell-decode_tlb_flags text f h = elim (Bool-cases (length text == 9)) [
  | inr short ↦ absurd (ground (arith, short))
  | inl nine ↦ elim (Option-cases (flag_bits text expected)) [
    | inl nothing ↦ absurd (ground (arith, nine, nothing))
    | inr (set, there) ↦
        let count = (==_iff (length text) 9).0 nine in
        let (letters, len) = spelled-flag_bits text expected set count there in
        let name : named_flags set ≡ f = named_inj (rw (decode_tlb_flags, nine, there) at h) in
        letters ∙ ap (λ l. spelled l expected) (sym (bits_of-named_flags set len)) ∙ ap spell name
  ]
]

-- A text decodes to flags exactly when it is the nine characters, each the letter of its column or a
-- dash, that spell these flags in QEMU's column order.
pub decode_tlb_flags_iff :
    (text : List ℕ) (f : TlbFlags) → (decode_tlb_flags text ≡ some f) ↔ (text ≡ spell f)
decode_tlb_flags_iff text f =
    (spell-decode_tlb_flags text f, λ h. ap decode_tlb_flags h ∙ decode_tlb_flags-spell f)
