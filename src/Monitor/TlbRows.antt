-- ===== src/Monitor/TlbRows.antt =====
-- crates/princess-bin/src/monitor.rs: `info tlb` as QEMU prints it, read back.
use princess_ide.Prelude.{
  ℕ, ◌^◌, ◌<◌, ◌≡◌, refl, ap, ◌∙◌, Bool, true, false, List, [], ◌∷◌, ◌++◌, All, map, if◌then◌else◌,
  ok,
}
use princess_ide.Str.{codes, is_whitespace, trim, split_whitespace}
use princess_ide.Str.Words.{IsWord, spaced, split_whitespace-spaced, trim-spaced}
use princess_ide.Serial.Parse.{is_empty}
use princess_ide.Serial.Hexadecimal.{hex_padded}
use princess_ide.Monitor.Lines.{Outcome, next, parsed}
use princess_ide.Monitor.Tables.{InfoTlbEntry, TlbFlags, parse_info_tlb, tlb_line, tlb_row, row_or}
use princess_ide.Monitor.Flags.{spell, decode_tlb_flags-spell}
use princess_ide.Monitor.Digits.{
  parse_hex_u64-hex_padded, hex_padded-IsWord, IsWord-append, strip_suffix-append,
}
use princess_ide.Monitor.Printed.{printed, Reads, spaced-IsInner, over_text-printed}

-- `print_pte()`: `<vaddr>: <paddr> <flags>`.
abbrev pub tlb_fields : InfoTlbEntry → List (List ℕ)
tlb_fields e =
    (hex_padded 16 e.virtual_address ++ (58 ∷ []))
    ∷ hex_padded 16 e.physical_address
    ∷ spell e.flags
    ∷ []

abbrev pub tlb_text : InfoTlbEntry → List ℕ
tlb_text e = spaced (tlb_fields e)

-- The addresses are 64-bit words.
abbrev pub InWords : InfoTlbEntry → Type 0
InWords e = (e.virtual_address < 2 ^ 64) × (e.physical_address < 2 ^ 64)

mark_solid :
    (bit : Bool) (letter : ℕ)
    → is_whitespace letter ≡ false
    → is_whitespace (if bit then letter else 45) ≡ false
unfolding is_whitespace
mark_solid true letter h = h
mark_solid false letter h = refl

spell-IsWord : (f : TlbFlags) → IsWord (spell f)
unfolding is_whitespace
spell-IsWord f = (
  mark_solid f.nx 88 refl,
  (
    mark_solid f.global 71 refl,
    (
      mark_solid f.ps 80 refl,
      (
        mark_solid f.dirty 68 refl,
        (
          mark_solid f.accessed 65 refl,
          (
            mark_solid f.pcd 67 refl,
            (
              mark_solid f.pwt 84 refl,
              (mark_solid f.user 85 refl, (mark_solid f.writable 87 refl, tt)),
            ),
          ),
        ),
      ),
    ),
  ),
)

tlb_fields-IsWord : (e : InfoTlbEntry) → All IsWord (tlb_fields e)
unfolding is_whitespace
tlb_fields-IsWord e = (
  IsWord-append (hex_padded 16 e.virtual_address) (58 ∷ []) (hex_padded-IsWord 15 _) (refl, tt),
  (hex_padded-IsWord 15 _, (spell-IsWord e.flags, tt)),
)

tlb_row-fields :
    (e : InfoTlbEntry)
    → InWords e
    → tlb_row
        (hex_padded 16 e.physical_address ∷ spell e.flags ∷ [])
        (hex_padded 16 e.virtual_address ++ (58 ∷ []))
      ≡ ok e
unfolding tlb_row
tlb_row-fields e (v, p) =
    rw
      (
        tlb_row,
        strip_suffix-append 58 (hex_padded 16 e.virtual_address),
        parse_hex_u64-hex_padded e.virtual_address v,
        parse_hex_u64-hex_padded e.physical_address p,
        decode_tlb_flags-spell e.flags,
      )
      refl

is_empty-spaced_first :
    (w v : List ℕ) (ws : List (List ℕ)) → IsWord w → is_empty (spaced (w ∷ v ∷ ws)) ≡ false
is_empty-spaced_first [] v ws h = absurd h
is_empty-spaced_first (c ∷ w) v ws h = refl

-- The step on a line that is already trimmed, by its words.
tlb_words : List InfoTlbEntry → List ℕ → List (List ℕ) → Outcome (List InfoTlbEntry)
tlb_words out line [] = next out
tlb_words out line (address_field ∷ fields) = row_or out line (tlb_row fields address_field)

tlb_line-text :
    (cr : Bool) (e : InfoTlbEntry) → InWords e → Reads tlb_line tlb_text (codes "info tlb") cr e
unfolding tlb_line tlb_words
tlb_line-text cr e h =
    let words = tlb_fields-IsWord e in
    let line = tlb_text e in
    (
      spaced-IsInner (tlb_fields e) words,
      λ out.
          let trimmed = trim-spaced (tlb_fields e) words in
          let inhabited : is_empty (trim line) ≡ false =
            ap is_empty trimmed
            ∙ is_empty-spaced_first (hex_padded 16 e.virtual_address ++ (58 ∷ []))
                (hex_padded 16 e.physical_address) (spell e.flags ∷ []) words.0 in
          let fields = ap split_whitespace trimmed ∙ split_whitespace-spaced (tlb_fields e) words in
          ap (λ b. if b then next out else tlb_words out line (split_whitespace (trim line)))
            inhabited
          ∙ ap (tlb_words out line) fields
          ∙ ap (row_or out line) (tlb_row-fields e h),
    )

All-lines :
    (cr : Bool) (entries : List InfoTlbEntry)
    → All InWords entries
    → All (Reads tlb_line tlb_text (codes "info tlb") cr) entries
All-lines cr [] h = tt
All-lines cr (e ∷ entries) (h, hs) = (tlb_line-text cr e h, All-lines cr entries hs)

-- What QEMU prints for `info tlb`, a line `<vaddr>: <paddr> <flags>` of 16 hexadecimal digits and nine
-- flag characters for each entry, with either line ending, parses to the entries in order, when their
-- addresses are 64-bit words.
pub parse_info_tlb-printed :
    (cr : Bool) (entries : List InfoTlbEntry)
    → All InWords entries
    → parse_info_tlb (printed cr (map tlb_text entries)) ≡ parsed entries
unfolding parse_info_tlb
parse_info_tlb-printed cr entries h =
    over_text-printed tlb_line tlb_text (codes "info tlb") cr entries (All-lines cr entries h)
