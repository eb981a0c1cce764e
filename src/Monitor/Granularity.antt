-- ===== src/Monitor/Granularity.antt =====
-- crates/princess-bin/src/monitor.rs: `TlbGranularity` and `resolve_granularities`.
use princess_ide.Prelude.{
  ℕ, ◌+◌, ◌-◌, ◌*◌, ◌≡◌, refl, sym, ap, ◌∙◌, arith, Bool, true, false, not, Option, none, some,
  List, [], ◌∷◌, ltb, leb, if◌then◌else◌, find,
}
use princess_ide.Monitor.Tables.{InfoTlbEntry}

pub data TlbGranularity : Type 0 where
  page4k huge2m huge1g : TlbGranularity

abbrev pub bytes : TlbGranularity → ℕ
bytes page4k = 4096
bytes huge2m = 2 * 1024 * 1024
bytes huge1g = 1024 * 1024 * 1024

unfoldable pub granularity : InfoTlbEntry → TlbGranularity
granularity entry = if entry.flags.ps then huge2m else page4k

-- What the stride to the next page says of a huge entry.
abbrev pub from_stride : Option ℕ → TlbGranularity
from_stride none = huge2m
from_stride (some stride) = if leb (bytes huge1g) stride then huge1g else huge2m

unfoldable pub stride : InfoTlbEntry → List InfoTlbEntry → Option ℕ
stride entry entries =
    elim (find (λ next. ltb entry.virtual_address next.virtual_address) entries) [
      | some next ↦ some (next.virtual_address - entry.virtual_address)
      | none ↦ none
    ]

unfoldable pub resolve_granularities : List InfoTlbEntry → List TlbGranularity
unfolding stride
resolve_granularities [] = []
resolve_granularities (entry ∷ entries) =
    (if not entry.flags.ps then page4k else from_stride (stride entry entries))
    ∷ resolve_granularities entries

abbrev pub is_huge : TlbGranularity → Bool
is_huge page4k = false
is_huge huge2m = true
is_huge huge1g = true

-- Entries of pages of these sizes, each page where the one before it ends.
abbrev pub Contiguous : List InfoTlbEntry → List TlbGranularity → Type 0
Contiguous [] sizes = sizes ≡ []
Contiguous (e ∷ []) sizes = (s : TlbGranularity) × (sizes ≡ s ∷ []) × (e.flags.ps ≡ is_huge s)
Contiguous (e ∷ f ∷ es) sizes =
    (s : TlbGranularity) × (rest : List TlbGranularity) × (sizes ≡ s ∷ rest)
    × (e.flags.ps ≡ is_huge s)
    × (f.virtual_address ≡ e.virtual_address + bytes s)
    × Contiguous (f ∷ es) rest

-- The sizes, but for a last page of 1 GiB, which is taken to be of 2 MiB.
abbrev pub but_last : List TlbGranularity → List TlbGranularity
but_last [] = []
but_last (page4k ∷ []) = page4k ∷ []
but_last (huge2m ∷ []) = huge2m ∷ []
but_last (huge1g ∷ []) = huge2m ∷ []
but_last (s ∷ t ∷ rest) = s ∷ but_last (t ∷ rest)

bytes_positive : (e : ℕ) (s : TlbGranularity) → ltb e (e + bytes s) ≡ true
bytes_positive e page4k = ground arith
bytes_positive e huge2m = ground arith
bytes_positive e huge1g = ground arith

stride_next :
    (e f : InfoTlbEntry) (es : List InfoTlbEntry) (s : TlbGranularity)
    → f.virtual_address ≡ e.virtual_address + bytes s
    → stride e (f ∷ es) ≡ some (bytes s)
unfolding stride
stride_next e f es s at =
    let later : ltb e.virtual_address f.virtual_address ≡ true =
      ap (λ a. ltb e.virtual_address a) at ∙ bytes_positive e.virtual_address s in
    let width : f.virtual_address - e.virtual_address ≡ bytes s = omega arith in
    rw (stride, later, width) refl

from_stride_bytes :
    (ps : Bool) (s : TlbGranularity)
    → ps ≡ is_huge s
    → (if not ps then page4k else from_stride (some (bytes s))) ≡ s
from_stride_bytes ps page4k h = rw h refl
from_stride_bytes ps huge2m h = rw h refl
from_stride_bytes ps huge1g h = rw h refl

but_last_cons :
    (s : TlbGranularity) (e : InfoTlbEntry) (es : List InfoTlbEntry) (rest : List TlbGranularity)
    → Contiguous (e ∷ es) rest
    → but_last (s ∷ rest) ≡ s ∷ but_last rest
but_last_cons s e [] rest (t, h, _) = rw h refl
but_last_cons s e (f ∷ es) rest (t, more, h, flag, at, later) = rw h refl

last_one :
    (ps : Bool) (s : TlbGranularity)
    → ps ≡ is_huge s
    → (if not ps then page4k else huge2m) ∷ [] ≡ but_last (s ∷ [])
last_one ps page4k h = rw h refl
last_one ps huge2m h = rw h refl
last_one ps huge1g h = rw h refl

-- Where every entry's page begins at the address at which the page of the entry before it ends, and
-- the flag `PS` is set on the huge pages alone, the sizes that the strides give are the pages' sizes,
-- but for a last page of 1 GiB, which is taken to be of 2 MiB.
pub resolve_granularities-Contiguous :
    (entries : List InfoTlbEntry) (sizes : List TlbGranularity)
    → Contiguous entries sizes
    → resolve_granularities entries ≡ but_last sizes
unfolding resolve_granularities
resolve_granularities-Contiguous [] sizes h = rw h refl
resolve_granularities-Contiguous (e ∷ []) sizes (s, h, flag) =
    rw (h, stride) (last_one e.flags.ps s flag)
resolve_granularities-Contiguous (e ∷ f ∷ es) sizes (s, rest, h, flag, at, more) =
    ap (λ w. (if not e.flags.ps then page4k else from_stride w) ∷ resolve_granularities (f ∷ es))
      (stride_next e f es s at)
    ∙ ap (λ g. g ∷ resolve_granularities (f ∷ es)) (from_stride_bytes e.flags.ps s flag)
    ∙ ap (λ l. s ∷ l) (resolve_granularities-Contiguous (f ∷ es) rest more)
    ∙ sym (but_last_cons s f es rest more)
    ∙ ap but_last (sym h)
