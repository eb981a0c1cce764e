-- ===== src/Utf8.antt =====
-- What Rust's `std::str::from_utf8` and `String::from_utf8_lossy` make of bytes, for the framing of debug
-- adapter messages (crates/princess-debug/src/framing.rs).
pub mod Sequences
pub mod Valid
pub mod Cuts
use princess_ide.Prelude.{
  ℕ, zero, suc, ◌+◌, ◌-◌, ◌*◌, Bool, true, false, ◌&&◌, Option, none, some, List, [], ◌∷◌, leb, ltb,
  ◌==◌, if◌then◌else◌,
}

-- The sequence at the front of some bytes: whole, with the bytes after its first and the character;
-- ill-formed, with the bytes after its first that go with it; or cut by the end.
pub data Sequence : Type 0 where
  whole : (more code : ℕ) → Sequence
  ill_formed : (more : ℕ) → Sequence
  cut_off : Sequence

abbrev pub within : ℕ → ℕ → ℕ → Bool
within low high c = leb low c && leb c high

-- A byte that may follow, and one that may come second after `b`.
abbrev pub is_tail : ℕ → Bool
is_tail c = within 128 191 c

abbrev pub is_second : ℕ → ℕ → Bool
is_second b c =
    if b == 224
    then within 160 191 c
    else if b == 237
    then within 128 159 c
    else if b == 240
    then within 144 191 c
    else if b == 244
    then within 128 143 c
    else is_tail c

abbrev pub of_two : ℕ → List ℕ → Sequence
of_two b [] = cut_off
of_two b (c ∷ bytes) = if is_second b c then whole 1 ((b - 192) * 64 + (c - 128)) else ill_formed 0

abbrev pub of_three : ℕ → List ℕ → Sequence
of_three b [] = cut_off
of_three b (c ∷ []) = if is_second b c then cut_off else ill_formed 0
of_three b (c ∷ d ∷ bytes) =
    if is_second b c
    then (if is_tail d
        then whole 2 ((b - 224) * 4096 + (c - 128) * 64 + (d - 128))
        else ill_formed 1)
    else ill_formed 0

abbrev pub of_four : ℕ → List ℕ → Sequence
of_four b [] = cut_off
of_four b (c ∷ []) = if is_second b c then cut_off else ill_formed 0
of_four b (c ∷ d ∷ []) =
    if is_second b c then (if is_tail d then cut_off else ill_formed 1) else ill_formed 0
of_four b (c ∷ d ∷ e ∷ bytes) =
    if is_second b c
    then (if is_tail d
        then (if is_tail e
            then whole 3 ((b - 240) * 262144 + (c - 128) * 4096 + (d - 128) * 64 + (e - 128))
            else ill_formed 2)
        else ill_formed 1)
    else ill_formed 0

unfoldable pub first_sequence : ℕ → List ℕ → Sequence
first_sequence b bytes =
    if ltb b 128
    then whole 0 b
    else if within 194 223 b
    then of_two b bytes
    else if within 224 239 b
    then of_three b bytes
    else if within 240 244 b
    then of_four b bytes
    else ill_formed 0

-- With a number of bytes that belong to the sequence before.
unfoldable pub lossy_from : ℕ → List ℕ → List ℕ
unfolding first_sequence
lossy_from skip [] = []
lossy_from (suc skip) (b ∷ bytes) = lossy_from skip bytes
lossy_from zero (b ∷ bytes) = elim (first_sequence b bytes) [
  | whole more code ↦ code ∷ lossy_from more bytes
  | ill_formed more ↦ 65533 ∷ lossy_from more bytes
  | cut_off ↦ 65533 ∷ []
]

unfoldable pub from_utf8_lossy : List ℕ → List ℕ
unfolding lossy_from
from_utf8_lossy bytes = lossy_from 0 bytes

unfoldable pub is_utf8_from : ℕ → List ℕ → Bool
unfolding first_sequence
is_utf8_from skip [] = true
is_utf8_from (suc skip) (b ∷ bytes) = is_utf8_from skip bytes
is_utf8_from zero (b ∷ bytes) = elim (first_sequence b bytes) [
  | whole more code ↦ is_utf8_from more bytes
  | ill_formed more ↦ false
  | cut_off ↦ false
]

-- Whether `from_utf8` takes the bytes.
unfoldable pub is_utf8 : List ℕ → Bool
unfolding is_utf8_from
is_utf8 bytes = is_utf8_from 0 bytes

-- The error of `from_utf8` on bytes that begin at a place: `valid_up_to`, and `error_len`, which is
-- absent where the end cuts a sequence.
unfoldable pub utf8_error : ℕ → ℕ → List ℕ → Option (ℕ × Option ℕ)
unfolding first_sequence
utf8_error at skip [] = none
utf8_error at (suc skip) (b ∷ bytes) = utf8_error (at + 1) skip bytes
utf8_error at zero (b ∷ bytes) = elim (first_sequence b bytes) [
  | whole more code ↦ utf8_error (at + 1) more bytes
  | ill_formed more ↦ some (at, some (more + 1))
  | cut_off ↦ some (at, none)
]
