-- ===== src/Monitor/Pairs.antt =====
-- crates/princess-bin/src/monitor.rs `parse_register_pairs`: the register blocks with their padding.
use princess_ide.Prelude.{
  ℕ, ◌≡◌, refl, ap, ◌∙◌, arith, Bool, true, false, Option, none, some, List, [], ◌∷◌, ◌++◌, ◌==◌,
  All,
}
use princess_ide.Str.{codes, all_chars, is_whitespace, strip_prefix, split_once}
use princess_ide.Str.Words.{IsWord, Solid, spaced, split_whitespace-spaced}
use princess_ide.Serial.Parse.{is_ascii_hexdigit}
use princess_ide.Monitor.Tables.{is_hex}
use princess_ide.Monitor.Registers.{
  Pair, is_name, is_ascii_alphanumeric, pair_at, pairs_from, parse_register_pairs, next_value,
}
use princess_ide.Monitor.Digits.{split_once-mark, IsWord-append}

-- How a pair stands on its line: `RAX=0`, `R8 =0` or `R8 = 0`.
pub data Padding : Type 0 where
  tight before_equals around_equals : Padding

pub record Field : Type 0 where
  pub name : List ℕ
  pub value : List ℕ
  pub padding : Padding

abbrev pub tokens_of : List ℕ → List ℕ → Padding → List (List ℕ)
tokens_of name value tight = (name ++ (61 ∷ value)) ∷ []
tokens_of name value before_equals = name ∷ (61 ∷ value) ∷ []
tokens_of name value around_equals = name ∷ (61 ∷ []) ∷ value ∷ []

abbrev pub field_tokens : List Field → List (List ℕ)
field_tokens [] = []
field_tokens (f ∷ fields) = tokens_of f.name f.value f.padding ++ field_tokens fields

abbrev pub field_pairs : List Field → List Pair
field_pairs [] = []
field_pairs (f ∷ fields) = (f.name, f.value) ∷ field_pairs fields

-- A name of letters and digits, a value of hexadecimal digits, neither empty.
abbrev pub IsField : Field → Type 0
IsField f = (is_name f.name ≡ true) × (is_hex f.value ≡ true)

-- What the characters of names and of values are not.
alphanumeric-solid : (c : ℕ) → is_ascii_alphanumeric c ≡ true → is_whitespace c ≡ false
unfolding is_whitespace
alphanumeric-solid c h = ground arith

hexdigit-solid : (c : ℕ) → is_ascii_hexdigit c ≡ true → is_whitespace c ≡ false
unfolding is_whitespace
hexdigit-solid c h = ground arith

alphanumeric-ne-equals : (c : ℕ) → is_ascii_alphanumeric c ≡ true → (61 == c) ≡ false
alphanumeric-ne-equals c h = ground arith

all_chars-All :
    (p : ℕ → Bool) (P : ℕ → Type 0)
    → ((c : ℕ) → p c ≡ true → P c)
    → (s : List ℕ) → all_chars p s ≡ true
    → All P s
all_chars-All p P f [] h = tt
all_chars-All p P f (c ∷ s) h = (f c (ground arith), all_chars-All p P f s (ground arith))

name-IsWord : (name : List ℕ) → is_name name ≡ true → IsWord name
name-IsWord [] h = absurd (ground arith)
name-IsWord (c ∷ s) h =
    all_chars-All is_ascii_alphanumeric (λ d. is_whitespace d ≡ false) alphanumeric-solid (c ∷ s) h

name-Plain : (name : List ℕ) → is_name name ≡ true → All (λ c. (61 == c) ≡ false) name
name-Plain [] h = tt
name-Plain (c ∷ s) h =
    all_chars-All is_ascii_alphanumeric (λ d. (61 == d) ≡ false) alphanumeric-ne-equals (c ∷ s) h

value-IsWord : (value : List ℕ) → is_hex value ≡ true → IsWord value
unfolding is_hex
value-IsWord [] h = absurd (ground arith)
value-IsWord (c ∷ s) h =
    all_chars-All is_ascii_hexdigit (λ d. is_whitespace d ≡ false) hexdigit-solid (c ∷ s) h

IsWord-Solid : (w : List ℕ) → IsWord w → Solid w
IsWord-Solid [] h = absurd h
IsWord-Solid (c ∷ w) h = h

tokens-IsWord :
    (name value : List ℕ) (padding : Padding)
    → IsWord name
    → IsWord value
    → All IsWord (tokens_of name value padding)
unfolding is_whitespace
tokens-IsWord name value tight n v =
    (IsWord-append name (61 ∷ value) n (refl, IsWord-Solid value v), tt)
tokens-IsWord name value before_equals n v = (n, ((refl, IsWord-Solid value v), tt))
tokens-IsWord name value around_equals n v = (n, ((refl, tt), (v, tt)))

All-words-append : (xs ys : List (List ℕ)) → All IsWord xs → All IsWord ys → All IsWord (xs ++ ys)
All-words-append [] ys h k = k
All-words-append (x ∷ xs) ys (h, hs) k = (h, All-words-append xs ys hs k)

pub fields-IsWord : (fields : List Field) → All IsField fields → All IsWord (field_tokens fields)
fields-IsWord [] h = tt
fields-IsWord (f ∷ fields) ((n, v), hs) =
    All-words-append (tokens_of f.name f.value f.padding) (field_tokens fields)
      (tokens-IsWord f.name f.value f.padding (name-IsWord f.name n) (value-IsWord f.value v))
      (fields-IsWord fields hs)

split_once-none :
    (name : List ℕ) → All (λ c. (61 == c) ≡ false) name → split_once (codes "=") name ≡ none
unfolding split_once strip_prefix
split_once-none [] h = refl
split_once-none (c ∷ s) (h, hs) = rw (split_once, strip_prefix, h, split_once-none s hs) refl

-- The value behind `=`.
next_value_word :
    (value : List ℕ) (rest : List (List ℕ))
    → IsWord value
    → next_value ((61 ∷ value) ∷ rest) ≡ some (value, 1)
unfolding next_value strip_prefix
next_value_word [] rest h = absurd h
next_value_word (c ∷ value) rest h = refl

prepended : Pair → Option (List Pair) → Option (List Pair)
prepended pair none = none
prepended pair (some pairs) = some (pair ∷ pairs)

pairs_from-tokens :
    (name value : List ℕ) (padding : Padding) (rest : List (List ℕ))
    → is_name name ≡ true
    → is_hex value ≡ true
    → pairs_from 0 (tokens_of name value padding ++ rest)
      ≡ prepended (name, value) (pairs_from 0 rest)
unfolding pairs_from pair_at prepended
pairs_from-tokens name value tight rest n v =
    rw (pairs_from, pair_at, split_once-mark 61 name value (name-Plain name n), n, v) refl
pairs_from-tokens name value before_equals rest n v =
    rw
      (
        pairs_from,
        pair_at,
        split_once-none name (name-Plain name n),
        n,
        next_value_word value rest (value-IsWord value v),
        v,
      )
      refl
pairs_from-tokens name value around_equals rest n v =
    rw
      (
        pairs_from,
        pair_at,
        split_once-none name (name-Plain name n),
        n,
        next_value,
        strip_prefix,
        v,
      )
      refl

pairs_from-fields :
    (fields : List Field)
    → All IsField fields
    → pairs_from 0 (field_tokens fields) ≡ some (field_pairs fields)
unfolding prepended
pairs_from-fields [] h = unfold pairs_from in refl
pairs_from-fields (f ∷ fields) ((n, v), hs) =
    pairs_from-tokens f.name f.value f.padding (field_tokens fields) n v
    ∙ ap (prepended (f.name, f.value)) (pairs_from-fields fields hs)

-- A line of registers, each `NAME=HEX`, `NAME =HEX` or `NAME = HEX` with a name of letters and digits,
-- parses to the names with their digits in order.
pub parse_register_pairs-fields :
    (fields : List Field)
    → All IsField fields
    → parse_register_pairs (spaced (field_tokens fields)) ≡ some (field_pairs fields)
unfolding parse_register_pairs
parse_register_pairs-fields fields h =
    ap (pairs_from 0) (split_whitespace-spaced (field_tokens fields) (fields-IsWord fields h))
    ∙ pairs_from-fields fields h
