-- ===== src/Arguments/Inline.antt =====
-- crates/princess-cli/src/args.rs: `--flag=value` and `--flag value`.
use princess_ide.Prelude.{
  ℕ, suc, ◌≡◌, refl, sym, ap, ◌∙◌, Option, none, some, List, ◌∷◌, ◌++◌, Result, ok, err,
  Result-cases, Option-cases, inl, inr,
}
use princess_ide.Str.{codes, split_once, starts_with, strip_prefix}
use princess_ide.Framing.{parse_usize}
use princess_ide.Arguments.{
  Args, Command, doctor, build, run_kernel, symbolicate, events, UsageError, Parsing, Step, option,
  value_of, token_step, parse_from, split_value, set_common, set_target, set_timeout, set_cancel,
  set_symbolicate, set_file, SymbolicateArgs, timeout_step, cancel_step, parsed_number,
}

-- The options that take a value.
pub data ValueFlag : Type 0 where
  project record_to op_id target timeout_ms cancel_after_ms rip from_log elf file : ValueFlag

abbrev pub flag_text : ValueFlag → List ℕ
flag_text project = codes "--project"
flag_text record_to = codes "--record"
flag_text op_id = codes "--op-id"
flag_text target = codes "--target"
flag_text timeout_ms = codes "--timeout-ms"
flag_text cancel_after_ms = codes "--cancel-after-ms"
flag_text rip = codes "--rip"
flag_text from_log = codes "--from-log"
flag_text elf = codes "--elf"
flag_text file = codes "--file"

-- The same state with one more token taken.
abbrev shifted : Step → Step
shifted (ok (p, used)) = ok (p, suc used)
shifted (err e) = err e

set_common-shifted :
    (f : Args → List ℕ → Args) (p : Parsing) (flag value : List ℕ) (rest : List (List ℕ))
    → set_common f p flag none (value ∷ rest) ≡ shifted (set_common f p flag (some value) rest)
unfolding set_common value_of
set_common-shifted f p flag value rest = refl

-- A state of the loop.
abbrev state : Args → Option Command → Parsing
state a c = record { args = a; command = c }

set_target-shifted :
    (a : Args) (c : Option Command) (flag value : List ℕ) (rest : List (List ℕ))
    → set_target (state a c) flag none (value ∷ rest)
      ≡ shifted (set_target (state a c) flag (some value) rest)
unfolding set_target value_of
set_target-shifted a none flag value rest = refl
set_target-shifted a (some doctor) flag value rest = refl
set_target-shifted a (some (build b)) flag value rest = refl
set_target-shifted a (some (run_kernel r)) flag value rest = refl
set_target-shifted a (some (symbolicate s)) flag value rest = refl
set_target-shifted a (some (events e)) flag value rest = refl

set_symbolicate-shifted :
    (f : SymbolicateArgs → List ℕ → SymbolicateArgs) (a : Args) (c : Option Command)
    (flag value : List ℕ) (rest : List (List ℕ))
    → set_symbolicate f (state a c) flag none (value ∷ rest)
      ≡ shifted (set_symbolicate f (state a c) flag (some value) rest)
unfolding set_symbolicate value_of
set_symbolicate-shifted f a none flag value rest = refl
set_symbolicate-shifted f a (some doctor) flag value rest = refl
set_symbolicate-shifted f a (some (build b)) flag value rest = refl
set_symbolicate-shifted f a (some (run_kernel r)) flag value rest = refl
set_symbolicate-shifted f a (some (symbolicate s)) flag value rest = refl
set_symbolicate-shifted f a (some (events e)) flag value rest = refl

set_file-shifted :
    (a : Args) (c : Option Command) (flag value : List ℕ) (rest : List (List ℕ))
    → set_file (state a c) flag none (value ∷ rest)
      ≡ shifted (set_file (state a c) flag (some value) rest)
unfolding set_file value_of
set_file-shifted a none flag value rest = refl
set_file-shifted a (some doctor) flag value rest = refl
set_file-shifted a (some (build b)) flag value rest = refl
set_file-shifted a (some (run_kernel r)) flag value rest = refl
set_file-shifted a (some (symbolicate s)) flag value rest = refl
set_file-shifted a (some (events e)) flag value rest = refl

timeout_step-shifted :
    (a : Args) (c : Option Command) (flag : List ℕ) (n used : ℕ)
    → timeout_step (state a c) flag (n, suc used)
      ≡ shifted (timeout_step (state a c) flag (n, used))
timeout_step-shifted a none flag n used = refl
timeout_step-shifted a (some doctor) flag n used = refl
timeout_step-shifted a (some (build b)) flag n used = refl
timeout_step-shifted a (some (run_kernel r)) flag n used = refl
timeout_step-shifted a (some (symbolicate s)) flag n used = refl
timeout_step-shifted a (some (events e)) flag n used = refl

cancel_step-shifted :
    (a : Args) (c : Option Command) (flag : List ℕ) (n used : ℕ)
    → cancel_step (state a c) flag (n, suc used) ≡ shifted (cancel_step (state a c) flag (n, used))
cancel_step-shifted a none flag n used = refl
cancel_step-shifted a (some doctor) flag n used = refl
cancel_step-shifted a (some (build b)) flag n used = refl
cancel_step-shifted a (some (run_kernel r)) flag n used = refl
cancel_step-shifted a (some (symbolicate s)) flag n used = refl
cancel_step-shifted a (some (events e)) flag n used = refl

set_timeout-shifted :
    (a : Args) (c : Option Command) (flag value : List ℕ) (rest : List (List ℕ))
    → set_timeout (state a c) flag none (value ∷ rest)
      ≡ shifted (set_timeout (state a c) flag (some value) rest)
unfolding set_timeout value_of
set_timeout-shifted a c flag value rest = elim (Option-cases (parse_usize value)) [
  | inl nothing ↦ rw (set_timeout, shifted, parsed_number, nothing) refl
  | inr (n, there) ↦
      rw (set_timeout, shifted, parsed_number, there) (timeout_step-shifted a c flag n 0)
]

set_cancel-shifted :
    (a : Args) (c : Option Command) (flag value : List ℕ) (rest : List (List ℕ))
    → set_cancel (state a c) flag none (value ∷ rest)
      ≡ shifted (set_cancel (state a c) flag (some value) rest)
unfolding set_cancel value_of
set_cancel-shifted a c flag value rest = elim (Option-cases (parse_usize value)) [
  | inl nothing ↦ rw (set_cancel, shifted, parsed_number, nothing) refl
  | inr (n, there) ↦
      rw (set_cancel, shifted, parsed_number, there) (cancel_step-shifted a c flag n 0)
]

-- The option with its value behind it takes one token more.
option-shifted :
    (a : Args) (c : Option Command) (flag : ValueFlag) (value : List ℕ) (rest : List (List ℕ))
    → option (state a c) (flag_text flag) none (value ∷ rest)
      ≡ shifted (option (state a c) (flag_text flag) (some value) rest)
unfolding option
option-shifted a c project value rest =
    set_common-shifted (λ b v. record b { project = v }) (state a c) (codes "--project") value rest
option-shifted a c record_to value rest =
    set_common-shifted (λ b v. record b { record_path = some v }) (state a c) (codes "--record")
      value rest
option-shifted a c op_id value rest =
    set_common-shifted (λ b v. record b { op_id = some v }) (state a c) (codes "--op-id") value rest
option-shifted a c target value rest = set_target-shifted a c (codes "--target") value rest
option-shifted a c timeout_ms value rest = set_timeout-shifted a c (codes "--timeout-ms") value rest
option-shifted a c cancel_after_ms value rest =
    set_cancel-shifted a c (codes "--cancel-after-ms") value rest
option-shifted a c rip value rest =
    set_symbolicate-shifted (λ s v. record s { rip = some v }) a c (codes "--rip") value rest
option-shifted a c from_log value rest =
    set_symbolicate-shifted (λ s v. record s { from_log = some v }) a c (codes "--from-log") value
      rest
option-shifted a c elf value rest =
    set_symbolicate-shifted (λ s v. record s { elf = some v }) a c (codes "--elf") value rest
option-shifted a c file value rest = set_file-shifted a c (codes "--file") value rest

-- Both spellings come to the same option.
token_step-apart :
    (p : Parsing) (flag : ValueFlag) (tokens : List (List ℕ))
    → token_step p (flag_text flag) tokens ≡ option p (flag_text flag) none tokens
unfolding token_step split_value split_once strip_prefix starts_with
token_step-apart p project tokens = refl
token_step-apart p record_to tokens = refl
token_step-apart p op_id tokens = refl
token_step-apart p target tokens = refl
token_step-apart p timeout_ms tokens = refl
token_step-apart p cancel_after_ms tokens = refl
token_step-apart p rip tokens = refl
token_step-apart p from_log tokens = refl
token_step-apart p elf tokens = refl
token_step-apart p file tokens = refl

token_step-inline :
    (p : Parsing) (flag : ValueFlag) (value : List ℕ) (tokens : List (List ℕ))
    → token_step p (flag_text flag ++ (61 ∷ value)) tokens
      ≡ option p (flag_text flag) (some value) tokens
unfolding token_step split_value split_once strip_prefix starts_with
token_step-inline p project value tokens = refl
token_step-inline p record_to value tokens = refl
token_step-inline p op_id value tokens = refl
token_step-inline p target value tokens = refl
token_step-inline p timeout_ms value tokens = refl
token_step-inline p cancel_after_ms value tokens = refl
token_step-inline p rip value tokens = refl
token_step-inline p from_log value tokens = refl
token_step-inline p elf value tokens = refl
token_step-inline p file value tokens = refl

-- The loop after a step.
onward : Step → List (List ℕ) → Result UsageError Args
onward (err e) tokens = err e
onward (ok (q, used)) tokens = parse_from used q tokens

parse_from-onward :
    (p : Parsing) (token : List ℕ) (tokens : List (List ℕ))
    → parse_from 0 p (token ∷ tokens) ≡ onward (token_step p token tokens) tokens
unfolding parse_from onward
parse_from-onward p token tokens = elim (Result-cases (token_step p token tokens)) [
  | inl ((q, used), there) ↦ rw (parse_from, there) refl
  | inr (e, there) ↦ rw (parse_from, there) refl
]

onward-shifted :
    (s : Step) (value : List ℕ) (rest : List (List ℕ))
    → onward (shifted s) (value ∷ rest) ≡ onward s rest
unfolding parse_from onward
onward-shifted (ok (p, used)) value rest = refl
onward-shifted (err e) value rest = refl

-- In every state of the loop, an option that takes a value may have it behind `=` or as the next token:
-- the rest of the command line is parsed to the same arguments, or refused with the same error.
pub parse_from-inline :
    (p : Parsing) (flag : ValueFlag) (value : List ℕ) (rest : List (List ℕ))
    → parse_from 0 p ((flag_text flag ++ (61 ∷ value)) ∷ rest)
      ≡ parse_from 0 p (flag_text flag ∷ value ∷ rest)
parse_from-inline p flag value rest =
    parse_from-onward p (flag_text flag ++ (61 ∷ value)) rest
    ∙ ap (λ s. onward s rest) (token_step-inline p flag value rest)
    ∙ sym (onward-shifted (option p (flag_text flag) (some value) rest) value rest)
    ∙ ap (λ s. onward s (value ∷ rest)) (sym (option-shifted p.args p.command flag value rest))
    ∙ ap (λ s. onward s (value ∷ rest)) (sym (token_step-apart p flag (value ∷ rest)))
    ∙ sym (parse_from-onward p (flag_text flag) (value ∷ rest))
