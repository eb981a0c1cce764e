-- ===== src/Arguments.antt =====
-- crates/princess-cli/src/args.rs: the command line. A token is a list of code points, and so is a
-- `PathBuf`. A usage error is a case for each message, with the texts that it quotes.
use princess_ide.Prelude.{
  ℕ, zero, suc, ◌^◌, Bool, true, false, not, ◌||◌, Option, none, some, List, [], ◌∷◌, ◌++◌, ltb,
  if◌then◌else◌, Result, ok, err, ◌>>=◌,
}
use princess_ide.Str.{codes, same_text, starts_with, split_once}
use princess_ide.Framing.{parse_usize}
pub mod Inline
mod Tests

pub record BuildArgs : Type 0 where
  pub targets : List (List ℕ)
  pub timeout_ms : Option ℕ

pub record RunArgs : Type 0 where
  pub timeout_ms : Option ℕ
  pub cancel_after_ms : Option ℕ
  pub no_build : Bool
  pub keep_qemu_log : Bool

pub record SymbolicateArgs : Type 0 where
  pub rip : Option (List ℕ)
  pub from_log : Option (List ℕ)
  pub elf : Option (List ℕ)

pub record EventsArgs : Type 0 where
  pub file : Option (List ℕ)

pub data Command : Type 0 where
  doctor : Command
  build : BuildArgs → Command
  run_kernel : RunArgs → Command
  symbolicate : SymbolicateArgs → Command
  events : EventsArgs → Command

pub record Args : Type 0 where
  pub command : Option Command
  pub project : List ℕ
  pub record_path : Option (List ℕ)
  pub op_id : Option (List ℕ)
  pub quiet : Bool
  pub strict : Bool
  pub help : Bool

-- `Args::default()`.
abbrev pub default_args : Args
default_args = record {
  command = none;
  project = codes ".";
  record_path = none;
  op_id = none;
  quiet = false;
  strict = false;
  help = false;
}

pub data UsageError : Type 0 where
  unexpected_argument : List ℕ → Command → UsageError
  unknown_subcommand : List ℕ → UsageError
  needs_value : List ℕ → UsageError
  not_valid_here : List ℕ → UsageError
  not_a_number : List ℕ → List ℕ → UsageError
  unknown_option : List ℕ → UsageError

-- `args` has no command until the end; the command so far is the other variable of the loop.
pub record Parsing : Type 0 where
  pub args : Args
  pub command : Option Command

abbrev new_build : Command
new_build = build (record { targets = []; timeout_ms = none })

abbrev new_run : Command
new_run =
    run_kernel (record {
      timeout_ms = none;
      cancel_after_ms = none;
      no_build = false;
      keep_qemu_log = false;
    })

abbrev new_symbolicate : Command
new_symbolicate = symbolicate (record { rip = none; from_log = none; elf = none })

unfoldable pub subcommand : List ℕ → Result UsageError Command
subcommand token =
    if same_text token (codes "doctor")
    then ok doctor
    else if same_text token (codes "build")
    then ok new_build
    else if same_text token (codes "run")
    then ok new_run
    else if same_text token (codes "symbolicate")
    then ok new_symbolicate
    else if same_text token (codes "events")
    then ok (events (record { file = none }))
    else err (unknown_subcommand token)

unfoldable pub split_value : List ℕ → List ℕ × Option (List ℕ)
unfolding split_once
split_value token = elim (split_once (codes "=") token) [
  | some (flag, value) ↦ (flag, some value)
  | none ↦ (token, none)
]

-- `value!()`: the value, and the tokens after the flag that it takes.
unfoldable pub value_of : List ℕ → Option (List ℕ) → List (List ℕ) → Result UsageError (List ℕ × ℕ)
value_of flag (some value) tokens = ok (value, 0)
value_of flag none [] = err (needs_value flag)
value_of flag none (value ∷ tokens) = ok (value, 1)

-- The state after an option, and the tokens after it that are its value.
abbrev pub Step : Type 0
Step = Result UsageError (Parsing × ℕ)

abbrev with_args : Parsing → Args → Parsing
with_args p args = record p { args = args }

abbrev with_command : Parsing → Command → Parsing
with_command p command = record p { command = some command }

unfoldable pub set_target : Parsing → List ℕ → Option (List ℕ) → List (List ℕ) → Step
unfolding value_of
set_target p flag inline tokens = elim p.command [
  | some (build b) ↦ value_of flag inline tokens >>= λ v.
      ok (with_command p (build (record b { targets = b.targets ++ (v.0 ∷ []) })), v.1)
  | _ ↦ err (not_valid_here flag)
]

abbrev pub parsed_number : List ℕ → List ℕ × ℕ → Result UsageError (ℕ × ℕ)
parsed_number flag (raw, used) = elim (parse_usize raw) [
  | none ↦ err (not_a_number flag raw)
  | some n ↦ ok (n, used)
]

abbrev pub timeout_step : Parsing → List ℕ → ℕ × ℕ → Step
timeout_step p flag (n, used) = elim p.command [
  | some (build b) ↦ ok (with_command p (build (record b { timeout_ms = some n })), used)
  | some (run_kernel r) ↦ ok (with_command p (run_kernel (record r { timeout_ms = some n })), used)
  | _ ↦ err (not_valid_here flag)
]

unfoldable pub set_timeout : Parsing → List ℕ → Option (List ℕ) → List (List ℕ) → Step
unfolding value_of parse_usize
set_timeout p flag inline tokens =
    value_of flag inline tokens >>= parsed_number flag >>= timeout_step p flag

abbrev pub cancel_step : Parsing → List ℕ → ℕ × ℕ → Step
cancel_step p flag (n, used) = elim p.command [
  | some (run_kernel r) ↦
      ok (with_command p (run_kernel (record r { cancel_after_ms = some n })), used)
  | _ ↦ err (not_valid_here flag)
]

unfoldable pub set_cancel : Parsing → List ℕ → Option (List ℕ) → List (List ℕ) → Step
unfolding value_of parse_usize
set_cancel p flag inline tokens =
    value_of flag inline tokens >>= parsed_number flag >>= cancel_step p flag

-- The two switches of `run`.
unfoldable pub set_run : (RunArgs → RunArgs) → Parsing → List ℕ → Step
set_run f p flag = elim p.command [
  | some (run_kernel r) ↦ ok (with_command p (run_kernel (f r)), 0)
  | _ ↦ err (not_valid_here flag)
]

-- The three options of `symbolicate`.
unfoldable pub set_symbolicate :
    (SymbolicateArgs → List ℕ → SymbolicateArgs)
    → Parsing
    → List ℕ
    → Option (List ℕ)
    → List (List ℕ)
    → Step
unfolding value_of
set_symbolicate f p flag inline tokens = elim p.command [
  | some (symbolicate s) ↦
      value_of flag inline tokens >>= λ v. ok (with_command p (symbolicate (f s v.0)), v.1)
  | _ ↦ err (not_valid_here flag)
]

unfoldable pub set_file : Parsing → List ℕ → Option (List ℕ) → List (List ℕ) → Step
unfolding value_of
set_file p flag inline tokens = elim p.command [
  | some (events e) ↦ value_of flag inline tokens >>= λ v.
      ok (with_command p (events (record e { file = some v.0 })), v.1)
  | _ ↦ err (not_valid_here flag)
]

-- The options that every command takes.
unfoldable pub set_common :
    (Args → List ℕ → Args) → Parsing → List ℕ → Option (List ℕ) → List (List ℕ) → Step
unfolding value_of
set_common f p flag inline tokens =
    value_of flag inline tokens >>= λ v. ok (with_args p (f p.args v.0), v.1)

-- `match flag.as_str()`.
unfoldable pub option : Parsing → List ℕ → Option (List ℕ) → List (List ℕ) → Step
unfolding set_target set_timeout set_cancel set_run set_symbolicate set_file set_common
option p flag inline tokens =
    if same_text flag (codes "--project")
    then set_common (λ a v. record a { project = v }) p flag inline tokens
    else if same_text flag (codes "--record")
    then set_common (λ a v. record a { record_path = some v }) p flag inline tokens
    else if same_text flag (codes "--op-id")
    then set_common (λ a v. record a { op_id = some v }) p flag inline tokens
    else if same_text flag (codes "--quiet")
    then ok (with_args p (record p.args { quiet = true }), 0)
    else if same_text flag (codes "--strict")
    then ok (with_args p (record p.args { strict = true }), 0)
    else if same_text flag (codes "--target")
    then set_target p flag inline tokens
    else if same_text flag (codes "--timeout-ms")
    then set_timeout p flag inline tokens
    else if same_text flag (codes "--cancel-after-ms")
    then set_cancel p flag inline tokens
    else if same_text flag (codes "--no-build")
    then set_run (λ r. record r { no_build = true }) p flag
    else if same_text flag (codes "--keep-qemu-log")
    then set_run (λ r. record r { keep_qemu_log = true }) p flag
    else if same_text flag (codes "--rip")
    then set_symbolicate (λ s v. record s { rip = some v }) p flag inline tokens
    else if same_text flag (codes "--from-log")
    then set_symbolicate (λ s v. record s { from_log = some v }) p flag inline tokens
    else if same_text flag (codes "--elf")
    then set_symbolicate (λ s v. record s { elf = some v }) p flag inline tokens
    else if same_text flag (codes "--file")
    then set_file p flag inline tokens
    else err (unknown_option flag)

abbrev begin_command : Parsing → List ℕ → Step
begin_command p token = elim p.command [
  | some command ↦ err (unexpected_argument token command)
  | none ↦ subcommand token >>= λ command. ok (with_command p command, 0)
]

-- One turn of the loop.
unfoldable pub token_step : Parsing → List ℕ → List (List ℕ) → Step
unfolding subcommand split_value starts_with option
token_step p token tokens =
    if same_text token (codes "-h") || same_text token (codes "--help")
    then ok (with_args p (record p.args { help = true }), 0)
    else if not (starts_with (codes "-") token)
    then begin_command p token
    else let (flag, inline) = split_value token in option p flag inline tokens

-- The loop, with the tokens that belong to the option before.
unfoldable pub parse_from : ℕ → Parsing → List (List ℕ) → Result UsageError Args
unfolding token_step
parse_from skip p [] = ok (record p.args { command = p.command })
parse_from (suc skip) p (token ∷ tokens) = parse_from skip p tokens
parse_from zero p (token ∷ tokens) = elim (token_step p token tokens) [
  | err e ↦ err e
  | ok (q, used) ↦ parse_from used q tokens
]

unfoldable pub parse : List (List ℕ) → Result UsageError Args
unfolding parse_from
parse argv = parse_from 0 (record { args = default_args; command = none }) argv
