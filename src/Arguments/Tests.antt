-- ===== src/Arguments/Tests.antt =====
-- Command lines.
use princess_ide.Prelude.{◌≡◌, refl, true, none, some, [], ◌∷◌, ◌++◌, ok, err}
use princess_ide.Str.{codes, starts_with, strip_prefix, split_once}
use princess_ide.Framing.{parse_usize, from_decimal}
use princess_ide.Arguments.{
  default_args, build, Parsing, not_valid_here, parse, parse_from, token_step, option, split_value,
  value_of, subcommand, set_target, set_timeout, set_cancel, set_run, set_symbolicate, set_file,
  set_common,
}
use princess_ide.Arguments.Inline.{timeout_ms, flag_text, parse_from-inline}

abbrev in_build : Parsing
in_build = record {
  args = default_args;
  command = some (build (record { targets = []; timeout_ms = none }));
}

parse_from-inline_example :
    parse_from 0 in_build ((flag_text timeout_ms ++ (61 ∷ codes "500")) ∷ codes "--quiet" ∷ [])
    ≡ parse_from 0 in_build (flag_text timeout_ms ∷ codes "500" ∷ codes "--quiet" ∷ [])
parse_from-inline_example =
    parse_from-inline in_build timeout_ms (codes "500") (codes "--quiet" ∷ [])

quiet_build :
    parse (codes "build" ∷ codes "--timeout-ms=500" ∷ codes "--quiet" ∷ [])
    ≡ ok (record default_args {
      command = some (build (record { targets = []; timeout_ms = some 500 }));
      quiet = true;
    })
unfolding parse parse_from token_step option split_value value_of subcommand set_target set_timeout
    set_cancel set_run set_symbolicate set_file set_common starts_with strip_prefix split_once
    parse_usize from_decimal
quiet_build = refl

-- An option of a command in front of the command.
too_early :
    parse (codes "--target" ∷ codes "all" ∷ codes "build" ∷ [])
    ≡ err (not_valid_here (codes "--target"))
unfolding parse parse_from token_step option split_value value_of subcommand set_target set_timeout
    set_cancel set_run set_symbolicate set_file set_common starts_with strip_prefix split_once
too_early = refl
