-- ===== src/Diagnostics/Tests.antt =====
-- Lines of a build.
use princess_ide.Prelude.{ℕ, ◌≡◌, refl, arith, none, some, List, [], ◌∷◌}
use princess_ide.Str.{codes, is_whitespace, trim}
use princess_ide.Diagnostics.{error, from_gcc, gcc, parse_colon_form, classify_source}
use princess_ide.Diagnostics.Parser.{ParsedDiagnostic, dedup}
use princess_ide.Diagnostics.Marked.{
  plain_error, location_text, marked_line, parse_colon_form-marked_line,
}
use princess_ide.Diagnostics.Distinct.{Among, NoDouble, Sublist, dedup-NoDouble}

parse_colon_form-marked_line_example :
    parse_colon_form
      (marked_line (location_text (codes "kernel.c") 7 15) plain_error (codes " expected ';'"))
      gcc
    ≡ some (record {
      severity = error;
      file = some (trim (codes "kernel.c"));
      line = some 7;
      col = some 15;
      message = trim (codes " expected ';'");
      source =
          classify_source
            (trim (codes " expected ';'"))
            (marked_line
              (location_text (codes "kernel.c") 7 15)
              plain_error
              (codes " expected ';'"))
            gcc;
    })
unfolding trim is_whitespace
parse_colon_form-marked_line_example =
    parse_colon_form-marked_line (codes "kernel.c") 7 15 plain_error (codes " expected ';'") gcc
      (refl, (refl, (refl, (refl, (refl, (refl, (refl, tt))))))) refl refl (omega arith)
      (omega arith)

abbrev at_line : ℕ → ParsedDiagnostic
at_line n = record {
  severity = error;
  file = some (codes "/work/kernel.c");
  line = some n;
  col = none;
  message = codes "unknown type";
  source = from_gcc;
}

abbrev three : List ParsedDiagnostic
three = at_line 7 ∷ at_line 9 ∷ at_line 7 ∷ []

dedup-NoDouble_example :
    Sublist (dedup three) three
    × NoDouble (dedup three)
    × ((d : ParsedDiagnostic) → Among d three → Among d (dedup three))
dedup-NoDouble_example = dedup-NoDouble three
