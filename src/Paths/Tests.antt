-- ===== src/Paths/Tests.antt =====
-- Paths of a project, and a relative path that leaves two directories.
use princess_ide.Prelude.{◌≡◌, refl, List}
use princess_ide.Str.{codes, starts_with, strip_prefix}
use princess_ide.Paths.{Component, components, is_absolute, normalize_from, path_text, normalize}
use princess_ide.Paths.Canonical.{IsCanonical}
use princess_ide.Paths.Cancels.{Cancels}
use princess_ide.Paths.Idempotent.{normalize-IsCanonical}

normalize-IsCanonical_example :
    (cs : List Component) × Cancels (components (codes "/work/./src//../kernel.c")) cs
    × IsCanonical cs
    × (normalize (codes "/work/./src//../kernel.c")
        ≡ path_text (is_absolute (codes "/work/./src//../kernel.c")) cs)
    × (is_absolute (normalize (codes "/work/./src//../kernel.c"))
        ≡ is_absolute (codes "/work/./src//../kernel.c"))
    × (normalize (normalize (codes "/work/./src//../kernel.c"))
        ≡ normalize (codes "/work/./src//../kernel.c"))
normalize-IsCanonical_example = normalize-IsCanonical (codes "/work/./src//../kernel.c")

inside : normalize (codes "/work/./src//../kernel.c") ≡ codes "/work/kernel.c"
unfolding normalize components normalize_from is_absolute starts_with strip_prefix
inside = refl

-- The second `..` takes the first one away.
two_up : normalize (codes "../../kernel.c") ≡ codes "kernel.c"
unfolding normalize components normalize_from is_absolute starts_with strip_prefix
two_up = refl
