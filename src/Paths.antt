-- ===== src/Paths.antt =====
-- Paths as `std::path` takes them apart on Unix, and crates/princess-core/src/config.rs `normalize`.
use princess_ide.Prelude.{
  ℕ, Bool, true, false, not, ◌&&◌, ◌||◌, Option, none, some, List, [], ◌∷◌, ◌++◌, ◌==◌,
  if◌then◌else◌,
}
use princess_ide.Str.{codes, same_text, starts_with}
mod Tests
pub mod Canonical
pub mod Cancels
pub mod Idempotent

-- The text up to the first slash, which may be absent, and the texts after it in the same way.
abbrev pub slash_parts : List ℕ → List ℕ × List (List ℕ)
slash_parts [] = ([], [])
slash_parts (c ∷ s) =
    let (part, more) = slash_parts s in if c == 47 then ([], part ∷ more) else (c ∷ part, more)

-- `Component`, without the root, which `is_absolute` tells. A `.` that `components` gives at the front
-- of a relative path is left out, as `normalize` does.
pub data Component : Type 0 where
  parent_dir : Component
  normal : List ℕ → Component

abbrev pub component : List ℕ → List Component → List Component
component [] rest = rest
component (c ∷ s) rest =
    if same_text (c ∷ s) (codes ".")
    then rest
    else if same_text (c ∷ s) (codes "..")
    then parent_dir ∷ rest
    else normal (c ∷ s) ∷ rest

abbrev pub components_of : List (List ℕ) → List Component
components_of [] = []
components_of (part ∷ parts) = component part (components_of parts)

unfoldable pub components : List ℕ → List Component
components path = let (part, more) = slash_parts path in components_of (part ∷ more)

unfoldable pub is_absolute : List ℕ → Bool
unfolding starts_with
is_absolute path = starts_with (codes "/") path

abbrev last_component : List Component → Option Component
last_component [] = none
last_component (c ∷ []) = some c
last_component (c ∷ d ∷ rest) = last_component (d ∷ rest)

-- `Path::file_name`.
unfoldable pub file_name : List ℕ → Option (List ℕ)
unfolding components
file_name path = elim (last_component (components path)) [
  | some (normal name) ↦ some name
  | some parent_dir ↦ none
  | none ↦ none
]

-- `PathBuf::pop`, where there is something to drop.
abbrev pub pop : List Component → List Component
pop [] = []
pop (c ∷ []) = []
pop (c ∷ d ∷ rest) = c ∷ pop (d ∷ rest)

-- The loop of `normalize`: `pop` fails only where the path so far has no component.
unfoldable pub normalize_from : List Component → List Component → List Component
normalize_from out [] = out
normalize_from out (normal name ∷ rest) = normalize_from (out ++ (normal name ∷ [])) rest
normalize_from [] (parent_dir ∷ rest) = normalize_from (parent_dir ∷ []) rest
normalize_from (c ∷ out) (parent_dir ∷ rest) = normalize_from (pop (c ∷ out)) rest

abbrev pub component_text : Component → List ℕ
component_text parent_dir = codes ".."
component_text (normal name) = name

abbrev pub joined_by_slash : List Component → List ℕ
joined_by_slash [] = []
joined_by_slash (c ∷ []) = component_text c
joined_by_slash (c ∷ d ∷ rest) = component_text c ++ (47 ∷ joined_by_slash (d ∷ rest))

-- The text of a `PathBuf` into which the root and these components were pushed.
abbrev pub path_text : Bool → List Component → List ℕ
path_text true cs = 47 ∷ joined_by_slash cs
path_text false [] = codes "."
path_text false (c ∷ cs) = joined_by_slash (c ∷ cs)

unfoldable pub normalize : List ℕ → List ℕ
unfolding is_absolute normalize_from components
normalize path = path_text (is_absolute path) (normalize_from [] (components path))

abbrev ends_in_slash : List ℕ → Bool
ends_in_slash [] = true
ends_in_slash (c ∷ []) = c == 47
ends_in_slash (c ∷ d ∷ s) = ends_in_slash (d ∷ s)

-- `Path::join`; nothing is put between an empty path and another.
unfoldable pub join : List ℕ → List ℕ → List ℕ
unfolding is_absolute
join base path =
    if is_absolute path
    then path
    else if ends_in_slash base
    then base ++ path
    else base ++ (47 ∷ path)
