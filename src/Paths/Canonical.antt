-- ===== src/Paths/Canonical.antt =====
-- crates/princess-core/src/config.rs `normalize`: its loop keeps the path canonical.
use princess_ide.Prelude.{ℕ, ◌≡◌, inl, inr, false, List, [], ◌∷◌, ◌++◌, ◌==◌, Bool-cases, All}
use princess_ide.Str.{codes, same_text}
use princess_ide.Paths.{
  slash_parts, Component, parent_dir, normal, component, components_of, components, pop,
  normalize_from,
}

-- A name between slashes, neither `.` nor `..`.
abbrev pub IsName : List ℕ → Type 0
IsName [] = ⊥
IsName (c ∷ s) =
    All (λ d. (d == 47) ≡ false) (c ∷ s)
    × (same_text (c ∷ s) (codes ".") ≡ false)
    × (same_text (c ∷ s) (codes "..") ≡ false)

abbrev pub IsNormal : Component → Type 0
IsNormal parent_dir = ⊥
IsNormal (normal name) = IsName name

abbrev pub IsComponent : Component → Type 0
IsComponent parent_dir = Unit {0}
IsComponent (normal name) = IsName name

-- Names, behind one `..` at most.
abbrev pub IsCanonical : List Component → Type 0
IsCanonical [] = Unit {0}
IsCanonical (parent_dir ∷ cs) = All IsNormal cs
IsCanonical (normal name ∷ cs) = IsName name × All IsNormal cs

-- The parts between slashes hold none.
abbrev pub Plain : List ℕ → Type 0
Plain s = All (λ d. (d == 47) ≡ false) s

slash_parts-Plain : (s : List ℕ) → Plain (slash_parts s).0 × All Plain (slash_parts s).1
slash_parts-Plain [] = (tt, tt)
slash_parts-Plain (c ∷ s) =
    let (part, more) = slash_parts-Plain s in
    elim (Bool-cases (c == 47)) [
      | inl slash ↦ rw slash (tt, (part, more))
      | inr other ↦ rw other ((other, part), more)
    ]

component-IsComponent :
    (part : List ℕ) (rest : List Component)
    → Plain part
    → All IsComponent rest
    → All IsComponent (component part rest)
component-IsComponent [] rest h k = k
component-IsComponent (c ∷ s) rest h k = elim (Bool-cases (same_text (c ∷ s) (codes "."))) [
  | inl dot ↦ rw dot k
  | inr no_dot ↦ elim (Bool-cases (same_text (c ∷ s) (codes ".."))) [
    | inl dots ↦ rw (no_dot, dots) (tt, k)
    | inr no_dots ↦ rw (no_dot, no_dots) ((h, no_dot, no_dots), k)
  ]
]

components_of-IsComponent :
    (parts : List (List ℕ)) → All Plain parts → All IsComponent (components_of parts)
components_of-IsComponent [] h = tt
components_of-IsComponent (part ∷ parts) (h, hs) =
    component-IsComponent part (components_of parts) h (components_of-IsComponent parts hs)

pub components-IsComponent : (path : List ℕ) → All IsComponent (components path)
unfolding components
components-IsComponent path =
    components_of-IsComponent ((slash_parts path).0 ∷ (slash_parts path).1) (slash_parts-Plain path)

-- The loop keeps the path so far canonical.
All-IsNormal-append :
    (cs : List Component) (name : List ℕ)
    → All IsNormal cs
    → IsName name
    → All IsNormal (cs ++ (normal name ∷ []))
All-IsNormal-append [] name h k = (k, tt)
All-IsNormal-append (c ∷ cs) name (h, hs) k = (h, All-IsNormal-append cs name hs k)

pub IsCanonical-append :
    (cs : List Component) (name : List ℕ)
    → IsCanonical cs
    → IsName name
    → IsCanonical (cs ++ (normal name ∷ []))
IsCanonical-append [] name h k = (k, tt)
IsCanonical-append (parent_dir ∷ cs) name h k = All-IsNormal-append cs name h k
IsCanonical-append (normal n ∷ cs) name (h, hs) k = (h, All-IsNormal-append cs name hs k)

All-IsNormal-pop : (cs : List Component) → All IsNormal cs → All IsNormal (pop cs)
All-IsNormal-pop [] h = tt
All-IsNormal-pop (c ∷ []) h = tt
All-IsNormal-pop (c ∷ d ∷ cs) (h, hs) = (h, All-IsNormal-pop (d ∷ cs) hs)

pub IsCanonical-pop : (cs : List Component) → IsCanonical cs → IsCanonical (pop cs)
IsCanonical-pop [] h = tt
IsCanonical-pop (c ∷ []) h = tt
IsCanonical-pop (parent_dir ∷ d ∷ cs) h = All-IsNormal-pop (d ∷ cs) h
IsCanonical-pop (normal n ∷ d ∷ cs) (h, hs) = (h, All-IsNormal-pop (d ∷ cs) hs)

pub normalize_from-IsCanonical :
    (cs out : List Component)
    → All IsComponent cs
    → IsCanonical out
    → IsCanonical (normalize_from out cs)
unfolding normalize_from
normalize_from-IsCanonical [] out h k = k
normalize_from-IsCanonical (normal name ∷ cs) out (h, hs) k =
    normalize_from-IsCanonical cs (out ++ (normal name ∷ [])) hs (IsCanonical-append out name k h)
normalize_from-IsCanonical (parent_dir ∷ cs) [] (h, hs) k =
    normalize_from-IsCanonical cs (parent_dir ∷ []) hs tt
normalize_from-IsCanonical (parent_dir ∷ cs) (c ∷ out) (h, hs) k =
    normalize_from-IsCanonical cs (pop (c ∷ out)) hs (IsCanonical-pop (c ∷ out) k)
