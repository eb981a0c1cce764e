-- ===== src/Paths/Idempotent.antt =====
-- crates/princess-core/src/config.rs `normalize`: a normalised path is normal.
use mathlib.Core.List.{append_assoc, append-nil}
use princess_ide.Prelude.{
  ℕ, ◌≡◌, refl, sym, ap, ◌∙◌, arith, Bool, true, false, List, [], ◌∷◌, ◌++◌, ◌==◌, All,
}
use princess_ide.Str.{starts_with, strip_prefix}
use princess_ide.Paths.{
  slash_parts, Component, parent_dir, normal, component, components_of, components, is_absolute,
  normalize_from, component_text, joined_by_slash, path_text, normalize,
}
use princess_ide.Paths.Canonical.{
  Plain, IsName, IsNormal, IsComponent, IsCanonical, components-IsComponent,
  normalize_from-IsCanonical,
}
use princess_ide.Paths.Cancels.{Cancels, normalize_from-Cancels}

-- Names are only appended.
normalize_from-names :
    (cs out : List Component) → All IsNormal cs → normalize_from out cs ≡ out ++ cs
unfolding normalize_from
normalize_from-names [] out h = sym (append-nil out)
normalize_from-names (parent_dir ∷ cs) out (h, hs) = absurd h
normalize_from-names (normal name ∷ cs) out (h, hs) =
    normalize_from-names cs (out ++ (normal name ∷ [])) hs ∙ append_assoc out (normal name ∷ []) cs

normalize_from-canonical : (cs : List Component) → IsCanonical cs → normalize_from [] cs ≡ cs
unfolding normalize_from
normalize_from-canonical [] h = refl
normalize_from-canonical (parent_dir ∷ cs) h = normalize_from-names cs (parent_dir ∷ []) h
normalize_from-canonical (normal name ∷ cs) (h, hs) = normalize_from-names cs (normal name ∷ []) hs

-- The text of components is taken apart into them.
slash_parts-name : (s : List ℕ) → Plain s → slash_parts s ≡ (s, [])
slash_parts-name [] h = refl
slash_parts-name (c ∷ s) (h, hs) = rw (slash_parts, h, slash_parts-name s hs) refl

slash_parts-append :
    (s t : List ℕ)
    → Plain s
    → slash_parts (s ++ (47 ∷ t)) ≡ (s, (slash_parts t).0 ∷ (slash_parts t).1)
slash_parts-append [] t h = refl
slash_parts-append (c ∷ s) t (h, hs) = rw (slash_parts, h, slash_parts-append s t hs) refl

component_text-Plain : (c : Component) → IsComponent c → Plain (component_text c)
component_text-Plain parent_dir h = (refl, (refl, tt))
component_text-Plain (normal []) h = absurd h
component_text-Plain (normal (c ∷ s)) (h, dot, dots) = h

component-component_text :
    (c : Component) (rest : List Component)
    → IsComponent c
    → component (component_text c) rest ≡ c ∷ rest
component-component_text parent_dir rest h = refl
component-component_text (normal []) rest h = absurd h
component-component_text (normal (c ∷ s)) rest (h, dot, dots) = rw (component, dot, dots) refl

components-joined :
    (cs : List Component) → All IsComponent cs → components (joined_by_slash cs) ≡ cs
unfolding components
components-joined [] h = refl
components-joined (c ∷ []) (h, hs) =
    ap (λ p. components_of (p.0 ∷ p.1))
      (slash_parts-name (component_text c) (component_text-Plain c h))
    ∙ component-component_text c [] h
components-joined (c ∷ d ∷ cs) (h, hs) =
    ap (λ p. components_of (p.0 ∷ p.1))
      (slash_parts-append (component_text c) (joined_by_slash (d ∷ cs)) (component_text-Plain c h))
    ∙ ap (component (component_text c)) (components-joined (d ∷ cs) hs)
    ∙ component-component_text c (d ∷ cs) h

components-path_text :
    (rooted : Bool) (cs : List Component)
    → All IsComponent cs
    → components (path_text rooted cs) ≡ cs
unfolding components
components-path_text true cs h = components-joined cs h
components-path_text false [] h = refl
components-path_text false (c ∷ cs) h = components-joined (c ∷ cs) h

is_absolute-Plain : (s t : List ℕ) → IsName s → is_absolute (s ++ t) ≡ false
unfolding is_absolute starts_with strip_prefix
is_absolute-Plain [] t h = absurd h
is_absolute-Plain (c ∷ s) t ((h, hs), dot, dots) =
    let other : (47 == c) ≡ false = ground (arith, h) in
    rw (is_absolute, starts_with, strip_prefix, other) refl

is_absolute-joined :
    (c : Component) (cs : List Component)
    → IsComponent c
    → is_absolute (joined_by_slash (c ∷ cs)) ≡ false
unfolding is_absolute starts_with strip_prefix
is_absolute-joined parent_dir [] h = refl
is_absolute-joined parent_dir (d ∷ cs) h = refl
is_absolute-joined (normal name) [] h =
    ap is_absolute (sym (append-nil name)) ∙ is_absolute-Plain name [] h
is_absolute-joined (normal name) (d ∷ cs) h =
    is_absolute-Plain name (47 ∷ joined_by_slash (d ∷ cs)) h

is_absolute-path_text :
    (rooted : Bool) (cs : List Component)
    → All IsComponent cs
    → is_absolute (path_text rooted cs) ≡ rooted
unfolding is_absolute starts_with strip_prefix
is_absolute-path_text true cs h = refl
is_absolute-path_text false [] h = refl
is_absolute-path_text false (c ∷ cs) (h, hs) = is_absolute-joined c cs h

normal-IsComponent : (cs : List Component) → All IsNormal cs → All IsComponent cs
normal-IsComponent [] h = tt
normal-IsComponent (parent_dir ∷ cs) (h, hs) = absurd h
normal-IsComponent (normal name ∷ cs) (h, hs) = (h, normal-IsComponent cs hs)

canonical-IsComponent : (cs : List Component) → IsCanonical cs → All IsComponent cs
canonical-IsComponent [] h = tt
canonical-IsComponent (parent_dir ∷ cs) h = (tt, normal-IsComponent cs h)
canonical-IsComponent (normal name ∷ cs) (h, hs) = (h, normal-IsComponent cs hs)

-- The path that `normalize` makes of any path is the text of what is left of its components when each
-- `..` has taken away the name before it, and two `..` at the front one another (they should stay): names
-- behind at most one `..`. It is absolute exactly when the path was, and `normalize` leaves it as it
-- is.
pub normalize-IsCanonical :
    (path : List ℕ)
    → (cs : List Component) × Cancels (components path) cs
      × IsCanonical cs
      × (normalize path ≡ path_text (is_absolute path) cs)
      × (is_absolute (normalize path) ≡ is_absolute path)
      × (normalize (normalize path) ≡ normalize path)
unfolding normalize
normalize-IsCanonical path =
    let cs = normalize_from [] (components path) in
    let good = normalize_from-IsCanonical (components path) [] (components-IsComponent path) tt in
    let parts = canonical-IsComponent cs good in
    let rooted = is_absolute-path_text (is_absolute path) cs parts in
    (
      cs,
      normalize_from-Cancels (components path) [] (components-IsComponent path) tt,
      good,
      refl,
      rooted,
      ap (λ r. path_text r (normalize_from [] (components (path_text (is_absolute path) cs))))
            rooted
          ∙ ap (λ l. path_text (is_absolute path) (normalize_from [] l))
              (components-path_text (is_absolute path) cs parts)
          ∙ ap (path_text (is_absolute path)) (normalize_from-canonical cs good),
    )
