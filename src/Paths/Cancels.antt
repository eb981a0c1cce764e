-- ===== src/Paths/Cancels.antt =====
-- crates/princess-core/src/config.rs `normalize`: what becomes of each `..`.
use mathlib.Core.Path.{subst}
use mathlib.Core.List.{append_assoc, append-nil}
use princess_ide.Prelude.{ℕ, ◌≡◌, refl, sym, ap, ◌∙◌, List, [], ◌∷◌, ◌++◌, All}
use princess_ide.Paths.{Component, parent_dir, normal, pop, normalize_from}
use princess_ide.Paths.Canonical.{
  IsNormal, IsComponent, IsCanonical, IsCanonical-append, IsCanonical-pop,
}

-- Where a name is followed by `..` the two go, names before the first `..` untouched; a path that begins
-- with two `..` loses both. `Cancels cs r`: that takes `cs` to `r`, in some number of steps.
pub data Cancels : List Component → List Component → Type 0 where
  done : {cs : List Component} → Cancels cs cs
  name_up :
      {cs r : List Component} (before after : List Component) (name : List ℕ)
      → IsCanonical before
      → cs ≡ before ++ (normal name ∷ parent_dir ∷ after)
      → Cancels (before ++ after) r
      → Cancels cs r
  up_up :
      {r : List Component} (after : List Component)
      → Cancels after r
      → Cancels (parent_dir ∷ parent_dir ∷ after) r

-- The last of some components, where the path so far is canonical: what `pop` drops.
data Popped : List Component → Type 0 where
  alone_up : Popped (parent_dir ∷ [])
  a_name : {out : List Component} (name : List ℕ) → out ≡ pop out ++ (normal name ∷ []) → Popped out

Popped-cons :
    (d c : Component) (out : List Component)
    → All IsNormal (c ∷ out)
    → Popped (c ∷ out)
    → Popped (d ∷ c ∷ out)
Popped-cons d parent_dir [] h alone_up = absurd h.0
Popped-cons d c out h (a_name name e) = a_name name (ap (λ l. d ∷ l) e)

Popped-names : (c : Component) (out : List Component) → All IsNormal (c ∷ out) → Popped (c ∷ out)
Popped-names parent_dir out h = absurd h.0
Popped-names (normal name) [] h = a_name name refl
Popped-names (normal name) (d ∷ out) (h, hs) =
    Popped-cons (normal name) d out hs (Popped-names d out hs)

canonical-Popped : (c : Component) (out : List Component) → IsCanonical (c ∷ out) → Popped (c ∷ out)
canonical-Popped parent_dir [] h = alone_up
canonical-Popped parent_dir (d ∷ out) h = Popped-cons parent_dir d out h (Popped-names d out h)
canonical-Popped (normal name) out h = Popped-names (normal name) out h

-- One `..` behind a canonical path.
Cancels-up :
    (c : Component) (out cs r : List Component)
    → IsCanonical (c ∷ out)
    → Popped (c ∷ out)
    → Cancels (pop (c ∷ out) ++ cs) r
    → Cancels ((c ∷ out) ++ (parent_dir ∷ cs)) r
Cancels-up parent_dir [] cs r k alone_up go = up_up cs go
Cancels-up c out cs r k (a_name name e) go =
    name_up (pop (c ∷ out)) cs name (IsCanonical-pop (c ∷ out) k)
      (ap (λ l. l ++ (parent_dir ∷ cs)) e
        ∙ append_assoc (pop (c ∷ out)) (normal name ∷ []) (parent_dir ∷ cs))
      go

pub normalize_from-Cancels :
    (cs out : List Component)
    → All IsComponent cs
    → IsCanonical out
    → Cancels (out ++ cs) (normalize_from out cs)
unfolding normalize_from
normalize_from-Cancels [] out h k = subst (λ l. Cancels l out) (sym (append-nil out)) done
normalize_from-Cancels (normal name ∷ cs) out (h, hs) k =
    subst (λ l. Cancels l (normalize_from (out ++ (normal name ∷ [])) cs))
      (append_assoc out (normal name ∷ []) cs)
      (normalize_from-Cancels cs (out ++ (normal name ∷ [])) hs (IsCanonical-append out name k h))
normalize_from-Cancels (parent_dir ∷ cs) [] (h, hs) k =
    normalize_from-Cancels cs (parent_dir ∷ []) hs tt
normalize_from-Cancels (parent_dir ∷ cs) (c ∷ out) (h, hs) k =
    Cancels-up c out cs (normalize_from (pop (c ∷ out)) cs) k (canonical-Popped c out k)
      (normalize_from-Cancels cs (pop (c ∷ out)) hs (IsCanonical-pop (c ∷ out) k))
