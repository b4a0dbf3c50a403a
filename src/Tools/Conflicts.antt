-- ===== src/Tools/Conflicts.antt =====
-- Conflicts between footprints: symmetry, and when two paths overlap.
use aether_fx.Base.{
  Bool, true, false, ◌||◌, List, [], ◌∷◌, ◌++◌, any, ◌≡◌, refl, sym, ap, ◌∙◌, ◌↔◌, ◌⊎◌, inl, inr,
  arith, ==_iff, Bool-cases, eq_of_iff,
}
use mathlib.Core.Path.{fun_ext}
use mathlib.Core.List.{append-nil}
use aether_fx.WorkspacePath.{Component, components, starts_with}
use aether_fx.WorkspacePath.Components.{component_eq_iff, rest_of_starts_with, starts_with-append}
use aether_fx.Tools.{
  ToolResource, ToolEffect, ToolFootprint, workspace_path, workspace, process, browser_session,
  global, read, write, exclusive, components_eq, paths_overlap, effect_parts, resources_overlap,
  effects_conflict, conflicts,
}

components_eq_iff : (cs ds : List Component) → (components_eq cs ds ≡ true) ↔ (cs ≡ ds)
unfolding components_eq
components_eq_iff [] [] = ground arith
components_eq_iff [] (d ∷ ds) = ground arith
components_eq_iff (c ∷ cs) [] = ground arith
components_eq_iff (c ∷ cs) (d ∷ ds) = ground (arith, component_eq_iff c d, components_eq_iff cs ds)

-- Some element of the list.
abbrev pub Some : {A : Type 0} → (A → Type 0) → List A → Type 0
Some P [] = ⊥
Some P (x ∷ xs) = P x ⊎ Some P xs

pub any_iff :
    {A : Type 0} (p : A → Bool) (P : A → Type 0)
    → ((x : A) → (p x ≡ true) ↔ P x)
    → (xs : List A) → (any p xs ≡ true) ↔ Some P xs
any_iff p P h [] = ground arith
any_iff p P h (x ∷ xs) = ground (arith, h x, any_iff p P h xs)

-- One path lies at or below another.
abbrev pub Below : List Component → List Component → Type 0
Below cs ds = (rest : List Component) × (cs ≡ ds ++ rest)

starts_with-Below : (cs ds : List Component) → Below cs ds → starts_with cs ds ≡ true
starts_with-Below cs ds (rest, e) = rw e (starts_with-append ds rest)

paths_overlap-Below :
    (cs ds : List Component) → paths_overlap cs ds ≡ true → Below cs ds ⊎ Below ds cs
paths_overlap-Below cs ds h = elim (Bool-cases (starts_with cs ds)) [
  | inl e ↦ inl (rest_of_starts_with cs ds e)
  | inr e ↦ elim (Bool-cases (starts_with ds cs)) [
    | inl f ↦ inr (rest_of_starts_with ds cs f)
    | inr f ↦ inl ([], (components_eq_iff cs ds).0 (ground arith) ∙ sym (append-nil ds))
  ]
]

Below-paths_overlap :
    (cs ds : List Component) → Below cs ds ⊎ Below ds cs → paths_overlap cs ds ≡ true
Below-paths_overlap cs ds (inl b) = ground (arith, starts_with-Below cs ds b)
Below-paths_overlap cs ds (inr b) = ground (arith, starts_with-Below ds cs b)

swapped : {A B : Type 0} → A ⊎ B → B ⊎ A
swapped (inl a) = inr a
swapped (inr b) = inl b

paths_overlap_comm : (cs ds : List Component) → paths_overlap cs ds ≡ paths_overlap ds cs
paths_overlap_comm cs ds =
    eq_of_iff _ _ (λ h. Below-paths_overlap ds cs (swapped (paths_overlap-Below cs ds h)))
      (λ h. Below-paths_overlap cs ds (swapped (paths_overlap-Below ds cs h)))

resources_overlap_comm : (a b : ToolResource) → resources_overlap a b ≡ resources_overlap b a
unfolding resources_overlap
resources_overlap_comm (workspace_path p) (workspace_path q) =
    paths_overlap_comm (components p) (components q)
resources_overlap_comm (process a) (process b) = ground arith
resources_overlap_comm (browser_session a) (browser_session b) = ground arith
resources_overlap_comm global b = ground arith
resources_overlap_comm workspace b = ground arith
resources_overlap_comm (workspace_path p) _ = refl
resources_overlap_comm (process a) _ = refl
resources_overlap_comm (browser_session a) _ = refl

effects_conflict_comm : (a b : ToolEffect) → effects_conflict a b ≡ effects_conflict b a
unfolding effects_conflict
effects_conflict_comm a b =
    ground (arith, resources_overlap_comm (effect_parts a).0 (effect_parts b).0)

any-or :
    {A : Type 0} (p q : A → Bool) (xs : List A) → any (λ x. p x || q x) xs ≡ (any p xs || any q xs)
any-or p q [] = refl
any-or p q (x ∷ xs) = ground (arith, any-or p q xs)

any-false : {A : Type 0} (xs : List A) → any (λ x. false) xs ≡ false
any-false [] = refl
any-false (x ∷ xs) = any-false xs

any_swap :
    {A B : Type 0} (f : A → B → Bool) (xs : List A) (ys : List B)
    → any (λ x. any (λ y. f x y) ys) xs ≡ any (λ y. any (λ x. f x y) xs) ys
any_swap f [] ys = sym (any-false ys)
any_swap f (x ∷ xs) ys =
    ap (λ b. any (f x) ys || b) (any_swap f xs ys)
    ∙ sym (any-or (f x) (λ y. any (λ z. f z y) xs) ys)

-- Two footprints conflict whichever of the two calls is looked at first.
conflicts_comm : (a b : ToolFootprint) → conflicts a b ≡ conflicts b a
unfolding conflicts
conflicts_comm a b = ground (
  arith,
  any_swap effects_conflict a.effects b.effects,
  ap (λ f. any (λ r. any (λ l. f l r) a.effects) b.effects)
      (fun_ext (λ l. fun_ext (λ r. effects_conflict_comm l r))),
)

-- What the effect is on.
abbrev pub target : ToolEffect → ToolResource
target (read resource) = resource
target (write resource) = resource
target (exclusive resource) = resource

abbrev pub Mutates : ToolEffect → Type 0
Mutates (read resource) = ⊥
Mutates (write resource) = Unit
Mutates (exclusive resource) = Unit

-- Two resources have something in common: everything meets the global resource and the workspace,
-- and of two paths one lies at or below the other, component by component.
abbrev pub Meets : ToolResource → ToolResource → Type 0
Meets global _ = Unit
Meets _ global = Unit
Meets workspace _ = Unit
Meets _ workspace = Unit
Meets (workspace_path p) (workspace_path q) =
    Below (components p) (components q) ⊎ Below (components q) (components p)
Meets (process a) (process b) = a ≡ b
Meets (browser_session a) (browser_session b) = a ≡ b
Meets _ _ = ⊥

pub resources_overlap_iff : (a b : ToolResource) → (resources_overlap a b ≡ true) ↔ Meets a b
unfolding resources_overlap
resources_overlap_iff (workspace_path p) (workspace_path q) = (
  paths_overlap-Below (components p) (components q),
  Below-paths_overlap (components p) (components q),
)
resources_overlap_iff (workspace_path p) workspace = ground arith
resources_overlap_iff (workspace_path p) (process b) = ground arith
resources_overlap_iff (workspace_path p) (browser_session b) = ground arith
resources_overlap_iff (workspace_path p) global = ground arith
resources_overlap_iff (process a) (workspace_path q) = ground arith
resources_overlap_iff (process a) workspace = ground arith
resources_overlap_iff (process a) (process b) = ==_iff a b
resources_overlap_iff (process a) (browser_session b) = ground arith
resources_overlap_iff (process a) global = ground arith
resources_overlap_iff (browser_session a) (workspace_path q) = ground arith
resources_overlap_iff (browser_session a) workspace = ground arith
resources_overlap_iff (browser_session a) (process b) = ground arith
resources_overlap_iff (browser_session a) (browser_session b) = ==_iff a b
resources_overlap_iff (browser_session a) global = ground arith
resources_overlap_iff global b = ground arith
resources_overlap_iff workspace global = ground arith
resources_overlap_iff workspace workspace = ground arith
resources_overlap_iff workspace (workspace_path q) = ground arith
resources_overlap_iff workspace (process b) = ground arith
resources_overlap_iff workspace (browser_session b) = ground arith

-- Two effects that meet, of which one writes.
abbrev pub Clash : ToolEffect → ToolEffect → Type 0
Clash left right = Meets (target left) (target right) × (Mutates left ⊎ Mutates right)

effects_conflict_iff : (l r : ToolEffect) → (effects_conflict l r ≡ true) ↔ Clash l r
unfolding effects_conflict
effects_conflict_iff (read a) (read b) = ground arith
effects_conflict_iff (read a) (write b) = ground (arith, resources_overlap_iff a b)
effects_conflict_iff (read a) (exclusive b) = ground (arith, resources_overlap_iff a b)
effects_conflict_iff (write a) (read b) = ground (arith, resources_overlap_iff a b)
effects_conflict_iff (write a) (write b) = ground (arith, resources_overlap_iff a b)
effects_conflict_iff (write a) (exclusive b) = ground (arith, resources_overlap_iff a b)
effects_conflict_iff (exclusive a) (read b) = ground (arith, resources_overlap_iff a b)
effects_conflict_iff (exclusive a) (write b) = ground (arith, resources_overlap_iff a b)
effects_conflict_iff (exclusive a) (exclusive b) = ground (arith, resources_overlap_iff a b)

-- Two footprints conflict exactly when what one of them touches is unknown, or an effect of the one
-- and an effect of the other meet and at least one of the two writes. Two paths meet when one lies
-- at or below the other component by component: `.` does not meet `src/a.rs`.
pub conflicts_iff :
    (a b : ToolFootprint)
    → (conflicts a b ≡ true) ↔ (
        (a.unknown ≡ true)
        ⊎ ((b.unknown ≡ true) ⊎ Some (λ l. Some (λ r. Clash l r) b.effects) a.effects))
unfolding conflicts
conflicts_iff a b =
    let some_clash =
      any_iff (λ l. any (λ r. effects_conflict l r) b.effects)
        (λ l. Some (λ r. Clash l r) b.effects)
        (λ l. any_iff (effects_conflict l) (Clash l) (λ r. effects_conflict_iff l r) b.effects)
        a.effects in
    ground (arith, some_clash)
