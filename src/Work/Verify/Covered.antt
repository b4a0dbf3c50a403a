-- ===== src/Work/Verify/Covered.antt =====
-- When the paths of a subgoal are affected and its dependencies complete, apart from the code's
-- tests.
use aether_fx.Base.{
  ◌&&◌, Bool, true, false, List, [], ◌∷◌, map, any, all, All, bytes_eq, ◌↔◌, filter, Bytes,
  bytes_eq_iff, Bool-cases, ◌≡◌, refl, ◌⊎◌, inl, inr, arith,
}
use aether_fx.BoundedText.{BoundedText}
use aether_fx.Work.{WorkSubgoal}
use aether_fx.Work.Dependencies.{Done, dependencies_complete_iff}
use aether_fx.Work.Verify.{is_covered, has_paths}

pub any-map-filter :
    {A B : Type 0} (q : B → Bool) (f : A → B) (p : A → Bool) (xs : List A)
    → any q (map f (filter p xs)) ≡ any (λ x. p x && q (f x)) xs
any-map-filter q f p [] = refl
any-map-filter q f p (x ∷ xs) = ground (arith, any-map-filter q f p xs)

abbrev pub In : {A : Type 0} → A → List A → Type 0
In x [] = ⊥
In x (y ∷ ys) = (y ≡ x) ⊎ In x ys

pub any-In :
    {A : Type 0} (p : A → Bool) (xs : List A) → any p xs ≡ true → (x : A) × In x xs × (p x ≡ true)
any-In p [] h = absurd (ground (arith, h))
any-In p (x ∷ xs) h = elim (Bool-cases (p x)) [
  | inl e ↦ (x, inl refl, e)
  | inr e ↦ let (y, i, t) = any-In p xs (ground (arith, h, e)) in (y, inr i, t)
]

-- The subgoal has paths, all of them affected, and each of its dependencies is complete.
abbrev pub Covered : List Bytes → List WorkSubgoal → WorkSubgoal → Type 0
Covered affected gs h =
    (¬ (h.paths ≡ [])) × All (λ path. In path.text affected) h.paths × All (Done gs) h.depends_on

-- Some subgoal with this identifier is covered.
abbrev pub CoveredId : List Bytes → List WorkSubgoal → BoundedText → Type 0
CoveredId affected gs id = (h : WorkSubgoal) × In h gs × (h.id ≡ id) × Covered affected gs h

affected-In :
    (affected : List Bytes) (p : Bytes) → any (λ a. bytes_eq a p) affected ≡ true → In p affected
affected-In [] p h = absurd (ground (arith, h))
affected-In (a ∷ affected) p h = elim (Bool-cases (bytes_eq a p)) [
  | inl e ↦ inl ((bytes_eq_iff a p).0 e)
  | inr e ↦ inr (affected-In affected p (ground (arith, h, e)))
]

paths-In :
    (affected : List Bytes) (paths : List BoundedText)
    → all (λ path. any (λ a. bytes_eq a path.text) affected) paths ≡ true
    → All (λ path. In path.text affected) paths
paths-In affected [] h = tt
paths-In affected (p ∷ paths) h =
    (affected-In affected p.text (ground (arith, h)), paths-In affected paths (ground (arith, h)))

list_cases : {A : Type 0} (xs : List A) → (xs ≡ []) ⊎ ((y : A) × (ys : List A) × (xs ≡ y ∷ ys))
list_cases [] = inl refl
list_cases (x ∷ xs) = inr (x, xs, refl)

has_paths_iff : (g : WorkSubgoal) → (has_paths g ≡ true) ↔ (¬ (g.paths ≡ []))
has_paths_iff g = paths_iff g.paths
  where
    paths_iff :
        (ps : List BoundedText) → (elim ps [ [] ↦ false | _ ∷ _ ↦ true ] ≡ true) ↔ (¬ (ps ≡ []))
    paths_iff [] = (λ h. absurd (cc), λ h. absurd (h refl))
    paths_iff (p ∷ ps) = (λ h. λ e. absurd (cc), λ h. refl)

pub no_paths : (g : WorkSubgoal) → has_paths g ≡ false → g.paths ≡ []
no_paths g h = elim (list_cases g.paths) [
  | inl e ↦ e
  | inr (p, ps, e) ↦ absurd (ground (arith, h, e))
]

pub is_covered-Covered :
    (affected : List Bytes) (gs : List WorkSubgoal) (h : WorkSubgoal)
    → is_covered affected gs h ≡ true
    → Covered affected gs h
unfolding is_covered
is_covered-Covered affected gs h e = (
  (has_paths_iff h).0 (ground (arith, e)),
  paths-In affected h.paths (ground (arith, e)),
  (dependencies_complete_iff gs h).0 (ground (arith, e)),
)
