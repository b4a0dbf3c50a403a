-- ===== src/Work/Active.antt =====
-- Which subgoal `select_active_subgoal` makes active.
use aether_fx.Base.{
  Bool, true, false, none, some, List, [], ◌∷◌, ◌++◌, find, modify_first, All, Bool-cases, ◌≡◌, ◌∙◌,
  refl, ap, subst, ◌⊎◌, inl, inr,
}
use aether_fx.BoundedText.{text_eq, text_eq_iff}
use aether_fx.Work.{
  WorkState, WorkSubgoal, WorkStatus, with_status, activate, id_of, is_ready, select_active_subgoal,
}
use aether_fx.Work.Dependencies.{Ready, is_ready_iff, is_ready-not}

-- No subgoal has the identifier of an earlier one.
abbrev pub Distinct : List WorkSubgoal → Type 0
Distinct [] = Unit
Distinct (g ∷ gs) = All (λ h. text_eq g.id h.id ≡ false) gs × Distinct gs

-- The first element that passes the test, between those before it, which fail, and the rest.
abbrev FirstOf : {A : Type 0} → (A → Bool) → List A → A → Type 0
FirstOf {A} p xs x =
    (before : List A) × (after : List A) × (xs ≡ before ++ x ∷ after)
    × All (λ y. p y ≡ false) before
    × (p x ≡ true)

found_first :
    {A : Type 0} (p : A → Bool) (xs : List A)
    → ((find p xs ≡ none) × All (λ y. p y ≡ false) xs)
      ⊎ ((x : A) × (find p xs ≡ some x) × FirstOf p xs x)
found_first p [] = inl (refl, tt)
found_first p (x ∷ xs) = elim (Bool-cases (p x)) [
  | inl e ↦ inr (x, rw e refl, ([], xs, refl, tt, e))
  | inr e ↦ elim (found_first p xs) [
    | inl (n, a) ↦ inl (rw e n, (e, a))
    | inr (y, f, (before, after, s, a, t)) ↦
        inr (y, rw e f, (x ∷ before, after, ap (◌∷◌ x) s, (e, a), t))
  ]
]

modify_first-skip :
    {A : Type 0} (p : A → Bool) (f : A → A) (before : List A) (x : A) (after : List A)
    → All (λ y. p y ≡ false) before
    → p x ≡ true
    → modify_first p f (before ++ x ∷ after) ≡ before ++ f x ∷ after
modify_first-skip p f [] x after a t = rw t refl
modify_first-skip p f (y ∷ before) x after a t =
    rw (a.0) (ap (◌∷◌ y) (modify_first-skip p f before x after a.1 t))

All-last :
    {A : Type 0} (P : A → Type 0) (before : List A) (x : A) (after : List A)
    → All P (before ++ x ∷ after)
    → P x
All-last P [] x after a = a.0
All-last P (y ∷ before) x after a = All-last P before x after a.1

Distinct-before :
    (before : List WorkSubgoal) (g : WorkSubgoal) (after : List WorkSubgoal)
    → Distinct (before ++ g ∷ after)
    → All (λ h. text_eq h.id g.id ≡ false) before
Distinct-before [] g after d = tt
Distinct-before (h ∷ before) g after d = (
  All-last (λ x. text_eq h.id x.id ≡ false) before g after d.0,
  Distinct-before before g after d.1,
)

All-not-Ready :
    (hs gs : List WorkSubgoal) → All (λ g. is_ready hs g ≡ false) gs → All (λ g. ¬ Ready hs g) gs
All-not-Ready hs [] a = tt
All-not-Ready hs (g ∷ gs) a = (is_ready-not hs g a.0, All-not-Ready hs gs a.1)

-- Where the identifiers are distinct, either no subgoal is ready, that is, pending, active or stale
-- with every dependency the identifier of a complete subgoal, and then none is named active and no
-- subgoal changes, or the first ready subgoal is named, it becomes active, and no other subgoal
-- changes.
pub select_active_subgoal_lem :
    (s : WorkState)
    → Distinct s.subgoals
    → let s' = select_active_subgoal s in
      (All (λ g. ¬ Ready s.subgoals g) s.subgoals
        × (s'.active_subgoal ≡ none)
        × (s'.subgoals ≡ s.subgoals))
      ⊎ ((before : List WorkSubgoal) × (g : WorkSubgoal) × (after : List WorkSubgoal) × (s.subgoals
            ≡ before ++ g ∷ after)
          × All (λ h. ¬ Ready s.subgoals h) before
          × Ready s.subgoals g
          × (s'.active_subgoal ≡ some g.id)
          × (s'.subgoals ≡ before ++ with_status WorkStatus.active g ∷ after))
unfolding select_active_subgoal
select_active_subgoal_lem s d = elim (found_first (is_ready s.subgoals) s.subgoals) [
  | inl (n, a) ↦
      inl (
        All-not-Ready s.subgoals s.subgoals a,
        ap id_of n,
        ap (λ o. activate (id_of o) s.subgoals) n,
      )
  | inr (g, f, (before, after, e, a, t)) ↦
      let changed =
        modify_first-skip (λ h. text_eq h.id g.id) (with_status WorkStatus.active) before g after
          (Distinct-before before g after (subst Distinct e d)) ((text_eq_iff g.id g.id).1 refl) in
      inr (
        before,
        g,
        after,
        e,
        All-not-Ready s.subgoals before a,
        (is_ready_iff s.subgoals g).0 t,
        ap id_of f,
        ap (λ o. activate (id_of o) s.subgoals) f ∙ ap (activate (some g.id)) e ∙ changed,
      )
]
