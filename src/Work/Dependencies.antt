-- ===== src/Work/Dependencies.antt =====
-- When a subgoal's dependencies are complete, apart from the tests that the code makes.
use aether_fx.Base.{
  true, false, List, [], ◌∷◌, all, find, All, Bool-cases, ◌≡◌, ◌↔◌, ◌⊎◌, inl, inr, refl, arith,
}
use aether_fx.BoundedText.{BoundedText, text_eq, text_eq_iff}
use aether_fx.Work.{
  WorkSubgoal, WorkStatus, is_complete, completed, is_open, dependencies_complete, is_ready,
}

pub is_complete_iff : (t : WorkStatus) → (is_complete t ≡ true) ↔ (t ≡ WorkStatus.complete)
is_complete_iff WorkStatus.complete = (λ h. refl, λ h. refl)
is_complete_iff WorkStatus.pending = (λ h. absurd (cc), λ h. absurd (cc))
is_complete_iff WorkStatus.active = (λ h. absurd (cc), λ h. absurd (cc))
is_complete_iff WorkStatus.stale = (λ h. absurd (cc), λ h. absurd (cc))
is_complete_iff WorkStatus.blocked = (λ h. absurd (cc), λ h. absurd (cc))

-- The first subgoal that has this identifier exists, and is complete.
abbrev pub Done : List WorkSubgoal → BoundedText → Type 0
Done [] id = ⊥
Done (h ∷ hs) id = ((h.id ≡ id) × (h.status ≡ WorkStatus.complete)) ⊎ ((¬ (h.id ≡ id)) × Done hs id)

completed_iff :
    (hs : List WorkSubgoal) (id : BoundedText)
    → (completed (find (λ h. text_eq h.id id) hs) ≡ true) ↔ Done hs id
completed_iff [] id = ground arith
completed_iff (h ∷ hs) id = elim (Bool-cases (text_eq h.id id)) [
  | inl e ↦
      let same = (text_eq_iff h.id id).0 e in
      rw e (
        λ c. inl (same, (is_complete_iff h.status).0 c),
        λ d. elim d [ inl (_, c) ↦ (is_complete_iff h.status).1 c | inr (n, _) ↦ absurd (n same) ],
      )
  | inr e ↦
      let differ : ¬ (h.id ≡ id) = λ q. ground (arith, e, (text_eq_iff h.id id).1 q) in
      rw e (
        λ c. inr (differ, (completed_iff hs id).0 c),
        λ d. elim d [ inl (q, _) ↦ absurd (differ q) | inr (_, r) ↦ (completed_iff hs id).1 r ],
      )
]

all-Done :
    (hs : List WorkSubgoal) (ids : List BoundedText)
    → (all (λ id. completed (find (λ h. text_eq h.id id) hs)) ids ≡ true) ↔ All (Done hs) ids
all-Done hs [] = (λ h. tt, λ h. refl)
all-Done hs (id ∷ ids) = ground (arith, completed_iff hs id, all-Done hs ids)

pub dependencies_complete_iff :
    (hs : List WorkSubgoal) (g : WorkSubgoal)
    → (dependencies_complete g hs ≡ true) ↔ All (Done hs) g.depends_on
unfolding dependencies_complete
dependencies_complete_iff hs g = all-Done hs g.depends_on

abbrev pub Open : WorkStatus → Type 0
Open t = (t ≡ WorkStatus.pending) ⊎ ((t ≡ WorkStatus.active) ⊎ (t ≡ WorkStatus.stale))

is_open_iff : (t : WorkStatus) → (is_open t ≡ true) ↔ Open t
is_open_iff WorkStatus.pending = (λ h. inl refl, λ h. refl)
is_open_iff WorkStatus.active = (λ h. inr (inl refl), λ h. refl)
is_open_iff WorkStatus.stale = (λ h. inr (inr refl), λ h. refl)
is_open_iff WorkStatus.complete = (λ h. absurd (cc), λ h. ground (arith, h))
is_open_iff WorkStatus.blocked = (λ h. absurd (cc), λ h. ground (arith, h))

-- The subgoal is pending, active or stale, and each of its dependencies is complete.
abbrev pub Ready : List WorkSubgoal → WorkSubgoal → Type 0
Ready hs g = Open g.status × All (Done hs) g.depends_on

pub is_ready_iff : (hs : List WorkSubgoal) (g : WorkSubgoal) → (is_ready hs g ≡ true) ↔ Ready hs g
unfolding is_ready
is_ready_iff hs g = ground (arith, is_open_iff g.status, dependencies_complete_iff hs g)

pub is_ready-not : (hs : List WorkSubgoal) (g : WorkSubgoal) → is_ready hs g ≡ false → ¬ Ready hs g
is_ready-not hs g h r = ground (arith, h, (is_ready_iff hs g).1 r)
