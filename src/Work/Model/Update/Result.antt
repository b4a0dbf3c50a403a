-- ===== src/Work/Model/Update/Result.antt =====
-- The dependencies of the subgoals that an update leaves.
use aether_fx.Base.{
  true, false, Option, none, some, List, [], ◌∷◌, ◌++◌, Bytes, any, all, All, Bool-cases, insert,
  lookup, inl, inr, ◌≡◌, ◌∙◌, refl, sym, subst, arith,
}
use mathlib.Core.Option.{some-injective}
use aether_fx.Base.Options.{guard-some}
use aether_fx.BoundedText.{BoundedText, text_eq}
use aether_fx.Work.{WorkState, WorkSubgoal, activate, select_active_subgoal}
use aether_fx.Work.Record.{has_id}
use aether_fx.Work.Model.{Json}
use aether_fx.Work.Model.Cycle.{Graph, has, dependencies}
use aether_fx.Work.Model.Cycle.Sound.{Grounded, grounded}
use aether_fx.Work.Model.Update.{
  Proposal, ids_of, proposed_ids, insert_subgoals, insert_proposals, is_acyclic, put_proposal,
  put_proposals, updated, requested_active, accepted, apply_accepted, apply_model_update,
}
use aether_fx.Work.Model.Update.Acyclic.{is_acyclic_iff}
use aether_fx.Work.Model.Update.Needs.{
  Unique, Whole, needs, dependencies-insert, dependencies-insert_subgoals, needs-put_proposal,
  Unique-put_proposal,
}
use aether_fx.Work.Model.Update.Read.{accepted-Checked}

-- The graph has the dependencies of the subgoals.
abbrev Agree : Graph → List WorkSubgoal → Type 0
Agree graph gs = (id : Bytes) → dependencies graph id ≡ needs gs id

needs-none : (gs : List WorkSubgoal) (id : Bytes) → any (has_id id) gs ≡ false → needs gs id ≡ []
needs-none [] id h = refl
needs-none (g ∷ gs) id h = ground (arith, h, needs-none gs id)

insert_subgoals-Agree : (gs : List WorkSubgoal) → Unique gs → Agree (insert_subgoals gs []) gs
unfolding lookup
insert_subgoals-Agree gs u id =
    ground (arith, dependencies-insert_subgoals gs [] id u, needs-none gs id)

put_proposal-Agree :
    (p : Proposal) (graph : Graph) (gs : List WorkSubgoal)
    → Whole p
    → Agree graph gs
    → Agree (insert p.id p.depends_on graph) (put_proposal p gs)
put_proposal-Agree p graph gs w a id =
    ground
      (arith, dependencies-insert graph p.id id p.depends_on, needs-put_proposal p gs id w, a id)

put_proposals-Agree :
    (known : List Bytes) (ps : List Proposal) (graph checked : Graph) (gs : List WorkSubgoal)
    → All Whole ps
    → Unique gs
    → Agree graph gs
    → insert_proposals known ps graph ≡ some checked
    → Agree checked (put_proposals ps gs) × Unique (put_proposals ps gs)
unfolding insert_proposals put_proposals
put_proposals-Agree known [] graph checked gs w u a e =
    (subst (λ g. Agree g gs) (some-injective _ _ e) a, u)
put_proposals-Agree known (p ∷ ps) graph checked gs w u a e =
    let (_, e') = guard-some (all (has known) p.depends_on) _ checked e in
    put_proposals-Agree known ps (insert p.id p.depends_on graph) checked (put_proposal p gs) w.1
      (Unique-put_proposal p gs w.0 u) (put_proposal-Agree p graph gs w.0 a) e'

any-activate :
    (o : Option BoundedText) (id : Bytes) (gs : List WorkSubgoal)
    → any (has_id id) (activate o gs) ≡ any (has_id id) gs
any-activate none id gs = refl
any-activate (some active) id [] = refl
any-activate (some active) id (g ∷ gs) = ground (arith, any-activate (some active) id gs)

needs-activate :
    (o : Option BoundedText) (id : Bytes) (gs : List WorkSubgoal)
    → needs (activate o gs) id ≡ needs gs id
needs-activate none id gs = refl
needs-activate (some active) id [] = refl
needs-activate (some active) id (g ∷ gs) = ground (arith, needs-activate (some active) id gs)

Unique-activate :
    (o : Option BoundedText) (gs : List WorkSubgoal) → Unique gs → Unique (activate o gs)
Unique-activate none gs u = u
Unique-activate (some active) [] u = tt
Unique-activate (some active) (g ∷ gs) u =
    let rest = Unique-activate (some active) gs u.1 in
    let apart = any-activate (some active) g.id.text gs ∙ u.0 in
    elim (Bool-cases (text_eq g.id active)) [ inl e ↦ rw e u | inr e ↦ rw e (apart, rest) ]

Grounded-same :
    (graph other : Graph) (id : Bytes)
    → ((d : Bytes) → dependencies graph d ≡ dependencies other d)
    → Grounded graph id
    → Grounded other id
Grounded-same graph other id same (grounded _ below) = grounded id (λ d m.
    Grounded-same graph other d same (below d (subst (λ ids. has ids d ≡ true) (sym (same id)) m)))

-- Unique identifiers, whose dependencies are all grounded.
abbrev pub Unwound : List WorkSubgoal → Type 0
Unwound gs = Unique gs × ((id : Bytes) → Grounded (insert_subgoals gs []) id)

updated-Unwound :
    (ps : List Proposal) (requested : Option Bytes) (s : WorkState) (graph : Graph)
    → is_acyclic graph ≡ true
    → Agree graph (put_proposals ps s.subgoals)
    → Unique (put_proposals ps s.subgoals)
    → Unwound (updated ps requested s).subgoals
unfolding select_active_subgoal
updated-Unwound ps (some active) s graph acyclic agree unique = (
  unique,
  λ id.
      Grounded-same graph _ id
        (λ d. agree d ∙ sym (insert_subgoals-Agree (put_proposals ps s.subgoals) unique d))
        ((is_acyclic_iff graph).0 acyclic id),
)
updated-Unwound ps none s graph acyclic agree unique =
    let gs = put_proposals ps s.subgoals in
    let kept = Unique-activate _ gs unique in
    (
      kept,
      λ id.
          Grounded-same graph _ id
            (λ d. agree d ∙ sym (needs-activate _ d gs) ∙ sym (insert_subgoals-Agree _ kept d))
            ((is_acyclic_iff graph).0 acyclic id),
    )

apply_accepted-Unwound :
    {Value Object : Type 0} (json : Json Value Object) (s : WorkState) (update : Value)
    (o : Option (List Proposal))
    → accepted json s update ≡ o
    → Unique s.subgoals
    → (apply_accepted json o (requested_active json update) s).1 ≡ true
    → Unwound (apply_accepted json o (requested_active json update) s).0.subgoals
apply_accepted-Unwound json s update none e u h = absurd (ground (arith, h))
apply_accepted-Unwound json s update (some ps) e u h =
    let ((graph, inserted, acyclic), whole) = accepted-Checked json s update ps e in
    let known = ids_of s.subgoals ++ proposed_ids ps in
    let (agree, unique) =
      put_proposals-Agree known ps _ graph s.subgoals whole u (insert_subgoals-Agree s.subgoals u)
        inserted in
    updated-Unwound ps (requested_active json update) s graph acyclic agree unique

-- Where the identifiers of the subgoals are unique, an update that is accepted leaves unique
-- identifiers and no cycle: the dependencies of the subgoals that it leaves are all grounded.
pub apply_model_update-Unwound :
    {Value Object : Type 0} (json : Json Value Object) (s : WorkState) (update : Value)
    → Unique s.subgoals
    → (apply_model_update json s update).1 ≡ true
    → Unwound (apply_model_update json s update).0.subgoals
unfolding apply_model_update
apply_model_update-Unwound json s update u h =
    apply_accepted-Unwound json s update (accepted json s update) refl u h
