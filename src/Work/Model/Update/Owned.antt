-- ===== src/Work/Model/Update/Owned.antt =====
-- What an update leaves to the runtime.
use aether_fx.Base.{
  Bool, true, false, ◌&&◌, Option, none, some, List, [], ◌∷◌, map, Bytes, any, All, All-append,
  All-modify_first, Bool-cases, inl, inr, ◌⊎◌, ◌≡◌, refl, arith, bytes_eq_self,
}
use aether_fx.BoundedText.{BoundedText}
use aether_fx.Work.{
  WorkState, WorkStatus, WorkSubgoal, is_complete, activate, with_status, select_active_subgoal,
  bounded,
}
use aether_fx.Work.Record.{has_id, new_subgoal}
use aether_fx.Work.Model.{Json}
use aether_fx.Work.Model.Update.{
  Proposal, reopened, revised, put_proposal, put_proposals, updated, requested_active, accepted,
  apply_accepted, apply_model_update,
}

-- A subgoal that is complete only where one with its identifier was.
abbrev pub Owned : List WorkSubgoal → WorkSubgoal → Type 0
Owned original g =
    (is_complete g.status ≡ false)
    ⊎ (any (λ h. has_id g.id.text h && is_complete h.status) original ≡ true)

-- The parts of the state that only observations change.
abbrev pub Observed : WorkState → WorkState → Type 0
Observed s r =
    (r.objective ≡ s.objective)
    × (r.constraints ≡ s.constraints)
    × (r.acceptance_criteria ≡ s.acceptance_criteria)
    × (r.blockers ≡ s.blockers)
    × (r.evidence ≡ s.evidence)
    × (r.mutations ≡ s.mutations)
    × (r.verifications ≡ s.verifications)

Owned-cons :
    (original : List WorkSubgoal) (first g : WorkSubgoal)
    → Owned original g
    → Owned (first ∷ original) g
Owned-cons original first g h = ground arith

All-Owned-cons :
    (original : List WorkSubgoal) (first : WorkSubgoal) (gs : List WorkSubgoal)
    → All (Owned original) gs
    → All (Owned (first ∷ original)) gs
All-Owned-cons original first [] a = tt
All-Owned-cons original first (g ∷ gs) a =
    (Owned-cons original first g a.0, All-Owned-cons original first gs a.1)

Owned-first : (g : WorkSubgoal) (gs : List WorkSubgoal) → Owned (g ∷ gs) g
Owned-first g gs = ground (arith, bytes_eq_self g.id.text)

All-Owned : (original : List WorkSubgoal) → All (Owned original) original
All-Owned [] = tt
All-Owned (g ∷ gs) = (Owned-first g gs, All-Owned-cons gs g gs (All-Owned gs))

is_complete-reopened : (status : WorkStatus) → is_complete (reopened status) ≡ is_complete status
is_complete-reopened WorkStatus.stale = refl
is_complete-reopened WorkStatus.pending = refl
is_complete-reopened WorkStatus.active = refl
is_complete-reopened WorkStatus.complete = refl
is_complete-reopened WorkStatus.blocked = refl

revised-Owned :
    (original : List WorkSubgoal) (p : Proposal) (g : WorkSubgoal)
    → Owned original g
    → Owned original (revised p g)
revised-Owned original p g h = ground (arith, is_complete-reopened g.status)

put_proposals-Owned :
    (original : List WorkSubgoal) (ps : List Proposal) (gs : List WorkSubgoal)
    → All (Owned original) gs
    → All (Owned original) (put_proposals ps gs)
unfolding put_proposals
put_proposals-Owned original [] gs a = a
put_proposals-Owned original (p ∷ ps) gs a =
    let changed =
      All-modify_first (Owned original) (has_id p.id) (revised p) gs (revised-Owned original p) a in
    let added =
      All-append (Owned original) gs
        (new_subgoal p.id p.label (map bounded p.depends_on) (map bounded p.paths) ∷ []) a
        (inl refl, tt) in
    put_proposals-Owned original ps (put_proposal p gs)
      (elim (Bool-cases (any (has_id p.id) gs)) [ inl e ↦ rw e changed | inr e ↦ rw e added ])

activate-Owned :
    (original : List WorkSubgoal) (active : Option BoundedText) (gs : List WorkSubgoal)
    → All (Owned original) gs
    → All (Owned original) (activate active gs)
activate-Owned original none gs a = a
activate-Owned original (some id) gs a =
    All-modify_first (Owned original) _ (with_status WorkStatus.active) gs (λ g h. inl refl) a

abbrev Kept : WorkState → WorkState × Bool → Type 0
Kept s r = All (Owned s.subgoals) r.0.subgoals × Observed s r.0 × ((r.1 ≡ true) ⊎ (r.0 ≡ s))

updated-Kept :
    (ps : List Proposal) (requested : Option Bytes) (s : WorkState)
    → Kept s (updated ps requested s, true)
unfolding select_active_subgoal
updated-Kept ps none s = (
  activate-Owned s.subgoals _ _
      (put_proposals-Owned s.subgoals ps s.subgoals (All-Owned s.subgoals)),
  (refl, refl, refl, refl, refl, refl, refl),
  inl refl,
)
updated-Kept ps (some active) s = (
  put_proposals-Owned s.subgoals ps s.subgoals (All-Owned s.subgoals),
  (refl, refl, refl, refl, refl, refl, refl),
  inl refl,
)

apply_accepted-Kept :
    {Value Object : Type 0} (json : Json Value Object) (o : Option (List Proposal))
    (requested : Option Bytes) (s : WorkState)
    → Kept s (apply_accepted json o requested s)
apply_accepted-Kept json none requested s =
    (All-Owned s.subgoals, (refl, refl, refl, refl, refl, refl, refl), inr refl)
apply_accepted-Kept json (some ps) requested s = updated-Kept ps requested s

-- Whatever the model sends, an update completes nothing: a subgoal is complete only where one with
-- its identifier was complete before. The objective, the constraints, the criteria, the blockers,
-- the evidence, the mutations and the verifications stay, and a refused update changes nothing at
-- all.
pub apply_model_update-Owned :
    {Value Object : Type 0} (json : Json Value Object) (s : WorkState) (update : Value)
    → let r = apply_model_update json s update in
      All (Owned s.subgoals) r.0.subgoals × Observed s r.0 × ((r.1 ≡ true) ⊎ (r.0 ≡ s))
unfolding apply_model_update
apply_model_update-Owned json s update =
    apply_accepted-Kept json (accepted json s update) (requested_active json update) s
