-- ===== src/Work/Bounds.antt =====
-- The bounds of the work state.
use aether_fx.Base.{
  Held, Held-modify_first, ◌∷◌, [], ◌≤◌, Bool, Option, none, some, List, Bytes, length, find, All,
  arith,
}
use aether_fx.BoundedText.{BoundedText}
use aether_fx.BoundedText.Limits.{new_limit}
use aether_fx.Work.{
  WorkState, WorkCriterion, WorkSubgoal, WorkEvidence, WorkMutation, WorkVerification, WorkBlocker,
  bounded, activate, id_of, is_ready, select_active_subgoal, max_work_objective_bytes,
  max_work_field_bytes, max_work_criteria, max_work_subgoals, max_work_evidence, max_work_mutations,
  max_work_verifications, max_work_blockers, max_work_relations,
}

abbrev pub Short : BoundedText → Type 0
Short t = length t.text ≤ max_work_field_bytes

abbrev pub ShortCriterion : WorkCriterion → Type 0
ShortCriterion c = Short c.key × Short c.description

abbrev pub ShortSubgoal : WorkSubgoal → Type 0
ShortSubgoal g =
    Short g.id
    × Short g.label
    × Held max_work_relations Short g.depends_on
    × Held max_work_relations Short g.paths

abbrev pub ShortBlocker : WorkBlocker → Type 0
ShortBlocker b = Short b.key × Short b.category × Short b.detail

abbrev pub ShortEvidence : WorkEvidence → Type 0
ShortEvidence e = Short e.kind × Short e.path × Short e.detail

-- The number of paths of a mutation is bounded when it is restored, not when it is recorded.
abbrev pub ShortMutation : WorkMutation → Type 0
ShortMutation m = Short m.operation × All Short m.paths

abbrev pub ShortVerification : WorkVerification → Type 0
ShortVerification v = Short v.command × Short v.scope × Held 4 Short v.diagnostics

abbrev pub ShortOption : Option BoundedText → Type 0
ShortOption none = Unit
ShortOption (some t) = Short t

pub record IsBounded (s : WorkState) : Type 0 where
  pub objective : length s.objective.text ≤ max_work_objective_bytes
  pub constraints : Held max_work_relations Short s.constraints
  pub criteria : Held max_work_criteria ShortCriterion s.acceptance_criteria
  pub subgoals : Held max_work_subgoals ShortSubgoal s.subgoals
  pub active : ShortOption s.active_subgoal
  pub blockers : Held max_work_blockers ShortBlocker s.blockers
  pub evidence : Held max_work_evidence ShortEvidence s.evidence
  pub mutations : Held max_work_mutations ShortMutation s.mutations
  pub verifications : Held max_work_verifications ShortVerification s.verifications

pub bounded-Short : (value : Bytes) → Short (bounded value)
unfolding bounded
bounded-Short value = (new_limit value max_work_field_bytes).0

Short-found :
    (p : WorkSubgoal → Bool) (gs : List WorkSubgoal)
    → All ShortSubgoal gs
    → ShortOption (id_of (find p gs))
Short-found p [] a = tt
Short-found p (g ∷ gs) a = let rest = Short-found p gs a.1 in let here = a.0.0 in ground arith

Held-activate :
    (o : Option BoundedText) (gs : List WorkSubgoal)
    → Held max_work_subgoals ShortSubgoal gs
    → Held max_work_subgoals ShortSubgoal (activate o gs)
Held-activate none gs a = a
Held-activate (some id) gs a =
    Held-modify_first ShortSubgoal max_work_subgoals _ _ gs (λ g short. short) a

pub select_active_subgoal-IsBounded :
    (s : WorkState) → IsBounded s → IsBounded (select_active_subgoal s)
unfolding select_active_subgoal
select_active_subgoal-IsBounded s b = record {
  objective = b.objective;
  constraints = b.constraints;
  criteria = b.criteria;
  subgoals = Held-activate _ s.subgoals b.subgoals;
  active = Short-found (is_ready s.subgoals) s.subgoals b.subgoals.1;
  blockers = b.blockers;
  evidence = b.evidence;
  mutations = b.mutations;
  verifications = b.verifications;
}
