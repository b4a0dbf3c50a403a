-- ===== src/Work/Restore/Bounds.antt =====
-- The bounds of a restored state.
use aether_fx.Base.{Held-mapped, Held-filter, Option, none, some}
use aether_fx.BoundedText.{BoundedText}
use aether_fx.BoundedText.Limits.{new_limit}
use aether_fx.Work.{
  WorkState, WorkSubgoal, WorkMutation, WorkVerification, max_work_objective_bytes,
  max_work_criteria, max_work_subgoals, max_work_evidence, max_work_mutations,
  max_work_verifications, max_work_blockers, max_work_relations,
}
use aether_fx.Work.Bounds.{
  IsBounded, Short, ShortOption, ShortCriterion, ShortSubgoal, ShortBlocker, ShortEvidence,
  ShortMutation, ShortVerification, bounded-Short, select_active_subgoal-IsBounded,
}
use aether_fx.Work.Restore.{
  rebound, is_kept, rebound_active, bound_criterion, bound_subgoal, bound_blocker, bound_evidence,
  bound_mutation, bound_verification, enforce_bounds,
}

rebound-Short : (t : BoundedText) → Short (rebound t)
rebound-Short t = bounded-Short t.text

rebound_active-Short : (o : Option BoundedText) → ShortOption (rebound_active o)
rebound_active-Short none = tt
rebound_active-Short (some t) = rebound-Short t

bound_subgoal-Short : (g : WorkSubgoal) → ShortSubgoal (bound_subgoal g)
bound_subgoal-Short g = (
  rebound-Short g.id,
  rebound-Short g.label,
  Held-mapped Short max_work_relations rebound g.depends_on rebound-Short,
  Held-mapped Short max_work_relations rebound g.paths rebound-Short,
)

bound_mutation-Short : (m : WorkMutation) → ShortMutation (bound_mutation m)
bound_mutation-Short m = (
  rebound-Short m.operation,
  (Held-mapped Short max_work_relations rebound m.paths rebound-Short).1,
)

bound_verification-Short : (v : WorkVerification) → ShortVerification (bound_verification v)
bound_verification-Short v = (
  rebound-Short v.command,
  rebound-Short v.scope,
  Held-mapped Short 4 rebound v.diagnostics rebound-Short,
)

pub enforce_bounds-IsBounded : (s : WorkState) → IsBounded (enforce_bounds s)
unfolding enforce_bounds
enforce_bounds-IsBounded s = select_active_subgoal-IsBounded _ (record {
  objective = (new_limit s.objective.text max_work_objective_bytes).0;
  constraints =
      Held-filter Short max_work_relations is_kept _
        (Held-mapped Short max_work_relations rebound s.constraints rebound-Short);
  criteria =
      Held-mapped ShortCriterion max_work_criteria bound_criterion s.acceptance_criteria
        (λ c. (rebound-Short c.key, rebound-Short c.description));
  subgoals =
      Held-mapped ShortSubgoal max_work_subgoals bound_subgoal s.subgoals bound_subgoal-Short;
  active = rebound_active-Short s.active_subgoal;
  blockers =
      Held-mapped ShortBlocker max_work_blockers bound_blocker s.blockers
        (λ b. (rebound-Short b.key, rebound-Short b.category, rebound-Short b.detail));
  evidence =
      Held-mapped ShortEvidence max_work_evidence bound_evidence s.evidence
        (λ e. (rebound-Short e.kind, rebound-Short e.path, rebound-Short e.detail));
  mutations =
      Held-mapped ShortMutation max_work_mutations bound_mutation s.mutations bound_mutation-Short;
  verifications =
      Held-mapped ShortVerification max_work_verifications bound_verification s.verifications
        bound_verification-Short;
})
