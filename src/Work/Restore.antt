-- ===== src/Work/Restore.antt =====
-- crates/aether-core/src/work.rs, `enforce_bounds`: a state read back from a session is cut to its
-- bounds.
pub mod Bounds
use aether_fx.Base.{Bool, not, ◌&&◌, Option, none, some, List, map, is_empty, take, filter}
use aether_fx.BoundedText.{BoundedText, is_truncated, new}
use aether_fx.Work.{
  WorkState, WorkCriterion, WorkSubgoal, WorkEvidence, WorkMutation, WorkVerification, WorkBlocker,
  bounded, select_active_subgoal, max_work_objective_bytes, max_work_criteria, max_work_subgoals,
  max_work_evidence, max_work_mutations, max_work_verifications, max_work_blockers,
  max_work_relations,
}

abbrev pub rebound : BoundedText → BoundedText
rebound t = bounded t.text

abbrev pub is_kept : BoundedText → Bool
is_kept constraint = not (is_empty constraint.text) && not (is_truncated constraint)

abbrev pub bound_criterion : WorkCriterion → WorkCriterion
bound_criterion c = record c { key = rebound c.key; description = rebound c.description }

abbrev pub bound_subgoal : WorkSubgoal → WorkSubgoal
bound_subgoal g = record g {
  id = rebound g.id;
  label = rebound g.label;
  depends_on = map rebound (take max_work_relations g.depends_on);
  paths = map rebound (take max_work_relations g.paths);
}

abbrev pub bound_blocker : WorkBlocker → WorkBlocker
bound_blocker b = record b {
  key = rebound b.key;
  category = rebound b.category;
  detail = rebound b.detail;
}

abbrev pub bound_evidence : WorkEvidence → WorkEvidence
bound_evidence e = record e {
  kind = rebound e.kind;
  path = rebound e.path;
  detail = rebound e.detail;
}

abbrev pub bound_mutation : WorkMutation → WorkMutation
bound_mutation m = record m {
  operation = rebound m.operation;
  paths = map rebound (take max_work_relations m.paths);
}

abbrev pub bound_verification : WorkVerification → WorkVerification
bound_verification v = record v {
  command = rebound v.command;
  scope = rebound v.scope;
  diagnostics = map rebound (take 4 v.diagnostics);
}

abbrev pub rebound_active : Option BoundedText → Option BoundedText
rebound_active none = none
rebound_active (some id) = some (rebound id)

unfoldable pub enforce_bounds : WorkState → WorkState
enforce_bounds s = select_active_subgoal (record s {
  objective = new s.objective.text max_work_objective_bytes;
  constraints = filter is_kept (map rebound (take max_work_relations s.constraints));
  acceptance_criteria = map bound_criterion (take max_work_criteria s.acceptance_criteria);
  subgoals = map bound_subgoal (take max_work_subgoals s.subgoals);
  blockers = map bound_blocker (take max_work_blockers s.blockers);
  evidence = map bound_evidence (take max_work_evidence s.evidence);
  mutations = map bound_mutation (take max_work_mutations s.mutations);
  verifications = map bound_verification (take max_work_verifications s.verifications);
  active_subgoal = rebound_active s.active_subgoal;
})
