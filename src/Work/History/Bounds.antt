-- ===== src/Work/History/Bounds.antt =====
-- The bounds of a work state along a history of operations.
use aether_fx.Base.{List, [], ◌∷◌}
use aether_fx.Work.{WorkState}
use aether_fx.Work.Bounds.{IsBounded}
use aether_fx.Work.Record.Bounds.{
  add_subgoal-IsBounded, set_subgoal_status-IsBounded, record_evidence-IsBounded,
  record_mutation-IsBounded,
}
use aether_fx.Work.Verify.Bounds.{record_verification-IsBounded}
use aether_fx.Work.Verify.BlockerBounds.{
  record_blocker-IsBounded, clear_blocker-IsBounded, invalidate-IsBounded,
  satisfy_criterion-IsBounded,
}
use aether_fx.Work.Model.{Json}
use aether_fx.Work.Model.Update.Bounds.{apply_model_update-IsBounded}
use aether_fx.Work.Restore.{enforce_bounds}
use aether_fx.Work.Restore.Bounds.{enforce_bounds-IsBounded}
use aether_fx.Work.History.{
  Operation, adds_subgoal, sets_status, records_evidence, records_mutation, records_verification,
  records_blocker, clears_blocker, invalidates, satisfies, applies_model_update, restores, apply,
  run,
}

module _ {Value Object : Type 0} (json : Json Value Object) where
  apply-IsBounded : (s : WorkState) (o : Operation Value) → IsBounded s → IsBounded (apply json s o)
  unfolding apply
  apply-IsBounded s (adds_subgoal id label depends_on) b =
      add_subgoal-IsBounded s id label depends_on b
  apply-IsBounded s (sets_status id status revision) b =
      set_subgoal_status-IsBounded s id status revision b
  apply-IsBounded s (records_evidence kind path detail revision) b =
      record_evidence-IsBounded s kind path detail revision b
  apply-IsBounded s (records_mutation operation paths revision) b =
      record_mutation-IsBounded s operation paths revision b
  apply-IsBounded s (records_verification command scope passed revision diagnostics paths) b =
      record_verification-IsBounded s command scope passed revision diagnostics paths b
  apply-IsBounded s (records_blocker key category detail revision) b =
      record_blocker-IsBounded s key category detail revision b
  apply-IsBounded s (clears_blocker key) b = clear_blocker-IsBounded s key b
  apply-IsBounded s (invalidates revision) b = invalidate-IsBounded s revision b
  apply-IsBounded s (satisfies key) b = satisfy_criterion-IsBounded s key b
  apply-IsBounded s (applies_model_update update) b = apply_model_update-IsBounded json s update b
  apply-IsBounded s restores b = enforce_bounds-IsBounded s

  history-IsBounded :
      (s : WorkState) (os : List (Operation Value)) → IsBounded s → IsBounded (run json s os)
  unfolding run
  history-IsBounded s [] b = b
  history-IsBounded s (o ∷ os) b = history-IsBounded (apply json s o) os (apply-IsBounded s o b)

  -- Whatever was persisted, a restored state stays within the bounds on its texts and its lists in
  -- any history of the operations that record, verify, block, restore and select, and of updates by
  -- the model; a change of the task or of its objective is not among them, and the number of paths
  -- of a recorded mutation is not bounded.
  pub run-IsBounded :
      (persisted : WorkState) (os : List (Operation Value))
      → IsBounded (run json (enforce_bounds persisted) os)
  run-IsBounded persisted os =
      history-IsBounded (enforce_bounds persisted) os (enforce_bounds-IsBounded persisted)
