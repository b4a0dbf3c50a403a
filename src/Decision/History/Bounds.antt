-- ===== src/Decision/History/Bounds.antt =====
-- The bounds of a decision state along a history of operations.
use aether_fx.Base.{List, [], ◌∷◌}
use aether_fx.Decision.{DecisionState}
use aether_fx.Decision.Update.{enforce_bounds}
use aether_fx.Decision.Update.Bounds.{
  IsBounded, record_evidence-IsBounded, record_question-IsBounded, clear_question-IsBounded,
}
use aether_fx.Decision.Update.ScopeBounds.{
  upsert_candidate-IsBounded, record_modified_scope-IsBounded, note_observation_value-IsBounded,
  set_next-IsBounded, reset-IsBounded, enforce_bounds-IsBounded,
}
use aether_fx.Decision.History.{
  Operation, records_evidence, records_question, clears_question, upserts_candidate, records_scope,
  notes_value, sets_next, resets, restores, apply, run,
}

apply-IsBounded : (s : DecisionState) (o : Operation) → IsBounded s → IsBounded (apply s o)
unfolding apply
apply-IsBounded s (records_evidence provenance kind path detail weight revision) b =
    record_evidence-IsBounded provenance kind path detail weight revision s b
apply-IsBounded s (records_question key question) b = record_question-IsBounded key question s b
apply-IsBounded s (clears_question key) b = clear_question-IsBounded key s b
apply-IsBounded s (upserts_candidate path score evidence inspected modified stale) b =
    upsert_candidate-IsBounded path score evidence inspected modified stale s b
apply-IsBounded s (records_scope path) b = record_modified_scope-IsBounded path s b
apply-IsBounded s (notes_value advanced) b = note_observation_value-IsBounded advanced s b
apply-IsBounded s (sets_next action target reason) b = set_next-IsBounded action target reason s b
apply-IsBounded s resets b = reset-IsBounded s
apply-IsBounded s restores b = enforce_bounds-IsBounded s

history-IsBounded : (s : DecisionState) (os : List Operation) → IsBounded s → IsBounded (run s os)
unfolding run
history-IsBounded s [] b = b
history-IsBounded s (o ∷ os) b = history-IsBounded (apply s o) os (apply-IsBounded s o b)

-- Whatever was persisted, a decision state that is restored keeps, in any history of the
-- operations, its bounds on texts, lists and the confidence, and its candidates ranked by score,
-- then by path.
pub run_restored-IsBounded :
    (persisted : DecisionState) (os : List Operation)
    → IsBounded (run (enforce_bounds persisted) os)
run_restored-IsBounded persisted os =
    history-IsBounded (enforce_bounds persisted) os (enforce_bounds-IsBounded persisted)
