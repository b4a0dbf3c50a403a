-- ===== src/Decision/History.antt =====
-- crates/aether-core/src/decision.rs: the operations on a decision state, in any order.
pub mod Bounds
use aether_fx.Base.{ℕ, Bool, Option, List, [], ◌∷◌, Bytes}
use aether_fx.Tools.Action.{EvidenceProvenance}
use aether_fx.Decision.{DecisionState, DecisionEvidenceKind, DecisionAction}
use aether_fx.Decision.Update.{
  record_evidence_with_provenance, record_question, clear_question, upsert_candidate,
  record_modified_scope, note_observation_value, set_next, reset_for_workspace_change,
  enforce_bounds,
}

-- A call of one of the methods, with its arguments.
pub data Operation : Type 0 where
  records_evidence :
      (provenance : EvidenceProvenance) (kind : DecisionEvidenceKind) (path detail : Bytes)
      (weight revision : ℕ)
      → Operation
  records_question : (key question : Bytes) → Operation
  clears_question : (key : Bytes) → Operation
  upserts_candidate :
      (path : Bytes) (score evidence : ℕ) (inspected modified stale : Bool) → Operation
  records_scope : (path : Bytes) → Operation
  notes_value : (advanced : Bool) → Operation
  sets_next : (action : DecisionAction) (target : Option Bytes) (reason : Bytes) → Operation
  resets : Operation
  restores : Operation

pub apply : DecisionState → Operation → DecisionState
apply s (records_evidence provenance kind path detail weight revision) =
    record_evidence_with_provenance provenance kind path detail weight revision s
apply s (records_question key question) = record_question key question s
apply s (clears_question key) = clear_question key s
apply s (upserts_candidate path score evidence inspected modified stale) =
    upsert_candidate path score evidence inspected modified stale s
apply s (records_scope path) = record_modified_scope path s
apply s (notes_value advanced) = note_observation_value advanced s
apply s (sets_next action target reason) = set_next action target reason s
apply s resets = reset_for_workspace_change s
apply s restores = enforce_bounds s

pub run : DecisionState → List Operation → DecisionState
unfolding apply
run s [] = s
run s (o ∷ os) = run (apply s o) os
