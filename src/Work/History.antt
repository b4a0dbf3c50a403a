-- ===== src/Work/History.antt =====
-- crates/aether-core/src/work.rs: the operations on a work state, but those that change the task or
-- its objective, in any order. `Update` is the type of the JSON values in which the model sends its
-- outlines.
pub mod Bounds
use aether_fx.Base.{ℕ, Bool, List, [], ◌∷◌, Bytes}
use aether_fx.Work.{WorkState, WorkStatus}
use aether_fx.Work.Record.{add_subgoal, set_subgoal_status, record_evidence, record_mutation}
use aether_fx.Work.Verify.{
  record_verification, record_blocker, clear_blocker, invalidate_for_workspace_change,
  satisfy_criterion,
}
use aether_fx.Work.Model.{Json}
use aether_fx.Work.Model.Update.{apply_model_update}
use aether_fx.Work.Restore.{enforce_bounds}

-- A call of one of the methods, with its arguments.
pub data Operation (Update : Type 0) : Type 0 where
  adds_subgoal : (id label : Bytes) (depends_on : List Bytes) → Operation Update
  sets_status : (id : Bytes) (status : WorkStatus) (revision : ℕ) → Operation Update
  records_evidence : (kind path detail : Bytes) (revision : ℕ) → Operation Update
  records_mutation : (operation : Bytes) (paths : List Bytes) (revision : ℕ) → Operation Update
  records_verification :
      (command scope : Bytes) (passed : Bool) (revision : ℕ) (diagnostics paths : List Bytes)
      → Operation Update
  records_blocker : (key category detail : Bytes) (revision : ℕ) → Operation Update
  clears_blocker : (key : Bytes) → Operation Update
  invalidates : (revision : ℕ) → Operation Update
  satisfies : (key : Bytes) → Operation Update
  applies_model_update : (update : Update) → Operation Update
  restores : Operation Update

module _ {Value Object : Type 0} (json : Json Value Object) where
  pub apply : WorkState → Operation Value → WorkState
  apply s (adds_subgoal id label depends_on) = (add_subgoal s id label depends_on).0
  apply s (sets_status id status revision) = (set_subgoal_status s id status revision).0
  apply s (records_evidence kind path detail revision) = record_evidence s kind path detail revision
  apply s (records_mutation operation paths revision) = record_mutation s operation paths revision
  apply s (records_verification command scope passed revision diagnostics paths) =
      record_verification s command scope passed revision diagnostics paths
  apply s (records_blocker key category detail revision) =
      record_blocker s key category detail revision
  apply s (clears_blocker key) = clear_blocker s key
  apply s (invalidates revision) = invalidate_for_workspace_change s revision
  apply s (satisfies key) = satisfy_criterion s key
  apply s (applies_model_update update) = (apply_model_update json s update).0
  apply s restores = enforce_bounds s

  pub run : WorkState → List (Operation Value) → WorkState
  unfolding apply
  run s [] = s
  run s (o ∷ os) = run (apply s o) os
