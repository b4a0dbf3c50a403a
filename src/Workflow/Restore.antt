-- ===== src/Workflow/Restore.antt =====
-- crates/aether-core/src/workflow.rs, `enforce_bounds`: a workflow state read back from a session.
use aether_fx.Base.{not, map, max, Bytes, is_empty, take, filter}
use aether_fx.BoundedText.{BoundedText}
use aether_fx.Decision.Update
use aether_fx.Work.Restore
use aether_fx.Workflow.{
  max_workflow_relevant_files, max_workflow_failures, max_workflow_verifications,
  max_workflow_diagnostics, max_workflow_recovery_paths,
}
use aether_fx.Workflow.State.{
  WorkflowState, WorkflowFailure, WorkflowDiagnostic, VerificationStep, RecoveryState,
  TurnDirectorState, text_field,
}
use aether_fx.Workflow.Director.{is_recovery_path}

abbrev pub retext : BoundedText → BoundedText
retext t = text_field t.text

abbrev pub bound_path : Bytes → Bytes
bound_path path = (text_field path).text

abbrev pub bound_step : VerificationStep → VerificationStep
bound_step step = record step { command = retext step.command; scope = retext step.scope }

abbrev pub bound_diagnostic : WorkflowDiagnostic → WorkflowDiagnostic
bound_diagnostic d = record d {
  path = retext d.path;
  code = retext d.code;
  symbol = retext d.symbol;
  detail = retext d.detail;
}

abbrev pub bound_failure : WorkflowFailure → WorkflowFailure
bound_failure f = record f {
  key = retext f.key;
  tool = retext f.tool;
  code = retext f.code;
  message = retext f.message;
  diagnostics = map bound_diagnostic (take max_workflow_diagnostics f.diagnostics);
}

-- `RecoveryState::enforce_bounds`.
abbrev pub bound_recovery : RecoveryState → RecoveryState
bound_recovery r = record r {
  affected_paths =
      filter is_recovery_path (map retext (take max_workflow_recovery_paths r.affected_paths));
}

-- `TurnDirectorState::enforce_bounds`.
abbrev pub bound_director : TurnDirectorState → TurnDirectorState
bound_director d = record d { last_reason = retext d.last_reason }

unfoldable pub enforce_bounds : WorkflowState → WorkflowState
enforce_bounds s =
    let work = Restore.enforce_bounds s.work in
    record s {
      relevant_files =
          filter (λ path. not (is_empty path))
            (map bound_path (take max_workflow_relevant_files s.relevant_files));
      unresolved_failures = map bound_failure (take max_workflow_failures s.unresolved_failures);
      verification_steps = map bound_step (take max_workflow_verifications s.verification_steps);
      decision = Update.enforce_bounds s.decision;
      work = work;
      recovery = bound_recovery s.recovery;
      director = bound_director s.director;
      task_revision = max s.task_revision work.task_revision;
    }
