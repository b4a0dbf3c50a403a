-- ===== src/Guardrails/Observe.antt =====
-- crates/aether-agent/src/guardrails.rs, `observe_impl_with_fingerprint`: what a result changes.
pub mod Tries
pub mod Bounds
use aether_fx.Base.{
  push_full, ℕ, zero, suc, ◌+◌, ◌/◌, ◌%◌, Bool, true, false, not, ◌&&◌, ◌||◌, Option, none, some,
  is_some, List, [], ◌∷◌, ◌++◌, Bytes, bytes_eq, codes, length, take, drop, any, modify_first,
  saturating_add, u8_max, leb, ◌==◌, if◌then◌else◌,
}
use aether_fx.Tools.Action.{PreparedAction, ToolResult}
use aether_fx.Workflow.{WorkflowPhase, phase_eq}
use aether_fx.Guardrails.{
  CallKind, Observation, FailureObservation, WorkflowObservation, LoopGuardrails, prepared_kind,
  is_failure, is_tripped, is_observed, max_observations, max_failure_observations,
  no_progress_limit,
}

-- The little-endian bytes of a number.
abbrev pub le_bytes : ℕ → ℕ → Bytes
le_bytes zero n = []
le_bytes (suc width) n = n % 256 ∷ le_bytes width (n / 256)

abbrev pub counters_bytes : List ℕ → Bytes
counters_bytes [] = []
counters_bytes (c ∷ cs) = le_bytes 2 c ++ counters_bytes cs

abbrev pub state_advanced : WorkflowObservation → WorkflowObservation → Bool
state_advanced before after =
    not (before.workspace_revision == after.workspace_revision)
    || not (bytes_eq before.progress after.progress)
    || not (bytes_eq before.unresolved_failures after.unresolved_failures)
    || not (phase_eq before.phase after.phase)

abbrev pub same_progress : Option Bytes → Bytes → Bool
same_progress none p = false
same_progress (some q) p = bytes_eq q p

-- `[0; 16]`.
abbrev pub no_failures : Bytes
no_failures = 0 ∷ 0 ∷ 0 ∷ 0 ∷ 0 ∷ 0 ∷ 0 ∷ 0 ∷ 0 ∷ 0 ∷ 0 ∷ 0 ∷ 0 ∷ 0 ∷ 0 ∷ 0 ∷ []

module _ {Value : Type 0} where
  abbrev pub tried_again : ToolResult Value → FailureObservation Value → FailureObservation Value
  tried_again result item = record item {
    attempts = saturating_add u8_max item.attempts 1;
    result = result;
  }

  pub fold_failure :
      Bytes
      → ℕ
      → ToolResult Value
      → List (FailureObservation Value)
      → List (FailureObservation Value)
  fold_failure fingerprint revision result failures =
      if any (is_failure fingerprint revision) failures
      then modify_first (is_failure fingerprint revision) (tried_again result) failures
      else push_full max_failure_observations failures
          (record { fingerprint = fingerprint; revision = revision; attempts = 1; result = result })

  pub fold_observation :
      Bytes → ℕ → ToolResult Value → List (Observation Value) → List (Observation Value)
  fold_observation fingerprint revision result observations =
      if any (is_observed fingerprint revision) observations
      then observations
      else push_full max_observations observations
          (record { fingerprint = fingerprint; revision = revision; result = result })

  pub progress_fingerprint : (Bytes → Bytes) → WorkflowObservation → ToolResult Value → Bytes
  progress_fingerprint hash w result =
      take 16
        (hash (le_bytes 4 w.workspace_revision ++ counters_bytes w.progress ++ result.output.text))

  abbrev pub fold_result :
      Option CallKind → Bytes → ℕ → ToolResult Value → LoopGuardrails Value → LoopGuardrails Value
  fold_result none fingerprint revision result g = g
  fold_result (some kind) fingerprint revision result g =
      if result.ok
      then record g { observations = fold_observation fingerprint revision result g.observations }
      else record g { failures = fold_failure fingerprint revision result g.failures }

  -- The branch of a result that is not `ok`.
  abbrev pub feedback_failed :
      Option CallKind → Bytes → ℕ → LoopGuardrails Value → LoopGuardrails Value × Option Bytes
  feedback_failed kind fingerprint revision g =
      if is_some kind && any (is_tripped fingerprint revision) g.failures
      then (
        g,
        some (codes "guardrail: repeated failure circuit breaker; change arguments or approach"),
      )
      else (record g { no_progress = saturating_add u8_max g.no_progress 1 }, none)

  abbrev pub feedback_progress :
      WorkflowObservation → LoopGuardrails Value → LoopGuardrails Value × Option Bytes
  feedback_progress after g =
      if leb no_progress_limit g.no_progress
      then (
        record g { no_progress = 0 },
        some (
            codes
              "guardrail: no progress across 3 successful tool steps; change arguments or approach, modify the workspace, or finish with the evidence already collected"),
      )
      else if phase_eq after.phase WorkflowPhase.complete
          && bytes_eq after.unresolved_failures no_failures
      then (
        g,
        some (
            codes
              "completion_ready: required verification passed and no unresolved failures remain; summarize and finish"),
      )
      else (g, none)

  abbrev pub note_progress :
      Bytes
      → WorkflowObservation
      → WorkflowObservation
      → LoopGuardrails Value
      → LoopGuardrails Value
  note_progress progress before after g = record g {
    no_progress =
        if state_advanced before after || not (same_progress g.last_progress progress)
        then 0
        else saturating_add u8_max g.no_progress 1;
    last_progress = some progress;
  }

  pub observe :
      (Bytes → Bytes)
      → Option CallKind
      → Bytes
      → ToolResult Value
      → WorkflowObservation
      → WorkflowObservation
      → LoopGuardrails Value
      → LoopGuardrails Value × Option Bytes
  unfolding fold_failure fold_observation progress_fingerprint
  observe hash kind fingerprint result before after g =
      let folded = fold_result kind fingerprint after.workspace_revision result g in
      if not result.ok
      then feedback_failed kind fingerprint after.workspace_revision folded
      else feedback_progress after
          (note_progress (progress_fingerprint hash after result) before after folded)

  -- `observe_snapshot_prepared`.
  pub observe_prepared :
      (Bytes → Bytes)
      → PreparedAction Value
      → ToolResult Value
      → WorkflowObservation
      → WorkflowObservation
      → LoopGuardrails Value
      → LoopGuardrails Value × Option Bytes
  unfolding observe
  observe_prepared hash action result before after g =
      observe hash (prepared_kind action.classification) action.fingerprint result before after g
