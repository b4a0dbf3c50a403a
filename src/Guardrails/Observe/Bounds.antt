-- ===== src/Guardrails/Observe/Bounds.antt =====
-- The bounds of the guardrails.
use aether_fx.Base.{
  length-push_full, ℕ, ◌≤◌, Bool, true, false, not, ◌&&◌, Option, none, some, is_some, List, Bytes,
  length, length-modify_first, any, saturating_add, u8_max, if◌then◌else◌, Bool-cases, inl, inr,
  arith,
}
use aether_fx.Tools.Action.{ToolResult}
use aether_fx.Guardrails.{
  CallKind, Observation, FailureObservation, WorkflowObservation, LoopGuardrails, new_guardrails,
  is_failure, is_tripped, is_observed, max_observations, max_failure_observations,
}
use aether_fx.Guardrails.Observe.{
  tried_again, fold_failure, fold_observation, fold_result, feedback_failed, feedback_progress,
  note_progress, progress_fingerprint, observe,
}

pub record IsBounded {Value : Type 0} (g : LoopGuardrails Value) : Type 0 where
  pub observations : length g.observations ≤ max_observations
  pub failures : length g.failures ≤ max_failure_observations
  pub no_progress : g.no_progress ≤ u8_max

note_bound : (c : Bool) (n : ℕ) → (if c then 0 else saturating_add u8_max n 1) ≤ u8_max
note_bound c n = ground arith

module _ {Value : Type 0} where
  fold_failure-bound :
      (fingerprint : Bytes) (revision : ℕ) (result : ToolResult Value)
      (xs : List (FailureObservation Value))
      → length xs ≤ max_failure_observations
      → length (fold_failure fingerprint revision result xs) ≤ max_failure_observations
  unfolding fold_failure
  fold_failure-bound fingerprint revision result xs h =
      let pushed =
        length-push_full 15 xs
          (record { fingerprint = fingerprint; revision = revision; attempts = 1; result = result })
          h in
      let same = length-modify_first (is_failure fingerprint revision) (tried_again result) xs in
      elim (Bool-cases (any (is_failure fingerprint revision) xs)) [
        | inl e ↦ rw e (omega (arith, same))
        | inr e ↦ rw e pushed
      ]

  fold_observation-bound :
      (fingerprint : Bytes) (revision : ℕ) (result : ToolResult Value)
      (xs : List (Observation Value))
      → length xs ≤ max_observations
      → length (fold_observation fingerprint revision result xs) ≤ max_observations
  unfolding fold_observation
  fold_observation-bound fingerprint revision result xs h =
      let pushed =
        length-push_full 63 xs
          (record { fingerprint = fingerprint; revision = revision; result = result }) h in
      elim (Bool-cases (any (is_observed fingerprint revision) xs)) [
        | inl e ↦ rw e h
        | inr e ↦ rw e pushed
      ]

  either :
      (c : Bool) (x y : LoopGuardrails Value)
      → IsBounded x
      → IsBounded y
      → IsBounded (if c then x else y)
  either true x y h k = h
  either false x y h k = k

  either_first :
      (c : Bool) (x y : LoopGuardrails Value × Option Bytes)
      → IsBounded x.0
      → IsBounded y.0
      → IsBounded (if c then x else y).0
  either_first true x y h k = h
  either_first false x y h k = k

  fold_result-IsBounded :
      (kind : Option CallKind) (fingerprint : Bytes) (revision : ℕ) (result : ToolResult Value)
      (g : LoopGuardrails Value)
      → IsBounded g
      → IsBounded (fold_result kind fingerprint revision result g)
  fold_result-IsBounded none fingerprint revision result g b = b
  fold_result-IsBounded (some kind) fingerprint revision result g b =
      either result.ok _ _
        (record {
          observations =
              fold_observation-bound fingerprint revision result g.observations b.observations;
          failures = b.failures;
          no_progress = b.no_progress;
        })
        (record {
          observations = b.observations;
          failures = fold_failure-bound fingerprint revision result g.failures b.failures;
          no_progress = b.no_progress;
        })

  -- A change of the counter and of the last progress.
  counted :
      (g : LoopGuardrails Value) (n : ℕ) (last : Option Bytes)
      → IsBounded g
      → n ≤ u8_max
      → IsBounded (record g { no_progress = n; last_progress = last })
  counted g n last b h = record {
    observations = b.observations;
    failures = b.failures;
    no_progress = h;
  }

  feedback_failed-IsBounded :
      (kind : Option CallKind) (fingerprint : Bytes) (revision : ℕ) (g : LoopGuardrails Value)
      → IsBounded g
      → IsBounded (feedback_failed kind fingerprint revision g).0
  feedback_failed-IsBounded kind fingerprint revision g b =
      let more =
        counted g (saturating_add u8_max g.no_progress 1) g.last_progress b (ground arith) in
      elim (Bool-cases (is_some kind && any (is_tripped fingerprint revision) g.failures)) [
        | inl e ↦ rw e b
        | inr e ↦ rw e more
      ]

  feedback_progress-IsBounded :
      (after : WorkflowObservation) (g : LoopGuardrails Value)
      → IsBounded g
      → IsBounded (feedback_progress after g).0
  feedback_progress-IsBounded after g b =
      let reset = counted g 0 g.last_progress b (omega arith) in ground arith

  noted-IsBounded :
      (progress : Bytes) (before after : WorkflowObservation) (g : LoopGuardrails Value)
      → IsBounded g
      → IsBounded (note_progress progress before after g)
  noted-IsBounded progress before after g b =
      counted g _ (some progress) b (note_bound _ g.no_progress)

  -- What a result leaves is within the bounds where the guardrails were.
  pub observe-IsBounded :
      (hash : Bytes → Bytes) (kind : Option CallKind) (fingerprint : Bytes)
      (result : ToolResult Value) (before after : WorkflowObservation) (g : LoopGuardrails Value)
      → IsBounded g
      → IsBounded (observe hash kind fingerprint result before after g).0
  unfolding observe
  observe-IsBounded hash kind fingerprint result before after g b =
      let folded = fold_result-IsBounded kind fingerprint after.workspace_revision result g b in
      either_first (not result.ok) _ _
        (feedback_failed-IsBounded kind fingerprint after.workspace_revision _ folded)
        (feedback_progress-IsBounded after
          (note_progress (progress_fingerprint hash after result) before after
            (fold_result kind fingerprint after.workspace_revision result g))
          (noted-IsBounded (progress_fingerprint hash after result) before after _ folded))

pub new_guardrails-IsBounded : {Value : Type 0} → IsBounded (new_guardrails Value)
unfolding new_guardrails
new_guardrails-IsBounded = record {
  observations = omega arith;
  failures = omega arith;
  no_progress = omega arith;
}
