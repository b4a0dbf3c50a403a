-- ===== src/Guardrails/Observe/Tries.antt =====
-- How often an action failed at a revision, as the failures record it.
use aether_fx.Base.{
  ℕ, ◌+◌, ◌≤◌, min, true, false, some, List, [], ◌∷◌, ◌++◌, Bytes, length, drop, any, modify_first,
  saturating_add, u8_max, ◌==◌, bytes_eq_self, if◌then◌else◌, Bool-cases, All, ◌≡◌, refl, inl, inr,
  arith,
}
use aether_fx.Tools.Action.{PreparedAction, ToolResult}
use aether_fx.Guardrails.{
  CallKind, FailureObservation, WorkflowObservation, LoopGuardrails, prepared_kind, is_failure,
  is_tripped, max_failure_observations, no_progress_limit,
}
use aether_fx.Guardrails.Observe.{tried_again, fold_failure, observe, observe_prepared}

module _ {Value : Type 0} (fingerprint : Bytes) (revision : ℕ) where
  -- The attempts of the first record of the action at the revision, 0 where there is none.
  abbrev pub tries : List (FailureObservation Value) → ℕ
  tries [] = 0
  tries (x ∷ xs) = if is_failure fingerprint revision x then x.attempts else tries xs

  tries-append :
      (xs : List (FailureObservation Value)) (x : FailureObservation Value)
      → any (is_failure fingerprint revision) xs ≡ false
      → is_failure fingerprint revision x ≡ true
      → tries (xs ++ x ∷ []) ≡ x.attempts
  tries-append [] x n e = rw e refl
  tries-append (y ∷ ys) x n e = elim (Bool-cases (is_failure fingerprint revision y)) [
    | inl h ↦ absurd (ground arith)
    | inr h ↦ rw h (tries-append ys x (ground arith) e)
  ]

  tries-none :
      (xs : List (FailureObservation Value))
      → any (is_failure fingerprint revision) xs ≡ false
      → tries xs ≡ 0
  tries-none [] n = refl
  tries-none (y ∷ ys) n = elim (Bool-cases (is_failure fingerprint revision y)) [
    | inl h ↦ absurd (ground arith)
    | inr h ↦ rw h (tries-none ys (ground arith))
  ]

  none-drop :
      (xs : List (FailureObservation Value))
      → any (is_failure fingerprint revision) xs ≡ false
      → any (is_failure fingerprint revision) (drop 1 xs) ≡ false
  none-drop [] n = refl
  none-drop (y ∷ ys) n = ground arith

  tries-modify_first :
      (result : ToolResult Value) (xs : List (FailureObservation Value))
      → any (is_failure fingerprint revision) xs ≡ true
      → tries (modify_first (is_failure fingerprint revision) (tried_again result) xs)
        ≡ saturating_add u8_max (tries xs) 1
  tries-modify_first result [] n = absurd (cc)
  tries-modify_first result (y ∷ ys) n = elim (Bool-cases (is_failure fingerprint revision y)) [
    | inl h ↦ rw (h, h) refl
    | inr h ↦ rw (h, h) (tries-modify_first result ys (ground arith))
  ]

  tries-fold_failure :
      (result : ToolResult Value) (xs : List (FailureObservation Value))
      → tries (fold_failure fingerprint revision result xs) ≡ saturating_add u8_max (tries xs) 1
  unfolding fold_failure
  tries-fold_failure result xs = elim (Bool-cases (any (is_failure fingerprint revision) xs)) [
    | inl e ↦ rw e (tries-modify_first result xs e)
    | inr n ↦
        let item : FailureObservation Value = record {
          fingerprint = fingerprint;
          revision = revision;
          attempts = 1;
          result = result;
        } in
        let own : is_failure fingerprint revision item ≡ true =
          ground (arith, bytes_eq_self fingerprint) in
        let kept = tries-append xs item n own in
        let moved = tries-append (drop 1 xs) item (none-drop xs n) own in
        elim (Bool-cases (length xs == max_failure_observations)) [
          | inl full ↦ rw (n, full, moved, tries-none xs n) refl
          | inr room ↦ rw (n, room, kept, tries-none xs n) refl
        ]
  ]

  pub tries-tripped :
      (xs : List (FailureObservation Value))
      → no_progress_limit ≤ tries xs
      → any (is_tripped fingerprint revision) xs ≡ true
  tries-tripped [] h = absurd (omega arith)
  tries-tripped (y ∷ ys) h = let rest = tries-tripped ys in ground arith

-- A failed result with what was known before and after it.
abbrev pub Failed :
    {Value : Type 0} → ℕ → ToolResult Value × WorkflowObservation × WorkflowObservation → Type 0
Failed revision (result, before, after) =
    (result.ok ≡ false) × (after.workspace_revision ≡ revision)

-- The results of one prepared action, observed in order.
pub observe_all :
    {Value : Type 0}
    → (Bytes → Bytes)
    → PreparedAction Value
    → List (ToolResult Value × WorkflowObservation × WorkflowObservation)
    → LoopGuardrails Value
    → LoopGuardrails Value
observe_all hash action [] g = g
observe_all hash action ((result, before, after) ∷ steps) g =
    observe_all hash action steps (observe_prepared hash action result before after g).0

failures-observe :
    {Value : Type 0} (hash : Bytes → Bytes) (kind : CallKind) (fingerprint : Bytes)
    (result : ToolResult Value) (before after : WorkflowObservation) (g : LoopGuardrails Value)
    → result.ok ≡ false
    → (observe hash (some kind) fingerprint result before after g).0.failures
      ≡ fold_failure fingerprint after.workspace_revision result g.failures
unfolding observe
failures-observe hash kind fingerprint result before after g e = ground arith

pub tries-observe_all :
    {Value : Type 0} (hash : Bytes → Bytes) (action : PreparedAction Value) (kind : CallKind)
    (revision : ℕ) (steps : List (ToolResult Value × WorkflowObservation × WorkflowObservation))
    (g : LoopGuardrails Value)
    → prepared_kind action.classification ≡ some kind
    → All (Failed revision) steps
    → min u8_max (tries action.fingerprint revision g.failures + length steps)
      ≤ tries action.fingerprint revision (observe_all hash action steps g).failures
unfolding observe_all observe_prepared
tries-observe_all hash action kind revision [] g k f = omega arith
tries-observe_all hash action kind revision ((result, before, after) ∷ steps) g k ((e, r), fs) =
    let g' = (observe_prepared hash action result before after g).0 in
    let later = tries-observe_all hash action kind revision steps g' k fs in
    let folded : g'.failures ≡ fold_failure action.fingerprint revision result g.failures =
      rw (k, failures-observe hash kind action.fingerprint result before after g e, r) refl in
    let more : tries action.fingerprint revision g'.failures
        ≡ saturating_add u8_max (tries action.fingerprint revision g.failures) 1 =
      rw folded (tries-fold_failure action.fingerprint revision result g.failures) in
    ground (arith, later, more)
