-- ===== src/Guardrails/Circuit.antt =====
-- When the circuit for repeated failures trips.
use aether_fx.Base.{
  ℕ, ◌≤◌, Bool, true, false, Option, some, List, [], ◌∷◌, Bytes, length, any, All, Bool-cases,
  Option-cases, ◌≡◌, ◌∙◌, refl, ap, inl, inr, arith,
}
use aether_fx.Tools.Action.{PreparedAction, ToolResult, failure}
use aether_fx.Guardrails.{
  CallKind, FailureObservation, WorkflowObservation, LoopGuardrails, prepared_kind, find_last,
  is_tripped, circuit, cached, first_of, is_observed, preflight_as, repeated_failure,
  preflight_failure_fingerprint, preflight_prepared, no_progress_limit,
}
use aether_fx.Guardrails.Observe.Tries.{tries-tripped, Failed, observe_all, tries-observe_all}

find_last-found :
    {A : Type 0} (p : A → Bool) (xs : List A)
    → any p xs ≡ true
    → (x : A) × (find_last p xs ≡ some x)
find_last-found p [] h = absurd (cc)
find_last-found p (x ∷ xs) h = elim (Option-cases (find_last p xs)) [
  | inr (y, e) ↦ (y, rw e refl)
  | inl n ↦ elim (Bool-cases (p x)) [
    | inl t ↦ (x, rw (n, t) refl)
    | inr f ↦ let (y, e) = find_last-found p xs (ground arith) in absurd (cc)
  ]
]

pub repeated-ok :
    {Value : Type 0} (call_id : Bytes) (item : FailureObservation Value)
    → ((repeated_failure call_id item).ok ≡ false)
      × ((repeated_failure call_id item).call_id ≡ call_id)
unfolding failure
repeated-ok call_id item = elim (Option-cases item.result.error) [
  | inl n ↦ rw n (refl, refl)
  | inr (e, h) ↦ rw h (refl, refl)
]

-- A read or a verification that failed three times or more in a row at a revision is not executed
-- again at that revision, whatever was observed before: the preflight answers it with a failure of
-- its own call.
pub preflight_prepared-repeated :
    {Value : Type 0} (hash : Bytes → Bytes) (action : PreparedAction Value) (kind : CallKind)
    (revision : ℕ) (steps : List (ToolResult Value × WorkflowObservation × WorkflowObservation))
    (g : LoopGuardrails Value)
    → prepared_kind action.classification ≡ some kind
    → All (Failed revision) steps
    → no_progress_limit ≤ length steps
    → (result : ToolResult Value) × ((preflight_prepared
          (observe_all hash action steps g)
          action
          revision).1
        ≡ some result)
      × (result.ok ≡ false)
      × (result.call_id ≡ action.call_id)
unfolding preflight_prepared preflight_failure_fingerprint
preflight_prepared-repeated hash action kind revision steps g k f h =
    let g' = observe_all hash action steps g in
    let again : LoopGuardrails _ → LoopGuardrails _ × Option (ToolResult _) = λ x.
      cached x action revision
        (find_last (is_observed action.fingerprint revision) x.observations) in
    let enough = tries-observe_all hash action kind revision steps g k f in
    let tripped =
      tries-tripped action.fingerprint revision g'.failures (omega (arith, enough, h)) in
    let (item, e) = find_last-found (is_tripped action.fingerprint revision) g'.failures tripped in
    let (failed, own) = repeated-ok action.call_id item in
    (
      repeated_failure action.call_id item,
      ap (λ o. (preflight_as g' action revision o).1) k
          ∙ ap (λ o. (first_of (circuit g' action.call_id o) (again g')).1) e,
      failed,
      own,
    )
