-- ===== src/Guardrails/Cache.antt =====
-- Which observations are replayed.
use aether_fx.Base.{
  ℕ, Bool, true, Option, none, some, List, [], ◌∷◌, bytes_eq_iff, Option-cases, ◌≡◌, ◌⊎◌, refl, sym,
  ap, inl, inr, arith,
}
use aether_fx.Tools.Action.{PreparedAction, ToolResult}
use aether_fx.Guardrails.{
  CallKind, Observation, FailureObservation, LoopGuardrails, find_last, is_observed,
  repeated_failure, replayed, circuit, cached, first_of, preflight_as,
  preflight_failure_fingerprint, preflight_prepared,
}
use aether_fx.Guardrails.Circuit.{repeated-ok}

abbrev pub In : {A : Type 0} → A → List A → Type 0
In x [] = ⊥
In x (y ∷ ys) = (x ≡ y) ⊎ In x ys

find_last-In :
    {A : Type 0} (p : A → Bool) (xs : List A) (x : A)
    → find_last p xs ≡ some x
    → In x xs × (p x ≡ true)
find_last-In p [] x e = absurd (cc)
find_last-In p (y ∷ ys) x e = elim (Option-cases (find_last p ys)) [
  | inr (z, f) ↦ let (m, t) = find_last-In p ys z f in ground arith
  | inl n ↦ ground arith
]

module _ {Value : Type 0} (g : LoopGuardrails Value) (action : PreparedAction Value) (revision : ℕ)
    (result : ToolResult Value) where
  -- What a replayed answer carries.
  abbrev pub Current : Type 0
  Current =
      (item : Observation Value) × In item g.observations
      × (item.revision ≡ revision)
      × (item.fingerprint ≡ action.fingerprint)
      × (result.payload ≡ item.result.payload)
      × (result.call_id ≡ action.call_id)

  cached-Current :
      (o : Option (Observation Value))
      → find_last (is_observed action.fingerprint revision) g.observations ≡ o
      → (cached g action revision o).1 ≡ some result
      → Current
  cached-Current none f e = absurd (cc)
  cached-Current (some item) f e =
      let (m, t) = find_last-In (is_observed action.fingerprint revision) g.observations item f in
      let same : replayed action revision item ≡ result = cc in
      (
        item,
        m,
        ground arith,
        ground (arith, bytes_eq_iff item.fingerprint action.fingerprint),
        sym (ap (λ r. r.payload) same),
        sym (ap (λ r. r.call_id) same),
      )

  first-Current :
      (o : Option (FailureObservation Value))
      → (first_of (circuit g action.call_id o) (
          cached g action revision
            (find_last (is_observed action.fingerprint revision) g.observations))).1
        ≡ some result
      → result.ok ≡ true
      → Current
  first-Current none e h = cached-Current _ refl e
  first-Current (some item) e h =
      let same : repeated_failure action.call_id item ≡ result = cc in
      let failed = (repeated-ok action.call_id item).0 in
      let ok = ap (λ r. r.ok) same in absurd (cc)

  kind-Current :
      (k : Option CallKind)
      → (preflight_as g action revision k).1 ≡ some result
      → result.ok ≡ true
      → Current
  unfolding preflight_failure_fingerprint
  kind-Current none e h = absurd (cc)
  kind-Current (some kind) e h = first-Current _ e h

-- Only a current observation is replayed: where the preflight answers with success, the answer
-- carries the data of a stored observation of the same action at the same revision.
pub preflight_prepared-Current :
    {Value : Type 0} (g : LoopGuardrails Value) (action : PreparedAction Value) (revision : ℕ)
    (result : ToolResult Value)
    → (preflight_prepared g action revision).1 ≡ some result
    → result.ok ≡ true
    → Current g action revision result
unfolding preflight_prepared
preflight_prepared-Current g action revision result e h =
    kind-Current g action revision result _ e h
