-- ===== src/Guardrails.antt =====
-- crates/aether-agent/src/guardrails.rs: the cache of observations, the circuit for repeated
-- failures and the detection of steps without progress, for prepared actions. The counter
-- `prevented` is a 16-bit atomic; the hash function of progress fingerprints is a parameter.
pub mod Observe
pub mod Circuit
pub mod Cache
pub mod Tests
use aether_fx.Base.{
  ℕ, zero, suc, ◌+◌, ◌/◌, ◌%◌, ◌^◌, Bool, true, false, not, ◌&&◌, ◌||◌, Option, none, some, is_some,
  List, [], ◌∷◌, ◌++◌, Bytes, bytes_eq, codes, length, take, drop, any, modify_first,
  saturating_add, u8_max, u16_max, ltb, leb, ◌==◌, if◌then◌else◌,
}
use aether_fx.BoundedText.{new}
use aether_fx.Tools.Action.{
  ActionClassification, PreparedAction, ToolErrorInfo, ToolResult, failure,
  default_max_output_bytes,
}
use aether_fx.Workflow.{WorkflowPhase}

abbrev pub max_observations : ℕ
max_observations = 64

abbrev pub max_failure_observations : ℕ
max_failure_observations = 16

abbrev pub no_progress_limit : ℕ
no_progress_limit = 3

pub data CallKind : Type 0 where
  observation verification : CallKind

pub record Observation (Value : Type 0) : Type 0 where
  pub fingerprint : Bytes
  pub revision : ℕ
  pub result : ToolResult Value

pub record FailureObservation (Value : Type 0) : Type 0 where
  pub fingerprint : Bytes
  pub revision : ℕ
  pub attempts : ℕ
  pub result : ToolResult Value

pub record WorkflowObservation : Type 0 where
  pub workspace_revision : ℕ
  pub progress : List ℕ
  pub unresolved_failures : Bytes
  pub phase : WorkflowPhase
  pub candidate_files : Bytes

pub record LoopGuardrails (Value : Type 0) : Type 0 where
  pub observations : List (Observation Value)
  pub failures : List (FailureObservation Value)
  pub last_progress : Option Bytes
  pub no_progress : ℕ
  pub prevented : ℕ

pub new_guardrails : (Value : Type 0) → LoopGuardrails Value
new_guardrails Value = record {
  observations = [];
  failures = [];
  last_progress = none;
  no_progress = 0;
  prevented = 0;
}

abbrev pub prepared_kind : ActionClassification → Option CallKind
prepared_kind ActionClassification.read = some observation
prepared_kind ActionClassification.verification = some verification
prepared_kind ActionClassification.mutation = none
prepared_kind ActionClassification.other = none

-- The decimal digits of a 32-bit number, at most ten.
abbrev pub digits : ℕ → ℕ → Bytes
digits zero n = []
digits (suc fuel) n = if ltb n 10 then (48 + n) ∷ [] else digits fuel (n / 10) ++ (48 + n % 10) ∷ []

abbrev pub decimal : ℕ → Bytes
decimal n = digits 10 n

-- `iter().rev().find`.
abbrev pub find_last : {A : Type 0} → (A → Bool) → List A → Option A
find_last p [] = none
find_last p (x ∷ xs) = elim (find_last p xs) [
  | some y ↦ some y
  | none ↦ if p x then some x else none
]

module _ {Value : Type 0} where
  abbrev pub is_failure : Bytes → ℕ → FailureObservation Value → Bool
  is_failure fingerprint revision item =
      item.revision == revision && bytes_eq item.fingerprint fingerprint

  abbrev pub is_tripped : Bytes → ℕ → FailureObservation Value → Bool
  is_tripped fingerprint revision item =
      is_failure fingerprint revision item && leb no_progress_limit item.attempts

  abbrev pub is_observed : Bytes → ℕ → Observation Value → Bool
  is_observed fingerprint revision item =
      item.revision == revision && bytes_eq item.fingerprint fingerprint

  -- The output names the code of the last failure, where it has one.
  abbrev pub with_last_failure : ToolResult Value → Option ToolErrorInfo → ToolResult Value
  with_last_failure result none = result
  with_last_failure result (some error) = record result {
    output =
        new (result.output.text ++ codes "; last failure=" ++ error.code) default_max_output_bytes;
  }

  abbrev pub repeated_failure : Bytes → FailureObservation Value → ToolResult Value
  repeated_failure call_id item =
      with_last_failure
        (failure Value call_id (codes "repeated_failure")
          (codes "guardrail: repeated failure for the same action; change arguments or approach")
          false default_max_output_bytes)
        item.result.error

  abbrev pub count_prevented : LoopGuardrails Value → LoopGuardrails Value
  count_prevented g = record g { prevented = saturating_add u16_max g.prevented 1 }

  -- `fetch_add` wraps around.
  abbrev pub add_prevented : LoopGuardrails Value → LoopGuardrails Value
  add_prevented g = record g { prevented = (g.prevented + 1) % 2 ^ 16 }

  abbrev pub circuit :
      LoopGuardrails Value
      → Bytes
      → Option (FailureObservation Value)
      → LoopGuardrails Value × Option (ToolResult Value)
  circuit g call_id none = (g, none)
  circuit g call_id (some item) = (count_prevented g, some (repeated_failure call_id item))

  pub preflight_failure_fingerprint :
      LoopGuardrails Value → Bytes → Bytes → ℕ → LoopGuardrails Value × Option (ToolResult Value)
  preflight_failure_fingerprint g call_id fingerprint revision =
      circuit g call_id (find_last (is_tripped fingerprint revision) g.failures)

  pub preflight_failure_prepared :
      LoopGuardrails Value
      → PreparedAction Value
      → ℕ
      → LoopGuardrails Value × Option (ToolResult Value)
  preflight_failure_prepared g action revision = elim (prepared_kind action.classification) [
    | none ↦ (g, none)
    | some kind ↦ preflight_failure_fingerprint g action.call_id action.fingerprint revision
  ]

  abbrev pub replayed : PreparedAction Value → ℕ → Observation Value → ToolResult Value
  replayed action revision item = record item.result {
    call_id = action.call_id;
    output =
        new
          (codes "guardrail: redundant "
            ++ action.tool
            ++ codes " skipped; cached observation for workspace revision "
            ++ decimal revision
            ++ codes ":\n"
            ++ item.result.output.text)
          default_max_output_bytes;
  }

  abbrev pub cached :
      LoopGuardrails Value
      → PreparedAction Value
      → ℕ
      → Option (Observation Value)
      → LoopGuardrails Value × Option (ToolResult Value)
  cached g action revision none = (g, none)
  cached g action revision (some item) = (add_prevented g, some (replayed action revision item))

  abbrev pub first_of :
      LoopGuardrails Value × Option (ToolResult Value)
      → LoopGuardrails Value × Option (ToolResult Value)
      → LoopGuardrails Value × Option (ToolResult Value)
  first_of (g, some result) later = (g, some result)
  first_of (g, none) later = later

  abbrev pub preflight_as :
      LoopGuardrails Value
      → PreparedAction Value
      → ℕ
      → Option CallKind
      → LoopGuardrails Value × Option (ToolResult Value)
  preflight_as g action revision none = (g, none)
  preflight_as g action revision (some kind) =
      first_of (preflight_failure_fingerprint g action.call_id action.fingerprint revision) (
        cached g action revision
          (find_last (is_observed action.fingerprint revision) g.observations))

  pub preflight_prepared :
      LoopGuardrails Value
      → PreparedAction Value
      → ℕ
      → LoopGuardrails Value × Option (ToolResult Value)
  unfolding preflight_failure_fingerprint
  preflight_prepared g action revision =
      preflight_as g action revision (prepared_kind action.classification)

  pub has_cached_prepared : LoopGuardrails Value → PreparedAction Value → ℕ → Bool
  has_cached_prepared g action revision =
      is_some (prepared_kind action.classification)
      && any (is_observed action.fingerprint revision) g.observations
