-- ===== src/Guardrails/Tests.antt =====
-- A read that fails three times, and one that succeeds and is replayed.
use aether_fx.Base.{
  Bool, true, false, none, some, List, [], ◌∷◌, Bytes, bytes_eq, codes, ◌≡◌, refl, arith,
}
use aether_fx.BoundedText.{empty_text}
use aether_fx.Permission.{PermissionClass}
use aether_fx.Tools.{empty_footprint}
use aether_fx.Tools.Action.{ActionClassification, EvidenceProvenance, PreparedAction, ToolResult}
use aether_fx.Workflow.{WorkflowPhase}
use aether_fx.Guardrails.{
  observation, WorkflowObservation, LoopGuardrails, Observation, new_guardrails, preflight_prepared,
  replayed,
}
use aether_fx.Guardrails.Observe.{observe}
use aether_fx.Guardrails.Observe.Tries.{observe_all}
use aether_fx.Guardrails.Observe.Bounds.{IsBounded, new_guardrails-IsBounded, observe-IsBounded}
use aether_fx.Guardrails.Circuit.{preflight_prepared-repeated}
use aether_fx.Guardrails.Cache.{Current, preflight_prepared-Current}

abbrev reading : PreparedAction (Unit {0})
reading = record {
  call_id = codes "7";
  tool = codes "read";
  normalized_input = tt;
  fingerprint = 1 ∷ 2 ∷ [];
  effects = empty_footprint;
  requirements = record {
    permission = PermissionClass.read_only;
    user_authorization = false;
    current_workspace_evidence = false;
  };
  paths = [];
  classification = ActionClassification.read;
  provenance = EvidenceProvenance.model;
  permission_request = none;
}

abbrev outcome : Bool → ToolResult (Unit {0})
outcome ok = record {
  call_id = codes "6";
  ok = ok;
  output = empty_text;
  payload = some tt;
  error = none;
}

abbrev working : WorkflowObservation
working = record {
  workspace_revision = 4;
  progress = 0 ∷ 0 ∷ 0 ∷ 0 ∷ [];
  unresolved_failures = [];
  phase = WorkflowPhase.inspect;
  candidate_files = [];
}

-- A function in the place of the hash.
abbrev identity : Bytes → Bytes
identity bytes = bytes

abbrev three_failures : List (ToolResult (Unit {0}) × WorkflowObservation × WorkflowObservation)
three_failures =
    (outcome false, working, working)
    ∷ (outcome false, working, working)
    ∷ (outcome false, working, working)
    ∷ []

abbrev seen : Observation (Unit {0})
seen = record { fingerprint = 1 ∷ 2 ∷ []; revision = 4; result = outcome true }

abbrev remembering : LoopGuardrails (Unit {0})
remembering = record {
  observations = seen ∷ [];
  failures = [];
  last_progress = none;
  no_progress = 0;
  prevented = 0;
}

replay_runs : (preflight_prepared remembering reading 4).1 ≡ some (replayed reading 4 seen)
unfolding preflight_prepared bytes_eq
replay_runs = refl

observe-IsBounded_example :
    IsBounded
      (observe identity
        (some observation)
        (1 ∷ 2 ∷ [])
        (outcome true)
        working
        working
        (new_guardrails (Unit {0}))).0
observe-IsBounded_example =
    observe-IsBounded identity (some observation) (1 ∷ 2 ∷ []) (outcome true) working working
      (new_guardrails (Unit {0})) new_guardrails-IsBounded

preflight_prepared-repeated_example :
    (result : ToolResult (Unit {0})) × ((preflight_prepared
        (observe_all identity reading three_failures (new_guardrails (Unit {0})))
        reading
        4).1
      ≡ some result)
    × (result.ok ≡ false)
    × (result.call_id ≡ codes "7")
preflight_prepared-repeated_example =
    preflight_prepared-repeated identity reading observation 4 three_failures
      (new_guardrails (Unit {0})) refl ((refl, refl), ((refl, refl), ((refl, refl), tt)))
      (omega arith)

preflight_prepared-Current_example : Current remembering reading 4 (replayed reading 4 seen)
preflight_prepared-Current_example =
    preflight_prepared-Current remembering reading 4 (replayed reading 4 seen) replay_runs refl
