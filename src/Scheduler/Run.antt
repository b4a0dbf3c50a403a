-- ===== src/Scheduler/Run.antt =====
-- crates/aether-agent/src/scheduler.rs, `execute_prepared_tool_calls_with_gate`: the rounds in
-- which the selected calls start together and are awaited together.
pub mod Batch
pub mod Turns
pub mod InTurn
pub mod Outcome
pub mod Complete
pub mod Step
use aether_fx.Base.{
  ℕ, zero, suc, ◌+◌, Bool, true, false, not, ◌&&◌, Option, none, some, is_some, List, [], ◌∷◌, ◌++◌,
  map, Bytes, codes, length, get_elem?, set, ltb, if◌then◌else◌,
}
use aether_fx.Events.{tool_started, tool_output, tool_finished}
use aether_fx.Permission.{ExecutionPermit}
use aether_fx.Tools.Action.{PreparedAction, ToolResult, failure, default_max_output_bytes}
use aether_fx.Scheduler.{
  ScheduledCall, ScheduledToolResult, AgentError, cancelled, tool, World, M, ◌>>=◌, ◌>>◌, return,
  fail, send_event,
}
use aether_fx.Scheduler.Select.{select_pending_calls}
use aether_fx.Scheduler.Prepare.{prepare_calls}

-- A completed call: the action, whether it was executed, and the result.
pub record Completed (Value : Type 0) : Type 0 where
  pub action : PreparedAction Value
  pub executed : Bool
  pub result : ToolResult Value

pub tool_panic_result : (Value : Type 0) → Bytes → ToolResult Value
unfolding failure
tool_panic_result Value call_id =
    failure Value call_id (codes "operation_failed") (codes "tool task panicked") false
      default_max_output_bytes

pub denied_result : (Value : Type 0) → Bytes → ToolResult Value
unfolding failure
denied_result Value call_id =
    failure Value call_id (codes "permission_denied")
      (codes "user denied permission for this operation") false default_max_output_bytes

module _ {Value : Type 0} where
  abbrev pub or_panic : Bytes → Option (ToolResult Value) → ToolResult Value
  or_panic call_id none = tool_panic_result Value call_id
  or_panic call_id (some result) = result

  abbrev pub result_of :
      World Value
      → ℕ
      → PreparedAction Value
      → Option (ToolResult Value)
      → Option ExecutionPermit
      → ToolResult Value
  result_of w round action (some result) permit = result
  result_of w round action none none = denied_result Value action.call_id
  result_of w round action none (some permit) =
      or_panic action.call_id (w.execute round action permit)

  -- What a slot of the batch of a round ends with.
  pub complete : World Value → ℕ → ScheduledCall Value → Completed Value
  complete w round call = record {
    action = call.action;
    executed = is_some call.permit && not (is_some call.preflight);
    result = result_of w round call.action call.preflight call.permit;
  }

  abbrev joined : Option (Option (ScheduledCall Value)) → Option (ScheduledCall Value)
  joined none = none
  joined (some c) = c

  abbrev pub taken :
      List ℕ
      → List (Option (ScheduledCall Value))
      → Option (ScheduledCall Value)
      → Option (List (ScheduledCall Value) × List (Option (ScheduledCall Value)))
      → Option (List (ScheduledCall Value) × List (Option (ScheduledCall Value)))
  taken rest calls none later = none
  taken rest calls (some call) none = none
  taken rest calls (some call) (some (batch, left)) = some (call ∷ batch, left)

  -- `calls[index].take()` for each selected index; `none` where a call is not there.
  pub take_selected :
      List ℕ
      → List (Option (ScheduledCall Value))
      → Option (List (ScheduledCall Value) × List (Option (ScheduledCall Value)))
  take_selected [] calls = some ([], calls)
  take_selected (i ∷ rest) calls =
      taken rest calls (joined (get_elem? calls i)) (take_selected rest (set calls i none))

  pub start_all : World Value → List (ScheduledCall Value) → M Value (Unit {0})
  start_all w [] = return tt
  start_all w (call ∷ calls) = do
    send_event w
        (tool_started call.action.call_id call.action.tool call.permission call.action.tool none)
    start_all w calls

  pub report_all : World Value → List (Completed Value) → M Value (Unit {0})
  report_all w [] = return tt
  report_all w (c ∷ cs) = do
    send_event w (tool_output c.action.call_id c.result.output)
    send_event w (tool_finished c.action.call_id c.result.ok)
    report_all w cs

  abbrev pub run_batch :
      World Value
      → ℕ
      → Option (List (ScheduledCall Value) × List (Option (ScheduledCall Value)))
      → M Value (List (Completed Value) × List (Option (ScheduledCall Value)))
  run_batch w round none = fail (tool (codes "tool scheduler lost a pending call"))
  run_batch w round (some (batch, left)) = do
    start_all w batch
    if w.cancelled_batch round then fail cancelled else (do
      let results = map (complete w round) batch
      report_all w results
      return (results, left))

  abbrev pub run_selected :
      World Value
      → ℕ
      → List (Option (ScheduledCall Value))
      → List ℕ
      → M Value (List (Completed Value) × List (Option (ScheduledCall Value)))
  run_selected w round calls [] = fail (tool (codes "tool dependency scheduler made no progress"))
  run_selected w round calls (i ∷ rest) = run_batch w round (take_selected (i ∷ rest) calls)

  pub run_round :
      World Value
      → ℕ
      → List (Option (ScheduledCall Value))
      → M Value (List (Completed Value) × List (Option (ScheduledCall Value)))
  unfolding start_all report_all take_selected complete
  run_round w round calls =
      if w.cancelled_round round
      then fail cancelled
      else run_selected w round calls (select_pending_calls calls)

  -- `while completed < calls.len()`, on fuel; the round is the place in the world.
  pub run_loop :
      World Value
      → ℕ
      → ℕ
      → ℕ
      → List (Option (ScheduledCall Value))
      → List (Completed Value)
      → M Value (List (Completed Value))
  run_loop w zero round completed calls outputs = fail (tool (codes "out of fuel"))
  run_loop w (suc fuel) round completed calls outputs = elim (ltb completed (length calls)) [
    | false ↦ return outputs
    | true ↦ run_round w round calls >>= λ r.
        run_loop w fuel (suc round) (completed + length r.0) r.1 (outputs ++ r.0)
  ]

  abbrev pub to_result : Completed Value → ScheduledToolResult Value
  to_result c = record {
    action = c.action;
    result = c.result;
    executed = c.executed;
    planned = false;
    planner_actions = 0;
  }

  -- One round for each call, and one that sees that all are done, is fuel enough.
  pub execute_prepared_tool_calls :
      World Value → List (PreparedAction Value) → M Value (List (ScheduledToolResult Value))
  execute_prepared_tool_calls w actions = do
    calls ← prepare_calls w actions
    outputs ← run_loop w (suc (length calls)) 0 0 calls []
    return (map to_result outputs)
