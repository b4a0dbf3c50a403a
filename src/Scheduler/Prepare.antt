-- ===== src/Scheduler/Prepare.antt =====
-- crates/aether-agent/src/scheduler.rs, `prepare_calls`: the permission decision and the gate's
-- answer for each action, before anything runs. The broker is also told to forget a call whose
-- decision is cut short, which changes nothing here.
pub mod Authority
use aether_fx.Base.{
  ℕ, suc, Bool, true, false, not, ◌&&◌, Option, none, some, is_some, List, [], ◌∷◌, map, codes,
  length, ltb, if◌then◌else◌,
}
use aether_fx.Events.{permission_requested, permission_resolved}
use aether_fx.Permission.{
  PermissionRequest, PermissionDecision, allow_once, allow_session, deny, ExecutionPermit,
  class_name,
}
use aether_fx.Tools.{ToolFootprint, empty_footprint}
use aether_fx.Tools.Action.{PreparedAction, ToolResult}
use aether_fx.Scheduler.{
  ScheduledCall, AgentError, cancelled, tool, World, M, ◌>>=◌, ◌>>◌, return, fail, send_if,
  max_tool_calls_per_step,
}

module _ {Value : Type 0} where
  abbrev pub permit_for :
      PermissionDecision → PreparedAction Value → PermissionRequest Value → Option ExecutionPermit
  permit_for allow_once action request =
      some (record { call_id = action.call_id; tool = action.tool; class = request.class })
  permit_for allow_session action request =
      some (record { call_id = action.call_id; tool = action.tool; class = request.class })
  permit_for deny action request = none

  -- The branch of an action that needs the user's authority.
  pub ask :
      World Value
      → ℕ
      → PreparedAction Value
      → PermissionRequest Value
      → M Value (Option ExecutionPermit)
  ask w i action request = do
    let needs_prompt = w.needs_prompt i request
    send_if w needs_prompt (permission_requested request)
    if w.cancelled_deciding i then fail cancelled else (do
      let decision = w.decide i request
      send_if w needs_prompt (permission_resolved action.call_id decision)
      return (permit_for decision action request))

  abbrev pub obtain :
      World Value
      → ℕ
      → PreparedAction Value
      → Option (PermissionRequest Value)
      → M Value (Option ExecutionPermit)
  obtain w i action none = return (
      some (record {
        call_id = action.call_id;
        tool = action.tool;
        class = action.requirements.permission;
      }))
  obtain w i action (some request) = ask w i action request

  abbrev pub gated :
      World Value → ℕ → PreparedAction Value → Option ExecutionPermit → Option (ToolResult Value)
  gated w i action none = none
  gated w i action (some permit) = w.gate i action

  -- A call that will not execute has the empty footprint.
  abbrev pub scheduled :
      World Value → ℕ → PreparedAction Value → Option ExecutionPermit → ScheduledCall Value
  scheduled w i action permit =
      let preflight = gated w i action permit in
      record {
        action = action;
        permit = permit;
        preflight = preflight;
        footprint =
            if is_some permit && not (is_some preflight) then action.effects else empty_footprint;
        permission = class_name action.requirements.permission;
      }

  pub prepare_call : World Value → ℕ → PreparedAction Value → M Value (ScheduledCall Value)
  unfolding ask
  prepare_call w i action = if w.cancelled_before i then fail cancelled else (do
    permit ← obtain w i action action.permission_request
    return (scheduled w i action permit))

  pub prepare_from :
      World Value → ℕ → List (PreparedAction Value) → M Value (List (ScheduledCall Value))
  prepare_from w i [] = return []
  prepare_from w i (action ∷ actions) = do
    call ← prepare_call w i action
    calls ← prepare_from w (suc i) actions
    return (call ∷ calls)

  pub prepare_calls :
      World Value → List (PreparedAction Value) → M Value (List (Option (ScheduledCall Value)))
  prepare_calls w actions =
      if ltb max_tool_calls_per_step (length actions)
      then fail (tool (codes "tool call batch exceeds the bounded scheduler limit"))
      else (do calls ← prepare_from w 0 actions; return (map some calls))
