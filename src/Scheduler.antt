-- ===== src/Scheduler.antt =====
-- crates/aether-agent/src/scheduler.rs: the scheduler that runs the tool calls of one step, at most
-- four at a time, without reordering calls that conflict. The tools, the permission broker, the
-- gate, the cancellation token and the consumer of the events are a `World`, a parameter: what they
-- answer at each point where the code asks them.
pub mod Ends
pub mod Select
pub mod Prepare
pub mod Run
pub mod Tests
use aether_fx.Base.{
  ℕ, zero, suc, ◌+◌, Bool, true, false, not, ◌&&◌, ◌||◌, Option, none, some, is_some, List, [], ◌∷◌,
  ◌++◌, Bytes, codes, length, get_elem?, any, ltb, ◌==◌, if◌then◌else◌,
}
use aether_fx.Events.{
  AgentEvent, tool_started, permission_requested, permission_resolved, tool_output, tool_finished,
}
use aether_fx.Permission.{
  PermissionRequest, PermissionDecision, allow_once, allow_session, deny, ExecutionPermit,
  class_name,
}
use aether_fx.Tools.{ToolFootprint, empty_footprint, conflicts}
use aether_fx.Tools.Action.{PreparedAction, ToolResult, failure, default_max_output_bytes}

abbrev pub default_max_parallel_tools : ℕ
default_max_parallel_tools = 4

abbrev pub max_tool_calls_per_step : ℕ
max_tool_calls_per_step = 64

pub record ScheduledCall (Value : Type 0) : Type 0 where
  pub action : PreparedAction Value
  pub permit : Option ExecutionPermit
  pub preflight : Option (ToolResult Value)
  pub footprint : ToolFootprint
  pub permission : Bytes

pub record ScheduledToolResult (Value : Type 0) : Type 0 where
  pub action : PreparedAction Value
  pub result : ToolResult Value
  pub executed : Bool
  pub planned : Bool
  pub planner_actions : ℕ

-- The errors of `AgentError` that scheduling returns.
pub data AgentError : Type 0 where
  event_channel_closed cancelled : AgentError
  tool : Bytes → AgentError

pub data AgentResult {ℓ} (A : Type ℓ) : Type ℓ where
  ok : A → AgentResult A
  err : AgentError → AgentResult A

-- What the code asks of its surroundings. The number is the place of the action in the step, the
-- round of the loop, or the count of events sent before. What a tool answers depends on the round
-- in which it runs, and so on what ran before.
pub record World (Value : Type 0) : Type 0 where
  pub needs_prompt : ℕ → PermissionRequest Value → Bool
  pub decide : ℕ → PermissionRequest Value → PermissionDecision
  pub gate : ℕ → PreparedAction Value → Option (ToolResult Value)
  pub cancelled_before : ℕ → Bool
  pub cancelled_deciding : ℕ → Bool
  pub cancelled_round : ℕ → Bool
  pub cancelled_batch : ℕ → Bool
  -- `none` is a tool that panics. Each tool ends.
  pub execute : ℕ → PreparedAction Value → ExecutionPermit → Option (ToolResult Value)
  pub channel_open : ℕ → Bool

-- A step of the code: the events sent so far, and then more of them and a result.
abbrev pub M : Type 0 → Type 0 → Type 0
M Value A = List (AgentEvent Value) → List (AgentEvent Value) × AgentResult A

abbrev pub after :
    {Value A B : Type 0}
    → List (AgentEvent Value) × AgentResult A
    → (A → M Value B)
    → List (AgentEvent Value) × AgentResult B
after (log, ok a) f = f a log
after (log, err e) f = (log, err e)

infixl 5 ◌>>=◌ ◌>>◌
abbrev pub ◌>>=◌ : {Value A B : Type 0} → M Value A → (A → M Value B) → M Value B
◌>>=◌ m f log = after (m log) f

abbrev pub ◌>>◌ : {Value B : Type 0} → M Value (Unit {0}) → M Value B → M Value B
◌>>◌ m k log = after (m log) (λ _. k)

abbrev pub return : {Value A : Type 0} → A → M Value A
return a log = (log, ok a)

abbrev pub fail : {Value A : Type 0} → AgentError → M Value A
fail e log = (log, err e)

-- `send_event`.
pub send_event : {Value : Type 0} → World Value → AgentEvent Value → M Value (Unit {0})
send_event w event log =
    if w.channel_open (length log)
    then (log ++ event ∷ [], ok tt)
    else (log, err event_channel_closed)

abbrev pub send_if : {Value : Type 0} → World Value → Bool → AgentEvent Value → M Value (Unit {0})
send_if w true event = send_event w event
send_if w false event = return tt
