-- ===== src/Events.antt =====
-- crates/aether-core/src/events.rs: the events that the agent sends to its consumer.
use aether_fx.Base.{ℕ, Bool, Option, Bytes}
use aether_fx.BoundedText.{BoundedText}
use aether_fx.Permission.{PermissionDecision, PermissionRequest}

pub record UsageMetadata : Type 0 where
  pub input_tokens : Option ℕ
  pub output_tokens : Option ℕ
  pub total_tokens : Option ℕ

pub data AgentEvent (Value : Type 0) : Type 0 where
  text_delta : BoundedText → AgentEvent Value
  tool_started : (call_id name permission operation : Bytes) → Option Bytes → AgentEvent Value
  permission_requested : PermissionRequest Value → AgentEvent Value
  permission_resolved : Bytes → PermissionDecision → AgentEvent Value
  tool_output : Bytes → BoundedText → AgentEvent Value
  tool_finished : Bytes → Bool → AgentEvent Value
  usage : UsageMetadata → AgentEvent Value
  warning : BoundedText → AgentEvent Value
  error : BoundedText → AgentEvent Value
  done : AgentEvent Value
