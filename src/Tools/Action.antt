-- ===== src/Tools/Action.antt =====
-- crates/aether-core/src/tools.rs: prepared actions and tool results. The JSON value of an action
-- is a parameter; the typed input and the command effects that ride along are not read here.
use aether_fx.Base.{ℕ, Bool, false, Option, none, some, List, Bytes}
use aether_fx.BoundedText
use aether_fx.BoundedText.{BoundedText}
use aether_fx.Permission.{PermissionClass, PermissionRequest}
use aether_fx.Tools.{ToolFootprint}

pub data ActionClassification : Type 0 where
  read mutation verification other : ActionClassification

pub record ActionRequirements : Type 0 where
  pub permission : PermissionClass
  pub user_authorization : Bool
  pub current_workspace_evidence : Bool

pub data EvidenceProvenance : Type 0 where
  user repository tool_output network model : EvidenceProvenance

pub record PreparedAction (Value : Type 0) : Type 0 where
  pub call_id : Bytes
  pub tool : Bytes
  pub normalized_input : Value
  pub fingerprint : Bytes
  pub effects : ToolFootprint
  pub requirements : ActionRequirements
  pub paths : List Bytes
  pub classification : ActionClassification
  pub provenance : EvidenceProvenance
  pub permission_request : Option (PermissionRequest Value)

pub record ToolErrorInfo : Type 0 where
  pub code : Bytes
  pub message : Bytes
  pub retryable : Bool

pub record ToolResult (Value : Type 0) : Type 0 where
  pub call_id : Bytes
  pub ok : Bool
  pub output : BoundedText
  pub payload : Option Value
  pub error : Option ToolErrorInfo

abbrev pub default_max_output_bytes : ℕ
default_max_output_bytes = 65536

-- `ToolResult::failure`.
unfoldable pub failure :
    (Value : Type 0) → (call_id code message : Bytes) → Bool → ℕ → ToolResult Value
failure Value call_id code message retryable max_bytes = record {
  call_id = call_id;
  ok = false;
  output = BoundedText.new message max_bytes;
  payload = none;
  error = some (record {
    code = code;
    message = (BoundedText.new message max_bytes).text;
    retryable = retryable;
  });
}
