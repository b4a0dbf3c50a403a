-- ===== src/Permission.antt =====
-- crates/aether-core/src/permissions.rs: permission classes, the policy and the engine that applies
-- it; and `ExecutionPermit` of crates/aether-core/src/tools.rs. The JSON value that a request shows
-- to the user is a parameter.
pub mod Broker
pub mod Policy
pub mod Tests
use aether_fx.Base.{
  ℕ, ◌==◌, Bool, true, false, not, ◌&&◌, ◌||◌, ◌≡◌, ◌↔◌, Option, none, some, Bytes, bytes_eq, codes,
  arith, if◌then◌else◌,
}
use aether_fx.CoreError.{CoreResult, ok, err, permission_required, permission_denied}

pub data PermissionClass : Type 0 where
  read_only workspace_write process_execute process_persistent git_mutate : PermissionClass
  outside_workspace network_mutation browser_read browser_action : PermissionClass

-- The place of a class in the declaration of the enum, by which the derived `==` compares.
abbrev class_tag : PermissionClass → ℕ
class_tag read_only = 0
class_tag workspace_write = 1
class_tag process_execute = 2
class_tag process_persistent = 3
class_tag git_mutate = 4
class_tag outside_workspace = 5
class_tag network_mutation = 6
class_tag browser_read = 7
class_tag browser_action = 8

pub class_eq : PermissionClass → PermissionClass → Bool
class_eq a b = class_tag a == class_tag b

-- `Display`.
pub class_name : PermissionClass → Bytes
class_name read_only = codes "read_only"
class_name workspace_write = codes "workspace_write"
class_name process_execute = codes "process_execute"
class_name process_persistent = codes "process_persistent"
class_name git_mutate = codes "git_mutate"
class_name outside_workspace = codes "outside_workspace"
class_name network_mutation = codes "network_mutation"
class_name browser_read = codes "browser_read"
class_name browser_action = codes "browser_action"

pub data PermissionDecision : Type 0 where
  allow_once allow_session deny : PermissionDecision

pub record PermissionRequest (Value : Type 0) : Type 0 where
  pub call_id : Bytes
  pub tool : Bytes
  pub class : PermissionClass
  pub operation : Bytes
  pub target : Option Bytes
  pub details : Value

pub record PermissionPolicy : Type 0 where
  pub read_only : Bool
  pub workspace_write : Bool
  pub process_execute : Bool
  pub process_persistent : Bool
  pub git_mutate : Bool
  pub outside_workspace : Bool
  pub network_mutation : Bool
  pub browser_read : Bool
  pub browser_action : Bool

pub default_policy : PermissionPolicy
default_policy = record {
  read_only = true;
  workspace_write = false;
  process_execute = false;
  process_persistent = false;
  git_mutate = false;
  outside_workspace = false;
  network_mutation = false;
  browser_read = false;
  browser_action = false;
}

pub allow_all : PermissionPolicy
allow_all = record {
  read_only = true;
  workspace_write = true;
  process_execute = true;
  process_persistent = true;
  git_mutate = true;
  outside_workspace = true;
  network_mutation = true;
  browser_read = true;
  browser_action = true;
}

pub allows : PermissionPolicy → PermissionClass → Bool
allows p PermissionClass.read_only = p.read_only
allows p PermissionClass.workspace_write = p.workspace_write
allows p PermissionClass.process_execute = p.process_execute
allows p PermissionClass.process_persistent = p.process_persistent
allows p PermissionClass.git_mutate = p.git_mutate
allows p PermissionClass.outside_workspace = p.outside_workspace
allows p PermissionClass.network_mutation = p.network_mutation
allows p PermissionClass.browser_read = p.browser_read
allows p PermissionClass.browser_action = p.browser_action

pub requires_confirmation : {Value : Type 0} → PermissionPolicy → PermissionRequest Value → Bool
requires_confirmation policy request = not (allows policy request.class)

pub authorize :
    {Value : Type 0} → PermissionPolicy → PermissionRequest Value → CoreResult (Unit {0})
authorize policy request =
    if not (requires_confirmation policy request)
    then ok tt
    else err (permission_required request.operation (class_name request.class))

pub record ExecutionPermit : Type 0 where
  pub call_id : Bytes
  pub tool : Bytes
  pub class : PermissionClass

abbrev unbound_permit : Bytes
unbound_permit = codes "execution permit is not bound to this call, tool, and permission class"

pub validate : ExecutionPermit → Bytes → Bytes → PermissionClass → CoreResult (Unit {0})
validate permit call_id tool class =
    if not (bytes_eq permit.call_id call_id)
      || not (bytes_eq permit.tool tool)
      || not (class_eq permit.class class)
    then err (permission_denied tool unbound_permit)
    else ok tt
