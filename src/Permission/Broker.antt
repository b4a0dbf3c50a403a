-- ===== src/Permission/Broker.antt =====
-- crates/aether-agent/src/permission.rs: the brokers that decide a request at run time. A oneshot
-- channel is a number, and `resolved` lists what its receiver finishes with: the value sent, or the
-- `Deny` of `unwrap_or` once the sender is dropped. `poisoned` is the state of the mutex.
pub mod Grants
pub mod Receivers
pub mod Tests
use aether_fx.Base.{
  ℕ, suc, Bool, true, false, not, ◌&&◌, Option, none, some, List, [], ◌∷◌, Bytes, bytes_eq, lookup,
  remove, insert, any, if◌then◌else◌,
}
use aether_fx.Permission.{
  PermissionClass, class_eq, PermissionDecision, allow_once, allow_session, deny, PermissionRequest,
}

-- What `decide` returns: a decision at hand, or the receiver of a channel.
pub data PermissionFuture : Type 0 where
  ready : PermissionDecision → PermissionFuture
  receive : ℕ → PermissionFuture

pub record PendingPermission (Value : Type 0) : Type 0 where
  pub request : PermissionRequest Value
  pub sender : ℕ

pub record Broker (Value : Type 0) : Type 0 where
  pub session_grants : List (Bytes × PermissionClass)
  pub pending : List (Bytes × PendingPermission Value)
  pub poisoned : Bool
  pub next_channel : ℕ
  pub resolved : List (ℕ × PermissionDecision)

-- `NoPermissionBroker` and `AllowAllPermissionBroker`, which never prompt.
pub decide_none : {Value : Type 0} → PermissionRequest Value → PermissionFuture
decide_none request = ready deny

pub decide_all : {Value : Type 0} → PermissionRequest Value → PermissionFuture
decide_all request = ready allow_once

abbrev pub is_grant : Bytes → PermissionClass → Bytes × PermissionClass → Bool
is_grant tool class (t, c) = bytes_eq t tool && class_eq c class

-- `HashSet::insert`.
abbrev pub insert_grant :
    Bytes × PermissionClass → List (Bytes × PermissionClass) → List (Bytes × PermissionClass)
insert_grant (tool, class) grants =
    if any (is_grant tool class) grants then grants else (tool, class) ∷ grants

module _ {Value : Type 0} where
  -- A dropped sender ends its receiver with `Deny`.
  abbrev pub drop_sender :
      Option (PendingPermission Value)
      → List (ℕ × PermissionDecision)
      → List (ℕ × PermissionDecision)
  drop_sender none log = log
  drop_sender (some p) log = (p.sender, deny) ∷ log

  pub has_session_grant : Broker Value → Bytes → PermissionClass → Bool
  has_session_grant b tool class = not b.poisoned && any (is_grant tool class) b.session_grants

  pub needs_prompt : Broker Value → PermissionRequest Value → Bool
  needs_prompt b request = not (has_session_grant b request.tool request.class)

  pub decide : Broker Value → PermissionRequest Value → Broker Value × PermissionFuture
  unfolding has_session_grant
  decide b request =
      if has_session_grant b request.tool request.class
      then (b, ready allow_session)
      else if b.poisoned
      then (b, ready deny)
      else (
        record b {
          pending =
              insert request.call_id (record { request = request; sender = b.next_channel })
                b.pending;
          next_channel = suc b.next_channel;
          resolved = drop_sender (lookup request.call_id b.pending) b.resolved;
        },
        receive b.next_channel,
      )

  abbrev pub grants_after :
      PermissionDecision
      → PermissionRequest Value
      → List (Bytes × PermissionClass)
      → List (Bytes × PermissionClass)
  grants_after allow_session request grants =
      if not (class_eq request.class PermissionClass.browser_action)
      then insert_grant (request.tool, request.class) grants
      else grants
  grants_after allow_once request grants = grants
  grants_after deny request grants = grants

  -- `open` says whether the receiver still waits, which `send` reports.
  abbrev pub resolve_pending :
      Broker Value
      → Bytes
      → PermissionDecision
      → Bool
      → Option (PendingPermission Value)
      → Broker Value × Bool
  resolve_pending b call_id decision is_open none = (b, false)
  resolve_pending b call_id decision is_open (some p) = (
    record b {
      pending = remove call_id b.pending;
      session_grants = grants_after decision p.request b.session_grants;
      resolved = if is_open then (p.sender, decision) ∷ b.resolved else b.resolved;
    },
    is_open,
  )

  pub resolve : Broker Value → Bytes → PermissionDecision → Bool → Broker Value × Bool
  resolve b call_id decision is_open =
      if b.poisoned
      then (b, false)
      else resolve_pending b call_id decision is_open (lookup call_id b.pending)

  pub cancel : Broker Value → Bytes → Broker Value
  cancel b call_id = if b.poisoned then b else record b {
    pending = remove call_id b.pending;
    resolved = drop_sender (lookup call_id b.pending) b.resolved;
  }

pub new_broker : (Value : Type 0) → Broker Value
new_broker Value = record {
  session_grants = [];
  pending = [];
  poisoned = false;
  next_channel = 0;
  resolved = [];
}

-- What may happen to a broker, in any order: the agent asks or cancels, the user answers.
pub data Event (Value : Type 0) : Type 0 where
  asks : PermissionRequest Value → Event Value
  answers : Bytes → PermissionDecision → Bool → Event Value
  cancels : Bytes → Event Value

module _ {Value : Type 0} where
  pub step : Broker Value → Event Value → Broker Value
  unfolding decide resolve cancel
  step b (asks request) = (decide b request).0
  step b (answers call_id decision is_open) = (resolve b call_id decision is_open).0
  step b (cancels call_id) = cancel b call_id

  pub run : Broker Value → List (Event Value) → Broker Value
  run b [] = b
  run b (e ∷ es) = run (step b e) es
