-- ===== src/Permission/Policy.antt =====
-- What the policy engine and the permits let through.
use aether_fx.Base.{◌≡◌, ◌↔◌, Bytes, bytes_eq_iff, arith, true}
use aether_fx.CoreError.{ok}
use aether_fx.Permission.{
  PermissionClass, PermissionRequest, ExecutionPermit, default_policy, allow_all, allows, authorize,
  requires_confirmation, validate, class_eq,
}

pub class_eq_iff : (a b : PermissionClass) → (class_eq a b ≡ true) ↔ (a ≡ b)
unfolding class_eq
class_eq_iff PermissionClass.read_only b = ground arith
class_eq_iff _ b = ground arith

-- The default policy authorizes exactly the requests of the read-only class, and the policy that
-- allows all authorizes every request.
authorize-default_policy :
    {Value : Type 0} (request : PermissionRequest Value)
    → ((authorize default_policy request ≡ ok tt) ↔ (request.class ≡ PermissionClass.read_only))
      × (authorize allow_all request ≡ ok tt)
unfolding authorize requires_confirmation allows default_policy allow_all
authorize-default_policy request = ground arith

-- A permit is accepted exactly for the call, the tool and the class that it was issued for.
pub validate_iff :
    (permit : ExecutionPermit) (call_id tool : Bytes) (class : PermissionClass)
    → (validate permit call_id tool class ≡ ok tt)
      ↔ ((permit.call_id ≡ call_id) × (permit.tool ≡ tool) × (permit.class ≡ class))
unfolding validate
validate_iff permit call_id tool class = ground (
  arith,
  bytes_eq_iff permit.call_id call_id,
  bytes_eq_iff permit.tool tool,
  class_eq_iff permit.class class,
)
