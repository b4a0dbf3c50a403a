-- ===== src/Permission/Tests.antt =====
-- The policy and the permits at concrete requests.
use aether_fx.Base.{◌≡◌, ◌↔◌, codes}
use aether_fx.CoreError.{ok}
use aether_fx.Permission.{PermissionClass, ExecutionPermit, validate}
use aether_fx.Permission.Policy.{validate_iff}

abbrev write_permit : ExecutionPermit
write_permit = record {
  call_id = codes "c1";
  tool = codes "write";
  class = PermissionClass.workspace_write;
}

validate_iff_example :
    (validate write_permit (codes "c1") (codes "write") PermissionClass.git_mutate ≡ ok tt) ↔ (
      (codes "c1" ≡ codes "c1")
      × (codes "write" ≡ codes "write")
      × (PermissionClass.workspace_write ≡ PermissionClass.git_mutate))
validate_iff_example =
    validate_iff write_permit (codes "c1") (codes "write") PermissionClass.git_mutate
