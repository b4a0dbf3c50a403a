-- ===== src/CoreError.antt =====
-- crates/aether-core/src/error.rs: the typed errors that cross the crates, and their result type.
use aether_fx.Base.{ℕ, Bytes}

pub data CoreError : Type 0 where
  invalid_input : (operation message : Bytes) → CoreError
  path_escape : (path : Bytes) → CoreError
  limit_exceeded : (operation : Bytes) (limit : ℕ) → CoreError
  permission_required : (operation class : Bytes) → CoreError
  permission_denied : (operation reason : Bytes) → CoreError
  resource_limit : (resource : Bytes) (limit : ℕ) → CoreError
  cancelled : CoreError
  unsupported : (operation : Bytes) → CoreError
  feature_unavailable : (feature : Bytes) → CoreError
  io : (operation message : Bytes) → CoreError
  serialization : (operation message : Bytes) → CoreError

pub data CoreResult {ℓ} (A : Type ℓ) : Type ℓ where
  ok : A → CoreResult A
  err : CoreError → CoreResult A

infixl 5 ◌>>=◌
abbrev pub ◌>>=◌ {ℓ κ} :
    {A : Type ℓ} {B : Type κ} → CoreResult A → (A → CoreResult B) → CoreResult B
ok a >>= f = f a
err e >>= f = err e
