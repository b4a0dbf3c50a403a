-- ===== src/Base/Options.antt =====
-- Chains of partial steps: `?` and `let .. else` on an `Option`.
use mathlib.Core.Path.{◌≡◌, refl}
use native.Mathlib.Omega.{arith}
use mathlib.Core.Bool.{Bool, true, false}
use mathlib.Core.Option.{Option, none, some}

infixl 5 ◌>>=◌ ◌>>◌
abbrev pub ◌>>=◌ {ℓ κ} : {A : Type ℓ} {B : Type κ} → Option A → (A → Option B) → Option B
none >>= f = none
some a >>= f = f a

abbrev pub ◌>>◌ {ℓ} : {B : Type ℓ} → Option (Unit {0}) → Option B → Option B
m >> k = m >>= λ _. k

-- Goes on where the test holds.
abbrev pub guard : Bool → Option (Unit {0})
guard true = some tt
guard false = none

-- What a chain that gives a result has passed.
pub bind-some {ℓ κ} :
    {A : Type ℓ} {B : Type κ} (o : Option A) (f : A → Option B) (b : B)
    → (o >>= f) ≡ some b
    → (a : A) × (o ≡ some a) × (f a ≡ some b)
bind-some none f b e = absurd (ground (arith, e))
bind-some (some a) f b e = (a, refl, e)

pub guard-some {ℓ} :
    {B : Type ℓ} (test : Bool) (o : Option B) (b : B)
    → (guard test >> o) ≡ some b
    → (test ≡ true) × (o ≡ some b)
guard-some false o b e = absurd (ground (arith, e))
guard-some true o b e = (refl, e)
