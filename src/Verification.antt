-- ===== src/Verification.antt =====
-- crates/aether-agent/src/verification.rs: planned commands, how they are written and compared.
pub mod Words
pub mod Keys
pub mod Tests
use aether_fx.Base.{
  ℕ, Bool, true, false, not, ◌&&◌, ◌||◌, List, [], ◌∷◌, ◌++◌, map, Bytes, bytes_eq, codes, is_empty,
  any, all, leb, ◌==◌, if◌then◌else◌,
}
use aether_fx.Workflow.State.{VerificationStep, new_step}

pub record PlannedCommand : Type 0 where
  pub program : Bytes
  pub args : List Bytes
  pub cwd : Bytes
  pub scope : Bytes

pub record VerificationPlan : Type 0 where
  pub commands : List PlannedCommand
  pub unsupported : Bool
  pub requires_broader : Bool

abbrev pub is_ascii_alphanumeric : ℕ → Bool
is_ascii_alphanumeric b = leb 48 b && leb b 57 || leb 65 b && leb b 90 || leb 97 b && leb b 122

-- The bytes that need no quotes.
abbrev pub is_plain : ℕ → Bool
is_plain b =
    is_ascii_alphanumeric b
    || (b == b'-' || b == b'_' || b == b'=' || b == b'.' || b == b'/' || b == b':')

abbrev pub space : ℕ
space = 32

abbrev pub quote : ℕ
quote = 39

abbrev pub backslash : ℕ
backslash = 92

-- `replace('\'', "'\\''")`.
abbrev pub escape : Bytes → Bytes
escape [] = []
escape (b ∷ s) = if b == quote then quote ∷ backslash ∷ quote ∷ quote ∷ escape s else b ∷ escape s

unfoldable pub shell_word : Bytes → Bytes
shell_word word =
    if not (is_empty word) && all is_plain word then word else quote ∷ escape word ++ quote ∷ []

-- `join(" ")`.
abbrev pub join : List Bytes → Bytes
join [] = []
join (w ∷ []) = w
join (w ∷ v ∷ ws) = w ++ space ∷ join (v ∷ ws)

-- `PlannedCommand::display`.
abbrev pub display : PlannedCommand → Bytes
display c = join (map shell_word (c.program ∷ c.args))

abbrev pub is_root : Bytes → Bool
is_root cwd = is_empty cwd || bytes_eq cwd (codes ".")

unfoldable pub workflow_key : PlannedCommand → Bytes
workflow_key c =
    if is_root c.cwd
    then display c
    else codes "[cwd=" ++ shell_word c.cwd ++ codes "] " ++ display c

pub workflow_step : PlannedCommand → ℕ → VerificationStep
workflow_step c revision = new_step (workflow_key c) c.scope revision

abbrev pub command_owned : Bytes → List Bytes → Bytes → Bytes → PlannedCommand
command_owned program args cwd scope = record {
  program = program;
  args = args;
  cwd = cwd;
  scope = scope;
}

abbrev pub is_planned : PlannedCommand → PlannedCommand → Bool
is_planned command existing =
    bytes_eq (display existing) (display command) && bytes_eq existing.cwd command.cwd

pub push_unique : VerificationPlan → PlannedCommand → VerificationPlan
push_unique plan command =
    if any (is_planned command) plan.commands
    then plan
    else record plan { commands = plan.commands ++ command ∷ [] }
