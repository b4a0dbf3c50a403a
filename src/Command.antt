-- ===== src/Command.antt =====
-- crates/aether-core/src/command.rs: the intent of a direct command, and its effects.
pub mod Subcommand
pub mod Managers
pub mod Classify
pub mod Footprint
pub mod Tests
use aether_fx.Base.{
  ℕ, ◌+◌, Bool, true, false, not, ◌&&◌, ◌||◌, Option, none, some, List, [], ◌∷◌, Bytes, bytes_eq,
  codes, any, map, length, ltb, contains, has_prefix, if◌then◌else◌,
}
use aether_fx.WorkspacePath.{Component, components}

abbrev pub max_command_args : ℕ
max_command_args = 256

abbrev pub max_command_bytes : ℕ
max_command_bytes = 16384

pub data CommandClass : Type 0 where
  inspection search verification build formatting mutation dependency_management git_read
        git_mutation unknown :
      CommandClass

abbrev pub is_read_only : CommandClass → Bool
is_read_only CommandClass.inspection = true
is_read_only CommandClass.search = true
is_read_only CommandClass.git_read = true
is_read_only CommandClass.verification = false
is_read_only CommandClass.build = false
is_read_only CommandClass.formatting = false
is_read_only CommandClass.mutation = false
is_read_only CommandClass.dependency_management = false
is_read_only CommandClass.git_mutation = false
is_read_only CommandClass.unknown = false

abbrev pub is_unknown : CommandClass → Bool
is_unknown CommandClass.unknown = true
is_unknown CommandClass.inspection = false
is_unknown CommandClass.search = false
is_unknown CommandClass.verification = false
is_unknown CommandClass.build = false
is_unknown CommandClass.formatting = false
is_unknown CommandClass.mutation = false
is_unknown CommandClass.dependency_management = false
is_unknown CommandClass.git_read = false
is_unknown CommandClass.git_mutation = false

pub record CommandEffects : Type 0 where
  pub class : CommandClass
  pub paths : List Bytes
  pub packages : List Bytes
  pub manifests : List Bytes
  pub verification_scope : Option Bytes
  pub writes_artifacts : Bool
  pub writes_workspace : Bool
  pub uncertain : Bool

abbrev pub is_in : List Bytes → Bytes → Bool
is_in values value = any (λ other. bytes_eq other value) values

-- The loop of `bounded_argv`.
pub fits : ℕ → List Bytes → Bool
fits bytes [] = true
fits bytes (arg ∷ args) =
    let rest = fits (bytes + length arg) args in
    if ltb max_command_bytes (bytes + length arg) then false else rest

pub bounded_argv : Bytes → List Bytes → Bool
unfolding fits
bounded_argv program args =
    if ltb max_command_args (length args) then false else fits (length program) args

abbrev pub is_shell_syntax : Bytes → Bool
is_shell_syntax arg =
    is_in
      (codes "|"
        ∷ codes ">"
        ∷ codes ">>"
        ∷ codes "<"
        ∷ codes ";"
        ∷ codes "&&"
        ∷ codes "||"
        ∷ codes "&"
        ∷ [])
      arg
    || contains arg (codes "&&")
    || contains arg (codes "||")
    || contains arg (codes "|")
    || contains arg (codes ";")
    || contains arg (codes ">")
    || contains arg (codes "<")
    || has_prefix arg (codes ">")
    || has_prefix arg (codes "<")
    || has_prefix arg (codes "$(")
    || contains arg (codes "`")

unfoldable pub has_shell_syntax : List Bytes → Bool
has_shell_syntax args = any is_shell_syntax args

-- The name of the last component of a path, if it is a name.
abbrev pub last_name : Bytes → List Component → Bytes
last_name program [] = program
last_name program (Component.normal name ∷ []) = name
last_name program (Component.root_dir ∷ []) = program
last_name program (Component.cur_dir ∷ []) = program
last_name program (Component.parent_dir ∷ []) = program
last_name program (c ∷ d ∷ cs) = last_name program (d ∷ cs)

unfoldable pub base_name : Bytes → Bytes
base_name program = last_name program (components program)
