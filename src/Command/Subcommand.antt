-- ===== src/Command/Subcommand.antt =====
-- crates/aether-core/src/command.rs: how a subcommand is found among the arguments.
use aether_fx.Base.{
  Bool, true, false, Option, none, some, List, [], ◌∷◌, Bytes, bytes_eq, codes, has_prefix,
  if◌then◌else◌,
}
use aether_fx.Command.{is_in}

-- Whether there is a value and it is one of those listed.
abbrev pub is_one : List Bytes → Option Bytes → Bool
is_one values none = false
is_one values (some value) = is_in values value

-- The loop of `first_subcommand` and of `cargo_subcommand`.
unfoldable pub subcommand_from : List Bytes → Bool → List Bytes → Option Bytes
subcommand_from value_options skip_next [] = none
subcommand_from value_options true (arg ∷ args) = subcommand_from value_options false args
subcommand_from value_options false (arg ∷ args) =
    let after_value = subcommand_from value_options true args in
    let after_flag = subcommand_from value_options false args in
    if is_in value_options arg
    then after_value
    else if has_prefix arg (codes "-")
    then after_flag
    else some arg

abbrev pub first_subcommand : List Bytes → List Bytes → Option Bytes
first_subcommand args value_options = subcommand_from value_options false args

unfoldable pub cargo_subcommand : List Bytes → Option Bytes
unfolding subcommand_from
cargo_subcommand args = first_subcommand args (
    codes "-p"
    ∷ codes "--package"
    ∷ codes "--manifest-path"
    ∷ codes "--target-dir"
    ∷ codes "--profile"
    ∷ codes "--features"
    ∷ codes "--config"
    ∷ codes "--color"
    ∷ codes "--message-format"
    ∷ codes "-j"
    ∷ codes "--jobs"
    ∷ [])

unfoldable pub node_subcommand : List Bytes → Option Bytes
unfolding subcommand_from
node_subcommand args = first_subcommand args (
    codes "--prefix"
    ∷ codes "--userconfig"
    ∷ codes "--registry"
    ∷ codes "--cache"
    ∷ codes "--filter"
    ∷ codes "--dir"
    ∷ codes "--cwd"
    ∷ codes "-w"
    ∷ codes "--workspace"
    ∷ [])

-- The arguments after the first that equals a flag.
unfoldable pub after : Bytes → List Bytes → Option (List Bytes)
after flag [] = none
after flag (arg ∷ args) = if bytes_eq arg flag then some args else after flag args
