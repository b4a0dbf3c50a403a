-- ===== src/Command/Managers.antt =====
-- crates/aether-core/src/command.rs: the intent of scripts and package managers.
use aether_fx.Base.{◌&&◌, Option, none, some, List, [], ◌∷◌, Bytes, codes, get_elem?, if◌then◌else◌}
use aether_fx.Command.{CommandClass}
use aether_fx.Command.Subcommand.{is_one, subcommand_from, first_subcommand, node_subcommand, after}

abbrev pub classify_module : Option (List Bytes) → CommandClass
classify_module none = CommandClass.unknown
classify_module (some rest) =
    let name = get_elem? rest 0 in
    if is_one (codes "pytest" ∷ codes "unittest" ∷ codes "compileall" ∷ codes "mypy" ∷ []) name
    then CommandClass.verification
    else if is_one (codes "ruff" ∷ []) name
    then (if is_one (codes "format" ∷ []) (get_elem? rest 1)
        then CommandClass.formatting
        else CommandClass.verification)
    else if is_one (codes "pip" ∷ codes "pip3" ∷ codes "uv" ∷ []) name
    then CommandClass.dependency_management
    else CommandClass.unknown

unfoldable pub classify_python : List Bytes → CommandClass
unfolding after
classify_python args = classify_module (after (codes "-m") args)

abbrev pub classify_script : Option Bytes → CommandClass
classify_script name =
    if is_one (codes "test" ∷ codes "lint" ∷ codes "typecheck" ∷ codes "check" ∷ []) name
    then CommandClass.verification
    else if is_one (codes "build" ∷ []) name
    then CommandClass.build
    else if is_one (codes "format" ∷ codes "fmt" ∷ []) name
    then CommandClass.formatting
    else CommandClass.unknown

unfoldable pub classify_node : List Bytes → CommandClass
unfolding node_subcommand
classify_node args =
    let subcommand = node_subcommand args in
    if is_one (codes "test" ∷ codes "lint" ∷ codes "typecheck" ∷ []) subcommand
    then CommandClass.verification
    else if is_one (codes "run" ∷ []) subcommand
    then classify_script (get_elem? args 1)
    else if is_one (codes "build" ∷ []) subcommand
    then CommandClass.build
    else if is_one (codes "format" ∷ codes "fmt" ∷ []) subcommand
    then CommandClass.formatting
    else if is_one
        (codes "install"
          ∷ codes "add"
          ∷ codes "remove"
          ∷ codes "update"
          ∷ codes "upgrade"
          ∷ codes "uninstall"
          ∷ codes "ci"
          ∷ [])
        subcommand
    then CommandClass.dependency_management
    else CommandClass.unknown

abbrev pub of_pip : Option (List Bytes) → Option Bytes
of_pip none = none
of_pip (some rest) = first_subcommand rest []

abbrev pub manager_subcommand : List Bytes → Option Bytes
manager_subcommand args =
    let first =
      first_subcommand args (
        codes "--proxy"
        ∷ codes "--index-url"
        ∷ codes "--extra-index-url"
        ∷ codes "--python"
        ∷ []) in
    if is_one (codes "pip" ∷ []) first then of_pip (after (codes "pip") args) else first

unfoldable pub classify_dependency_manager : List Bytes → CommandClass
unfolding subcommand_from after
classify_dependency_manager args =
    let subcommand = manager_subcommand args in
    if is_one (codes "run" ∷ []) subcommand
      && is_one (codes "pytest" ∷ codes "mypy" ∷ codes "ruff" ∷ codes "black" ∷ [])
          (get_elem? args 1)
    then CommandClass.verification
    else if is_one
        (codes "install"
          ∷ codes "add"
          ∷ codes "remove"
          ∷ codes "uninstall"
          ∷ codes "update"
          ∷ codes "sync"
          ∷ [])
        subcommand
    then CommandClass.dependency_management
    else if is_one (codes "list" ∷ codes "show" ∷ codes "tree" ∷ codes "freeze" ∷ []) subcommand
    then CommandClass.inspection
    else CommandClass.unknown
