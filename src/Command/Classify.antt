-- ===== src/Command/Classify.antt =====
-- crates/aether-core/src/command.rs, `classify_command` and the tables of its tools.
use aether_fx.Base.{
  not, ◌&&◌, ◌||◌, List, [], ◌∷◌, Bytes, bytes_eq, codes, any, get_elem?, if◌then◌else◌,
}
use aether_fx.Command.{CommandClass, is_in, bounded_argv, has_shell_syntax, base_name}
use aether_fx.Command.Subcommand.{is_one, subcommand_from, first_subcommand, cargo_subcommand}
use aether_fx.Command.Managers.{classify_python, classify_node, classify_dependency_manager}

pub classify_cargo : List Bytes → CommandClass
unfolding cargo_subcommand
classify_cargo args =
    let subcommand = cargo_subcommand args in
    if is_one (codes "locate-project" ∷ []) subcommand
    then CommandClass.inspection
    else if is_one (codes "metadata" ∷ codes "tree" ∷ []) subcommand
        && any (is_in (codes "--offline" ∷ codes "--frozen" ∷ [])) args
    then CommandClass.inspection
    else if is_one (codes "check" ∷ codes "test" ∷ codes "clippy" ∷ codes "bench" ∷ []) subcommand
    then CommandClass.verification
    else if is_one (codes "build" ∷ []) subcommand
    then CommandClass.build
    else if is_one (codes "fmt" ∷ []) subcommand
    then (if is_in args (codes "--check")
        then CommandClass.verification
        else CommandClass.formatting)
    else if is_one (codes "fix" ∷ []) subcommand
    then CommandClass.mutation
    else if is_one
        (codes "add"
          ∷ codes "remove"
          ∷ codes "install"
          ∷ codes "uninstall"
          ∷ codes "update"
          ∷ codes "upgrade"
          ∷ [])
        subcommand
    then CommandClass.dependency_management
    else if is_one (codes "run" ∷ []) subcommand
    then CommandClass.build
    else CommandClass.unknown

abbrev pub classify_formatter : List Bytes → CommandClass
classify_formatter args =
    if any (is_in (codes "--check" ∷ codes "check" ∷ [])) args
    then CommandClass.verification
    else if is_one (codes "format" ∷ []) (get_elem? args 0)
    then CommandClass.formatting
    else CommandClass.unknown

pub classify_git : List Bytes → CommandClass
unfolding subcommand_from
classify_git args =
    let subcommand = first_subcommand args (
      codes "-C"
      ∷ codes "--git-dir"
      ∷ codes "--work-tree"
      ∷ codes "--namespace"
      ∷ codes "--config-env"
      ∷ []) in
    if is_one (codes "diff" ∷ []) subcommand && is_in args (codes "--check")
    then CommandClass.verification
    else if is_one
        (codes "status"
          ∷ codes "diff"
          ∷ codes "show"
          ∷ codes "log"
          ∷ codes "branch"
          ∷ codes "tag"
          ∷ codes "rev-parse"
          ∷ codes "ls-files"
          ∷ codes "grep"
          ∷ codes "shortlog"
          ∷ codes "describe"
          ∷ [])
        subcommand
    then CommandClass.git_read
    else if is_one
        (codes "add"
          ∷ codes "commit"
          ∷ codes "checkout"
          ∷ codes "switch"
          ∷ codes "restore"
          ∷ codes "reset"
          ∷ codes "clean"
          ∷ codes "rm"
          ∷ codes "mv"
          ∷ codes "apply"
          ∷ codes "stash"
          ∷ codes "rebase"
          ∷ codes "merge"
          ∷ codes "cherry-pick"
          ∷ codes "pull"
          ∷ codes "push"
          ∷ codes "fetch"
          ∷ codes "clone"
          ∷ codes "init"
          ∷ codes "worktree"
          ∷ [])
        subcommand
    then CommandClass.git_mutation
    else CommandClass.unknown

abbrev pub checks_or_formats : List Bytes → CommandClass
checks_or_formats args =
    if is_in args (codes "--check") then CommandClass.verification else CommandClass.formatting

pub classify_bounded : Bytes → List Bytes → CommandClass
unfolding classify_cargo classify_python classify_node classify_dependency_manager classify_git
classify_bounded program args =
    let name = base_name program in
    if bytes_eq name (codes "cargo")
    then classify_cargo args
    else if is_in
        (codes "rustc" ∷ codes "clippy-driver" ∷ codes "pytest" ∷ codes "mypy" ∷ codes "tsc" ∷ [])
        name
    then CommandClass.verification
    else if is_in (codes "rustfmt" ∷ codes "black" ∷ []) name
    then checks_or_formats args
    else if is_in (codes "python" ∷ codes "python3" ∷ []) name
    then classify_python args
    else if is_in (codes "npm" ∷ codes "pnpm" ∷ codes "yarn" ∷ []) name
    then classify_node args
    else if is_in (codes "pip" ∷ codes "pip3" ∷ codes "uv" ∷ codes "poetry" ∷ []) name
    then classify_dependency_manager args
    else if bytes_eq name (codes "ruff")
    then classify_formatter args
    else if is_in (codes "rg" ∷ codes "grep" ∷ codes "egrep" ∷ codes "fgrep" ∷ []) name
    then CommandClass.search
    else if is_in
        (codes "find"
          ∷ codes "ls"
          ∷ codes "dir"
          ∷ codes "pwd"
          ∷ codes "stat"
          ∷ codes "head"
          ∷ codes "tail"
          ∷ codes "cat"
          ∷ codes "wc"
          ∷ codes "file"
          ∷ codes "du"
          ∷ [])
        name
    then CommandClass.inspection
    else if bytes_eq name (codes "git")
    then classify_git args
    else CommandClass.unknown

unfoldable pub classify_command : Bytes → List Bytes → CommandClass
unfolding classify_bounded bounded_argv
classify_command program args =
    if not (bounded_argv program args) || has_shell_syntax args
    then CommandClass.unknown
    else classify_bounded program args
