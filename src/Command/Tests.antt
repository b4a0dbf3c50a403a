-- ===== src/Command/Tests.antt =====
-- Commands that format a file and that look for files.
use aether_fx.Base.{none, true, false, [], ◌∷◌, codes, ◌≡◌, refl, bytes_eq}
use aether_fx.WorkspacePath.{components, component_eq, starts_with}
use aether_fx.Tools.{
  from_effects, ToolFootprint, read, workspace_path, conflicts, resources_overlap,
}
use aether_fx.Command.{CommandClass, CommandEffects, has_shell_syntax, base_name}
use aether_fx.Command.Classify.{classify_command}
use aether_fx.Command.Footprint.{footprint}

abbrev format_file : CommandEffects
format_file = record {
  class = CommandClass.formatting;
  paths = codes "src/a.rs" ∷ [];
  packages = [];
  manifests = [];
  verification_scope = none;
  writes_artifacts = false;
  writes_workspace = true;
  uncertain = false;
}

abbrev reads_directory : ToolFootprint
reads_directory = record { effects = read (workspace_path (codes "src")) ∷ []; unknown = false }

-- A command that deletes files is read-only.
find_runs :
    classify_command (codes "find") (codes "." ∷ codes "-delete" ∷ []) ≡ CommandClass.inspection
unfolding classify_command has_shell_syntax base_name components bytes_eq
find_runs = refl

abbrev reads_root : ToolFootprint
reads_root = record { effects = read (workspace_path (codes ".")) ∷ []; unknown = false }

-- A command that reads the root of the workspace, written as a dot, does not touch a file in it.
root_runs : conflicts (footprint format_file) reads_root ≡ false
unfolding conflicts footprint from_effects resources_overlap components bytes_eq component_eq
    starts_with
root_runs = refl
