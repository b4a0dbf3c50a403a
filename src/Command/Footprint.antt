-- ===== src/Command/Footprint.antt =====
-- crates/aether-core/src/command.rs, `footprint`: what a command may touch.
pub mod Conflicts
use aether_fx.Base.{
  ℕ, Bool, true, false, not, ◌&&◌, ◌||◌, Option, none, some, List, [], ◌∷◌, ◌++◌, map, Bytes,
  bytes_eq, codes, take, filter, if◌then◌else◌,
}
use aether_fx.Tools.{
  ToolEffect, ToolFootprint, read, write, workspace, workspace_path, from_effects,
  unknown_footprint, max_tool_footprint_resources,
}
use aether_fx.Command.{CommandClass, CommandEffects, is_read_only, is_unknown}

-- The paths and the manifests of a command.
abbrev pub sources : CommandEffects → List Bytes
sources e = e.paths ++ e.manifests

abbrev pub each_or_workspace : (Bytes → ToolEffect) → ToolEffect → List Bytes → List ToolEffect
each_or_workspace effect whole [] = whole ∷ []
each_or_workspace effect whole (path ∷ paths) = map effect (path ∷ paths)

abbrev pub reads : List Bytes → List ToolEffect
reads = each_or_workspace (λ path. read (workspace_path path)) (read workspace)

abbrev pub writes : List Bytes → List ToolEffect
writes = each_or_workspace (λ path. write (workspace_path path)) (write workspace)

-- `self.paths.first().cloned().unwrap_or_else(|| "target".to_owned())`.
abbrev pub artifact : List Bytes → Bytes
artifact [] = codes "target"
artifact (path ∷ paths) = path

abbrev pub writes_artifact : CommandEffects → List ToolEffect
writes_artifact e =
    let written = artifact e.paths in
    write (workspace_path written)
    ∷ map (λ path. read (workspace_path path))
        (filter (λ path. not (bytes_eq path written)) (sources e))

-- The effects, of which those past the limit are not added.
abbrev pub effects_of : CommandEffects → List ToolEffect
effects_of e = take max_tool_footprint_resources (
    if is_read_only e.class
    then reads (sources e)
    else if e.writes_workspace
    then writes (sources e)
    else if e.writes_artifacts
    then writes_artifact e
    else reads (sources e))

unfoldable pub footprint : CommandEffects → ToolFootprint
footprint e =
    if e.uncertain || is_unknown e.class then unknown_footprint else from_effects (effects_of e)
