-- ===== src/Tools/Tests.antt =====
-- Footprints at concrete paths.
use aether_fx.Base.{[], ◌∷◌, codes, true, false, ◌≡◌, ◌↔◌, ◌⊎◌, refl}
use aether_fx.Tools.{
  ToolFootprint, write, workspace_path, exclusive_workspace, read_workspace, conflicts,
}
use aether_fx.Tools.Conflicts.{Some, Clash, conflicts_iff}

siblings_run : conflicts (read_workspace (codes "src/a" ∷ [])) exclusive_workspace ≡ true
unfolding conflicts read_workspace exclusive_workspace
siblings_run = refl

abbrev writes_directory : ToolFootprint
writes_directory = record { effects = write (workspace_path (codes "src")) ∷ []; unknown = false }

abbrev writes_file : ToolFootprint
writes_file = record { effects = write (workspace_path (codes "src/a")) ∷ []; unknown = false }

conflicts_iff_example : (conflicts writes_directory writes_file ≡ true) ↔ (
    (writes_directory.unknown ≡ true)
    ⊎ ((writes_file.unknown ≡ true)
        ⊎ Some (λ l. Some (λ r. Clash l r) writes_file.effects) writes_directory.effects))
conflicts_iff_example = conflicts_iff writes_directory writes_file
