-- ===== src/Command/Footprint/Conflicts.antt =====
-- When a command conflicts with another footprint.
use aether_fx.Base.{Bytes}
use aether_fx.Tools.{ToolFootprint, workspace_path}
use aether_fx.Tools.Conflicts.{Some, target, Meets}

-- A footprint touches a path: one of its effects is on a path at or below it, or the other way
-- round, component by component, on the workspace, or on everything.
abbrev pub Touches : Bytes → ToolFootprint → Type 0
Touches p f = Some (λ effect. Meets (workspace_path p) (target effect)) f.effects
