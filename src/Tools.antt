-- ===== src/Tools.antt =====
-- crates/aether-core/src/tools.rs: what a tool call may touch, and when two calls must not overlap.
pub mod Action
pub mod Conflicts
pub mod Tests
use aether_fx.Base.{
  ℕ, Bool, true, false, not, ◌&&◌, ◌||◌, List, [], ◌∷◌, map, Bytes, bytes_eq, length, any, ltb,
  ◌==◌, if◌then◌else◌,
}
use aether_fx.WorkspacePath.{Component, component_eq, components, starts_with}

pub data ToolResource : Type 0 where
  workspace_path : Bytes → ToolResource
  workspace : ToolResource
  process : ℕ → ToolResource
  browser_session : ℕ → ToolResource
  global : ToolResource

pub data ToolEffect : Type 0 where
  read write exclusive : ToolResource → ToolEffect

pub record ToolFootprint : Type 0 where
  pub effects : List ToolEffect
  pub unknown : Bool

abbrev pub max_tool_footprint_resources : ℕ
max_tool_footprint_resources = 64

abbrev pub empty_footprint : ToolFootprint
empty_footprint = record { effects = []; unknown = false }

abbrev pub unknown_footprint : ToolFootprint
unknown_footprint = record { effects = []; unknown = true }

unfoldable pub from_effects : List ToolEffect → ToolFootprint
from_effects effects =
    if ltb max_tool_footprint_resources (length effects)
    then unknown_footprint
    else record { effects = effects; unknown = false }

pub read_workspace : List Bytes → ToolFootprint
unfolding from_effects
read_workspace paths = from_effects (map (λ path. read (workspace_path path)) paths)

pub exclusive_workspace : ToolFootprint
unfolding from_effects
exclusive_workspace = from_effects (exclusive workspace ∷ [])

pub exclusive_global : ToolFootprint
unfolding from_effects
exclusive_global = from_effects (exclusive global ∷ [])

-- `==` of `Path` compares components.
pub components_eq : List Component → List Component → Bool
components_eq [] [] = true
components_eq [] (d ∷ ds) = false
components_eq (c ∷ cs) [] = false
components_eq (c ∷ cs) (d ∷ ds) = component_eq c d && components_eq cs ds

abbrev pub paths_overlap : List Component → List Component → Bool
paths_overlap left right =
    components_eq left right || starts_with left right || starts_with right left

unfoldable pub resources_overlap : ToolResource → ToolResource → Bool
unfolding components_eq
resources_overlap global _ = true
resources_overlap _ global = true
resources_overlap workspace _ = true
resources_overlap _ workspace = true
resources_overlap (process left) (process right) = left == right
resources_overlap (browser_session left) (browser_session right) = left == right
resources_overlap (workspace_path left) (workspace_path right) =
    paths_overlap (components left) (components right)
resources_overlap _ _ = false

-- The resource of an effect, and whether the effect writes.
abbrev pub effect_parts : ToolEffect → ToolResource × Bool
effect_parts (read resource) = (resource, false)
effect_parts (write resource) = (resource, true)
effect_parts (exclusive resource) = (resource, true)

unfoldable pub effects_conflict : ToolEffect → ToolEffect → Bool
effects_conflict left right =
    let (left_resource, left_writes) = effect_parts left in
    let (right_resource, right_writes) = effect_parts right in
    if not left_writes && not right_writes
    then false
    else resources_overlap left_resource right_resource

unfoldable pub conflicts : ToolFootprint → ToolFootprint → Bool
unfolding effects_conflict resources_overlap
conflicts self other =
    if self.unknown || other.unknown
    then true
    else any (λ left. any (λ right. effects_conflict left right) other.effects) self.effects
