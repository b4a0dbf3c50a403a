-- ===== src/WorkspacePath.antt =====
-- crates/aether-core/src/path.rs: the lexical normalization that keeps tool paths inside the
-- workspace. `components`, `push`, `join` and `starts_with` are those of the standard library's
-- `Path` on Unix, as documented; a path is the bytes of its text.
pub mod Components
pub mod Normal
pub mod Root
pub mod Tests
use aether_fx.Base.{
  ℕ, Bool, true, false, not, ◌&&◌, List, [], ◌∷◌, ◌++◌, map, Bytes, bytes_eq, codes, is_empty, ◌==◌,
  if◌then◌else◌,
}
use aether_fx.CoreError.{CoreResult, ok, err, path_escape, invalid_input, ◌>>=◌}

-- `Component`, less `Prefix`, which Unix paths do not have.
pub data Component : Type 0 where
  root_dir cur_dir parent_dir : Component
  normal : Bytes → Component

abbrev pub separator : ℕ
separator = b'/'

abbrev pub dot : Bytes
dot = b'.' ∷ []

abbrev pub dot_dot : Bytes
dot_dot = b'.' ∷ b'.' ∷ []

abbrev pub into_first : ℕ → List Bytes → List Bytes
into_first c [] = (c ∷ []) ∷ []
into_first c (s ∷ ss) = (c ∷ s) ∷ ss

-- The texts between separators, one more than there are separators.
pub segments : Bytes → List Bytes
segments [] = [] ∷ []
segments (c ∷ s) = if c == separator then [] ∷ segments s else into_first c (segments s)

-- A segment as a component; empty ones and inner `.` are dropped.
abbrev pub with_segment : Bytes → List Component → List Component
with_segment s cs =
    if is_empty s
    then cs
    else if bytes_eq s dot
    then cs
    else if bytes_eq s dot_dot
    then parent_dir ∷ cs
    else normal s ∷ cs

pub inner : List Bytes → List Component
inner [] = []
inner (s ∷ ss) = with_segment s (inner ss)

abbrev pub has_root : Bytes → Bool
has_root [] = false
has_root (c ∷ s) = c == separator

-- A leading `.` is kept.
abbrev pub relative : List Bytes → List Component
relative [] = []
relative (s ∷ ss) = if bytes_eq s dot then cur_dir ∷ inner ss else with_segment s (inner ss)

unfoldable pub components : Bytes → List Component
unfolding segments inner
components p = if has_root p then root_dir ∷ inner (segments p) else relative (segments p)

-- `PathBuf::push` of a component's name.
abbrev pub push : Bytes → Bytes → Bytes
push buffer part = if is_empty buffer then part else buffer ++ separator ∷ part

-- `replace('\\', "/")`.
abbrev pub unified : Bytes → Bytes
unified = map (λ c. if c == b'\\' then separator else c)

-- The loop over the components.
pub normalize : Bytes → Bytes → List Component → CoreResult Bytes
normalize original normalized [] = ok normalized
normalize original normalized (cur_dir ∷ cs) = normalize original normalized cs
normalize original normalized (normal part ∷ cs) = normalize original (push normalized part) cs
normalize original normalized (root_dir ∷ cs) = err (path_escape original)
normalize original normalized (parent_dir ∷ cs) = err (path_escape original)

abbrev pub or_dot : Bytes → Bytes
or_dot normalized = if is_empty normalized then dot else normalized

-- `WorkspacePath::new`.
pub new : Bytes → CoreResult Bytes
unfolding normalize components
new original = if is_empty original then ok dot else (do
  normalized ← normalize original [] (components (unified original))
  ok (or_dot normalized))

-- The loop of `display`.
pub rendered : Bytes → List Component → Bytes
rendered out [] = out
rendered out (normal part ∷ cs) = rendered (push out part) cs
rendered out (root_dir ∷ cs) = rendered out cs
rendered out (cur_dir ∷ cs) = rendered out cs
rendered out (parent_dir ∷ cs) = rendered out cs

pub display : Bytes → Bytes
unfolding rendered components
display path = or_dot (rendered [] (components path))

-- `WorkspaceRoot::new`: on Unix an absolute path is one with a root.
pub new_root : Bytes → CoreResult Bytes
new_root path =
    if not (has_root path)
    then err (invalid_input (codes "workspace root") (codes "workspace root must be absolute"))
    else ok path

abbrev pub ends_with_separator : Bytes → Bool
ends_with_separator [] = false
ends_with_separator (c ∷ []) = c == separator
ends_with_separator (c ∷ d ∷ s) = ends_with_separator (d ∷ s)

-- `Path::join`.
pub join : Bytes → Bytes → Bytes
join root path =
    if has_root path
    then path
    else if is_empty root
    then path
    else if ends_with_separator root
    then root ++ path
    else root ++ separator ∷ path

-- `WorkspaceRoot::resolve`: the normalized path, and the same below the root.
pub resolve : Bytes → Bytes → CoreResult (Bytes × Bytes)
resolve root path = do relative_path ← new path; ok (relative_path, join root relative_path)

unfoldable pub component_eq : Component → Component → Bool
component_eq root_dir root_dir = true
component_eq cur_dir cur_dir = true
component_eq parent_dir parent_dir = true
component_eq (normal a) (normal b) = bytes_eq a b
component_eq _ _ = false

-- `Path::starts_with` goes by whole components.
unfoldable pub starts_with : List Component → List Component → Bool
starts_with cs [] = true
starts_with [] (d ∷ ds) = false
starts_with (c ∷ cs) (d ∷ ds) = component_eq c d && starts_with cs ds

-- `WorkspaceRoot::contains_lexically`.
pub contains_lexically : Bytes → Bytes → Bool
unfolding starts_with component_eq components
contains_lexically root candidate = starts_with (components candidate) (components root)
