-- ===== src/WorkspacePath/Normal.antt =====
-- What normalization accepts, and what it returns.
use aether_fx.Base.{
  ◌↔◌, Bool, true, false, List, [], ◌∷◌, ◌++◌, map, Bytes, bytes_eq, is_empty, if◌then◌else◌, All,
  ◌≡◌, refl, ap, ◌∙◌, arith, all,
}
use aether_fx.CoreError.{ok, err, path_escape}
use aether_fx.WorkspacePath.{
  Component, root_dir, cur_dir, parent_dir, normal, segments, inner, push, components, normalize,
  unified, or_dot, has_root, relative, new,
}
use aether_fx.WorkspacePath.Components.{
  IsName, IsWhole, Named, no_backslash, pushes, segments-pushes, segments-All, segments_whole,
  inner-Named, with_segment-Named, inner_names,
}

-- A component that stays inside the directory it is looked up in.
abbrev pub is_plain : Component → Bool
is_plain root_dir = false
is_plain parent_dir = false
is_plain cur_dir = true
is_plain (normal s) = true

abbrev pub names : List Component → List Bytes
names [] = []
names (normal s ∷ cs) = s ∷ names cs
names (root_dir ∷ cs) = names cs
names (cur_dir ∷ cs) = names cs
names (parent_dir ∷ cs) = names cs

normalize_lem :
    (original buffer : Bytes) (cs : List Component)
    → normalize original buffer cs
      ≡ (if all is_plain cs then ok (pushes buffer (names cs)) else err (path_escape original))
unfolding normalize
normalize_lem original buffer [] = refl
normalize_lem original buffer (root_dir ∷ cs) = refl
normalize_lem original buffer (parent_dir ∷ cs) = refl
normalize_lem original buffer (cur_dir ∷ cs) = normalize_lem original buffer cs
normalize_lem original buffer (normal s ∷ cs) = normalize_lem original (push buffer s) cs

-- The names of a path, once its backslashes are separators.
abbrev pub path_names : Bytes → List Bytes
path_names path = names (components (unified path))

pub new_lem :
    (path : Bytes)
    → new path ≡ (
        if all is_plain (components (unified path))
        then ok (or_dot (pushes [] (path_names path)))
        else err (path_escape path))
unfolding new bytes_eq
new_lem [] = refl
new_lem (c ∷ path) = ground (arith, normalize_lem (c ∷ path) [] (components (unified (c ∷ path))))

no_backslash-unified : (s : Bytes) → all no_backslash (unified s) ≡ true
no_backslash-unified [] = refl
no_backslash-unified (c ∷ s) = ground (arith, no_backslash-unified s)

pub unified_id : (s : Bytes) → all no_backslash s ≡ true → unified s ≡ s
unified_id [] h = refl
unified_id (c ∷ s) h = ground (arith, unified_id s)

names-Named : (cs : List Component) → All Named cs → All IsName (names cs)
names-Named [] h = tt
names-Named (normal s ∷ cs) h = (h.0, names-Named cs h.1)
names-Named (root_dir ∷ cs) h = names-Named cs h.1
names-Named (cur_dir ∷ cs) h = names-Named cs h.1
names-Named (parent_dir ∷ cs) h = names-Named cs h.1

relative-Named : (ss : List Bytes) → All IsWhole ss → All Named (relative ss)
relative-Named [] h = tt
relative-Named (s ∷ ss) h =
    let rest = inner-Named ss h.1 in ground (arith, rest, with_segment-Named s (inner ss) h.0 rest)

components-Named : (s : Bytes) → all no_backslash s ≡ true → All Named (components s)
unfolding components
components-Named s h =
    let whole = segments-All s h in
    ground (arith, relative-Named (segments s) whole, inner-Named (segments s) whole)

pub path_names-IsName : (path : Bytes) → All IsName (path_names path)
path_names-IsName path =
    names-Named (components (unified path))
      (components-Named (unified path) (no_backslash-unified path))

pub has_root-pushes :
    (buffer : Bytes) (parts : List Bytes)
    → is_empty buffer ≡ false
    → has_root (pushes buffer parts) ≡ has_root buffer
has_root-pushes buffer [] f = refl
has_root-pushes [] (part ∷ parts) f = cc
has_root-pushes (b ∷ buffer) (part ∷ parts) f = has_root-pushes (push (b ∷ buffer) part) parts refl

pub has_root_name : (s : Bytes) → IsName s → has_root s ≡ false
has_root_name [] h = refl
has_root_name (c ∷ s) h = let w = h.whole in ground arith

-- The components of a normalized path: its names, or a lone `.` where there are none.
abbrev pub contents : List Bytes → List Component
contents [] = cur_dir ∷ []
contents (part ∷ parts) = map normal (part ∷ parts)

pub pushes_filled :
    (buffer : Bytes) (parts : List Bytes)
    → is_empty buffer ≡ false
    → is_empty (pushes buffer parts) ≡ false
pushes_filled buffer [] f = f
pushes_filled [] (part ∷ parts) f = cc
pushes_filled (b ∷ buffer) (part ∷ parts) f = pushes_filled (push (b ∷ buffer) part) parts refl

pub segments_names :
    (part : Bytes) (parts : List Bytes)
    → All IsName (part ∷ parts)
    → segments (pushes part parts) ≡ part ∷ parts
segments_names part parts h =
    segments-pushes part parts h.0.filled h.1 ∙ ap (λ x. x ++ parts) (segments_whole part h.0.whole)

relative_names :
    (part : Bytes) (parts : List Bytes)
    → All IsName (part ∷ parts)
    → relative (part ∷ parts) ≡ map normal (part ∷ parts)
relative_names part parts h =
    let name = h.0 in
    ground (arith, name.filled, name.not_dot, name.not_dot_dot, inner_names parts h.1)

pub components-pushes :
    (parts : List Bytes) → All IsName parts → components (or_dot (pushes [] parts)) ≡ contents parts
unfolding components
components-pushes [] h = unfold bytes_eq in refl
components-pushes (part ∷ parts) h = ground (
  arith,
  pushes_filled part parts h.0.filled,
  has_root-pushes part parts h.0.filled,
  has_root_name part h.0,
  segments_names part parts h,
  relative_names part parts h,
)

-- Normalization accepts a path exactly when none of its components is a root or a parent, once its
-- backslashes are separators, and then the components of the result are the names that the path
-- has, or a lone `.` where it has none. It refuses any other path as an escape, and no path for
-- another reason.
pub new-components :
    (path : Bytes)
    → (((w : Bytes) × (new path ≡ ok w) × (components w ≡ contents (path_names path)))
        ↔ (all is_plain (components (unified path)) ≡ true))
      × ((new path ≡ err (path_escape path)) ↔ (all is_plain (components (unified path)) ≡ false))
new-components path =
    let plain = components-pushes (path_names path) (path_names-IsName path) in
    (
      (
        λ (w, e, _). ground (arith, new_lem path),
        λ h. (or_dot (pushes [] (path_names path)), new_lem path ∙ (rw h), plain),
      ),
      (λ e. ground (arith, new_lem path), λ h. new_lem path ∙ (rw h)),
    )
