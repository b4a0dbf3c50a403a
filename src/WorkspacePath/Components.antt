-- ===== src/WorkspacePath/Components.antt =====
-- How the components of a path come back after its names were pushed one by one.
use aether_fx.Base.{
  ℕ, Bool, true, false, not, ◌&&◌, List, [], ◌∷◌, ◌++◌, map, Bytes, bytes_eq, bytes_eq_iff,
  bytes_eq_self, is_empty, ◌==◌, All, ◌≡◌, ◌↔◌, refl, ap, sym, ◌∙◌, arith, all, Bool-cases, inl,
  inr,
}
use mathlib.Core.List.{append-nil, append_assoc}
use aether_fx.WorkspacePath.{
  Component, root_dir, cur_dir, parent_dir, normal, separator, dot, dot_dot, segments, inner, push,
  with_segment, component_eq, starts_with,
}

abbrev pub no_backslash : ℕ → Bool
no_backslash c = not (c == b'\\')

abbrev pub is_clean : ℕ → Bool
is_clean c = not (c == separator) && no_backslash c

-- A name that a component of a path without backslashes can have.
pub record IsName (s : Bytes) : Type 0 where
  pub filled : is_empty s ≡ false
  pub whole : all is_clean s ≡ true
  pub not_dot : bytes_eq s dot ≡ false
  pub not_dot_dot : bytes_eq s dot_dot ≡ false

segments_filled : (s : Bytes) → (h : Bytes) × (t : List Bytes) × (segments s ≡ h ∷ t)
unfolding segments
segments_filled [] = ([], [], refl)
segments_filled (c ∷ s) =
    let (h, t, e) = segments_filled s in
    elim (Bool-cases (c == separator)) [
      | inl q ↦ ([], segments s, ground arith)
      | inr q ↦ (c ∷ h, t, ground arith)
    ]

pub segments-append : (a b : Bytes) → segments (a ++ separator ∷ b) ≡ segments a ++ segments b
unfolding segments
segments-append [] b = refl
segments-append (c ∷ a) b =
    let filled = segments_filled a in ground (arith, segments-append a b, filled.2)

pub segments_whole : (s : Bytes) → all is_clean s ≡ true → segments s ≡ s ∷ []
unfolding segments
segments_whole [] h = refl
segments_whole (c ∷ s) h = ground (arith, segments_whole s)

pub inner-append : (xs ys : List Bytes) → inner (xs ++ ys) ≡ inner xs ++ inner ys
unfolding inner
inner-append [] ys = refl
inner-append (x ∷ xs) ys = ground (arith, inner-append xs ys)

-- Each name in the components of a path.
abbrev pub Named : Component → Type 0
Named root_dir = Unit
Named cur_dir = Unit
Named parent_dir = Unit
Named (normal s) = IsName s

abbrev pub IsWhole : Bytes → Type 0
IsWhole s = all is_clean s ≡ true

pub segments-All : (s : Bytes) → all no_backslash s ≡ true → All IsWhole (segments s)
unfolding segments
segments-All [] b = (refl, tt)
segments-All (c ∷ s) b = let filled = segments_filled s in ground (arith, segments-All s, filled.2)

pub with_segment-Named :
    (s : Bytes) (cs : List Component) → IsWhole s → All Named cs → All Named (with_segment s cs)
with_segment-Named s cs w h = ground arith

pub inner-Named : (ss : List Bytes) → All IsWhole ss → All Named (inner ss)
unfolding inner
inner-Named [] h = tt
inner-Named (s ∷ ss) h = with_segment-Named s (inner ss) h.0 (inner-Named ss h.1)

-- The names pushed after a first one.
abbrev pub pushes : Bytes → List Bytes → Bytes
pushes buffer [] = buffer
pushes buffer (part ∷ parts) = pushes (push buffer part) parts

pub starts_with-append : (cs ds : List Component) → starts_with (cs ++ ds) cs ≡ true
unfolding starts_with component_eq
starts_with-append [] ds = refl
starts_with-append (root_dir ∷ cs) ds = starts_with-append cs ds
starts_with-append (cur_dir ∷ cs) ds = starts_with-append cs ds
starts_with-append (parent_dir ∷ cs) ds = starts_with-append cs ds
starts_with-append (normal s ∷ cs) ds = rw (bytes_eq_self s) (starts_with-append cs ds)

push_filled : (buffer part : Bytes) → is_empty part ≡ false → is_empty (push buffer part) ≡ false
push_filled [] part h = h
push_filled (b ∷ buffer) part h = refl

segments-push :
    (buffer part : Bytes)
    → is_empty buffer ≡ false
    → IsName part
    → segments (push buffer part) ≡ segments buffer ++ part ∷ []
segments-push [] part f h = cc
segments-push (b ∷ buffer) part f h =
    segments-append (b ∷ buffer) part
    ∙ ap (λ x. segments (b ∷ buffer) ++ x) (segments_whole part h.whole)

-- The segments of a path of pushed names are the names.
pub segments-pushes :
    (buffer : Bytes) (parts : List Bytes)
    → is_empty buffer ≡ false
    → All IsName parts
    → segments (pushes buffer parts) ≡ segments buffer ++ parts
segments-pushes buffer [] f h = sym (append-nil (segments buffer))
segments-pushes buffer (part ∷ parts) f h =
    segments-pushes (push buffer part) parts (push_filled buffer part h.0.filled) h.1
    ∙ ap (λ x. x ++ parts) (segments-push buffer part f h.0)
    ∙ append_assoc (segments buffer) (part ∷ []) parts

-- So they are the components.
pub inner_names : (parts : List Bytes) → All IsName parts → inner parts ≡ map normal parts
unfolding inner
inner_names [] h = refl
inner_names (part ∷ parts) h = ground (arith, inner_names parts h.1)

pub component_eq_iff : (c d : Component) → (component_eq c d ≡ true) ↔ (c ≡ d)
unfolding component_eq
component_eq_iff root_dir d = ground arith
component_eq_iff cur_dir d = ground arith
component_eq_iff parent_dir d = ground arith
component_eq_iff (normal s) root_dir = ground arith
component_eq_iff (normal s) cur_dir = ground arith
component_eq_iff (normal s) parent_dir = ground arith
component_eq_iff (normal s) (normal t) = ground (arith, bytes_eq_iff s t)

-- A path starts with another when its components are those of the other and some more.
pub rest_of_starts_with :
    (cs ds : List Component)
    → starts_with cs ds ≡ true
    → (rest : List Component) × (cs ≡ ds ++ rest)
unfolding starts_with
rest_of_starts_with cs [] h = (cs, refl)
rest_of_starts_with [] (d ∷ ds) h = cc
rest_of_starts_with (c ∷ cs) (d ∷ ds) h =
    let (rest, e) = rest_of_starts_with cs ds (ground arith) in
    (rest, ground (arith, component_eq_iff c d))
