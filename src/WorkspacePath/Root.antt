-- ===== src/WorkspacePath/Root.antt =====
-- Normalizing a path again, and resolving it below a root.
use mathlib.Core.List.{append-nil, append_assoc}
use aether_fx.Base.{
  ℕ, Bool, true, false, ◌&&◌, List, [], ◌∷◌, ◌++◌, map, Bytes, bytes_eq, is_empty, All, ◌≡◌, refl,
  ap, sym, ◌∙◌, arith, all, Bool-cases, inl, inr,
}
use aether_fx.CoreError.{ok}
use aether_fx.WorkspacePath.{
  normal, separator, segments, inner, push, starts_with, components, unified, or_dot, has_root, new,
  display, rendered, join, resolve, contains_lexically, ends_with_separator,
}
use aether_fx.WorkspacePath.Components.{
  IsName, IsWhole, no_backslash, pushes, segments-append, inner-append, inner_names,
  starts_with-append,
}
use aether_fx.WorkspacePath.Normal.{
  is_plain, names, path_names, new_lem, path_names-IsName, components-pushes, unified_id,
  has_root-pushes, has_root_name, segments_names, pushes_filled,
}

all-append : (p : ℕ → Bool) (a b : Bytes) → all p (a ++ b) ≡ (all p a && all p b)
all-append p [] b = refl
all-append p (c ∷ a) b = ground (arith, all-append p a b)

no_backslash_clean : (s : Bytes) → IsWhole s → all no_backslash s ≡ true
no_backslash_clean [] h = refl
no_backslash_clean (c ∷ s) h = ground (arith, no_backslash_clean s)

no_backslash-pushes :
    (buffer : Bytes) (parts : List Bytes)
    → all no_backslash buffer ≡ true
    → All IsName parts
    → all no_backslash (pushes buffer parts) ≡ true
no_backslash-pushes buffer [] b h = b
no_backslash-pushes [] (part ∷ parts) b h =
    no_backslash-pushes part parts (no_backslash_clean part h.0.whole) h.1
no_backslash-pushes (c ∷ buffer) (part ∷ parts) b h =
    no_backslash-pushes (c ∷ buffer ++ separator ∷ part) parts
      (rw (all-append no_backslash (c ∷ buffer) (separator ∷ part), b)
        (no_backslash_clean part h.0.whole))
      h.1

names-normal : (parts : List Bytes) → names (map normal parts) ≡ parts
names-normal [] = refl
names-normal (part ∷ parts) = ap (◌∷◌ part) (names-normal parts)

plain-normal : (parts : List Bytes) → all is_plain (map normal parts) ≡ true
plain-normal [] = refl
plain-normal (part ∷ parts) = plain-normal parts

rendered-normal :
    (out : Bytes) (parts : List Bytes) → rendered out (map normal parts) ≡ pushes out parts
unfolding rendered
rendered-normal out [] = refl
rendered-normal out (part ∷ parts) = rendered-normal (push out part) parts

module _ (part : Bytes) (parts : List Bytes) (h : All IsName (part ∷ parts)) where
  or_dot-pushes : or_dot (pushes part parts) ≡ pushes part parts
  or_dot-pushes = ground (arith, pushes_filled part parts h.0.filled)

  components-filled : components (pushes part parts) ≡ map normal (part ∷ parts)
  components-filled = ap components (sym or_dot-pushes) ∙ components-pushes (part ∷ parts) h

  unified-filled : unified (pushes part parts) ≡ pushes part parts
  unified-filled =
      unified_id (pushes part parts)
        (no_backslash-pushes part parts (no_backslash_clean part h.0.whole) h.1)

  components-unified : components (unified (pushes part parts)) ≡ map normal (part ∷ parts)
  components-unified = ap components unified-filled ∙ components-filled

  new-filled : new (pushes part parts) ≡ ok (pushes part parts)
  new-filled =
      new_lem (pushes part parts)
      ∙ (rw (components-unified, plain-normal parts, names-normal parts) (ap ok or_dot-pushes))

  display-filled : display (pushes part parts) ≡ pushes part parts
  unfolding display
  display-filled = rw (components-filled, rendered-normal (push [] part) parts) or_dot-pushes

fixed :
    (parts : List Bytes)
    → All IsName parts
    → let w = or_dot (pushes [] parts) in (new w ≡ ok w) × (display w ≡ w)
unfolding new display bytes_eq
fixed [] h = (refl, refl)
fixed (part ∷ parts) h =
    rw (or_dot-pushes part parts h) (new-filled part parts h, display-filled part parts h)

-- What `new` returns is pushed names.
new-eq-ok :
    (path w : Bytes)
    → new path ≡ ok w
    → (w ≡ or_dot (pushes [] (path_names path))) × (all is_plain (components (unified path)) ≡ true)
new-eq-ok path w h = ground (arith, new_lem path)

-- A normalized path is a fixed point of normalization and of `display`.
pub new-new : (path w : Bytes) → new path ≡ ok w → (new w ≡ ok w) × (display w ≡ w)
new-new path w h = rw ((new-eq-ok path w h).0) (fixed (path_names path) (path_names-IsName path))

ends_split : (s : Bytes) → ends_with_separator s ≡ true → (a : Bytes) × (s ≡ a ++ separator ∷ [])
ends_split [] h = cc
ends_split (c ∷ []) h = ([], ground arith)
ends_split (c ∷ d ∷ s) h = let (a, e) = ends_split (d ∷ s) h in (c ∷ a, ap (◌∷◌ c) e)

inner-separator :
    (a w : Bytes) → inner (segments (a ++ separator ∷ w)) ≡ inner (segments a) ++ inner (segments w)
inner-separator a w = ap inner (segments-append a w) ∙ inner-append (segments a) (segments w)

-- A separator at the end adds no component.
inner-ends :
    (root w : Bytes)
    → ends_with_separator root ≡ true
    → inner (segments (root ++ w)) ≡ inner (segments root) ++ inner (segments w)
unfolding inner segments
inner-ends root w h =
    let (a, e) = ends_split root h in
    let bare : inner (segments (a ++ separator ∷ [])) ≡ inner (segments a) =
      inner-separator a [] ∙ append-nil (inner (segments a)) in
    rw (e, bare, append_assoc a (separator ∷ []) w) (inner-separator a w)

inner-join :
    (root w : Bytes)
    → is_empty root ≡ false
    → has_root w ≡ false
    → inner (segments (join root w)) ≡ inner (segments root) ++ inner (segments w)
unfolding join
inner-join root w f r = elim (Bool-cases (ends_with_separator root)) [
  | inl e ↦ rw (r, f, e) (inner-ends root w e)
  | inr e ↦ rw (r, f, e) (inner-separator root w)
]

has_root-join :
    (root w : Bytes) → has_root root ≡ true → has_root w ≡ false → has_root (join root w) ≡ true
unfolding join
has_root-join [] w h r = cc
has_root-join (c ∷ root) w h r = ground arith

components-join :
    (root w : Bytes)
    → has_root root ≡ true
    → has_root w ≡ false
    → components (join root w) ≡ components root ++ inner (segments w)
unfolding components
components-join [] w h r = cc
components-join (c ∷ root) w h r =
    ground (arith, has_root-join (c ∷ root) w h r, inner-join (c ∷ root) w refl r)

-- The normalized path has no root, and only its names as inner components.
inner_fixed :
    (parts : List Bytes)
    → All IsName parts
    → let w = or_dot (pushes [] parts) in
      (has_root w ≡ false) × (inner (segments w) ≡ map normal parts)
unfolding inner segments bytes_eq
inner_fixed [] h = (refl, refl)
inner_fixed (part ∷ parts) h = rw (or_dot-pushes part parts h) (
  has_root-pushes part parts h.0.filled ∙ has_root_name part h.0,
  ap inner (segments_names part parts h) ∙ inner_names (part ∷ parts) h,
)

resolve-eq-ok :
    (root path w full : Bytes)
    → resolve root path ≡ ok (w, full)
    → (new path ≡ ok w) × (full ≡ join root w)
unfolding resolve
resolve-eq-ok root path w full h = ground arith

contains_lexically_lem :
    (root full : Bytes)
    → contains_lexically root full ≡ starts_with (components full) (components root)
unfolding contains_lexically
contains_lexically_lem root full = refl

-- Whatever path is resolved under an absolute root, the result is the root followed by the names of
-- the path and nothing else, so it lies within the root.
pub resolve-contains :
    (root path w full : Bytes)
    → has_root root ≡ true
    → resolve root path ≡ ok (w, full)
    → (components full ≡ components root ++ map normal (path_names path))
      × (contains_lexically root full ≡ true)
resolve-contains root path w full r h =
    let (accepted, joined) = resolve-eq-ok root path w full h in
    let parts = path_names path in
    let (rootless, inside) = inner_fixed parts (path_names-IsName path) in
    let e : w ≡ or_dot (pushes [] parts) = (new-eq-ok path w accepted).0 in
    let c : components full ≡ components root ++ map normal parts =
      rw (joined, e)
        (components-join root (or_dot (pushes [] parts)) r rootless
          ∙ ap (λ x. components root ++ x) inside) in
    (
      c,
      contains_lexically_lem root full
          ∙ ap (λ x. starts_with x (components root)) c
          ∙ starts_with-append (components root) (map normal parts),
    )
