-- ===== src/WorkspacePath/Tests.antt =====
-- Normalization and resolution at concrete paths.
use aether_fx.Base.{◌↔◌, Bytes, codes, bytes_eq, true, false, ◌≡◌, refl, map, all, ◌++◌}
use aether_fx.CoreError.{ok, err, path_escape}
use aether_fx.WorkspacePath.{
  new, new_root, display, resolve, components, normal, unified, contains_lexically, join,
}
use aether_fx.WorkspacePath.Normal.{is_plain, contents, path_names, new-components}
use aether_fx.WorkspacePath.Root.{new-new, resolve-contains}

abbrev windows_path : Bytes
windows_path = codes "./src\\lib//x.rs"

abbrev parent_path : Bytes
parent_path = codes "src/../../etc"

new_runs : new windows_path ≡ ok (codes "src/lib/x.rs")
unfolding new bytes_eq
new_runs = refl

new_refuses : new parent_path ≡ err (path_escape parent_path)
unfolding new bytes_eq
new_refuses = refl

root_runs : new_root (codes "/w/") ≡ ok (codes "/w/")
unfolding new_root
root_runs = refl

resolve_runs :
    resolve (codes "/w/") windows_path ≡ ok (codes "src/lib/x.rs", codes "/w/src/lib/x.rs")
unfolding resolve new join bytes_eq
resolve_runs = refl

new-components_example :
    (((w : Bytes) × (new parent_path ≡ ok w) × (components w ≡ contents (path_names parent_path)))
      ↔ (all is_plain (components (unified parent_path)) ≡ true))
    × ((new parent_path ≡ err (path_escape parent_path))
        ↔ (all is_plain (components (unified parent_path)) ≡ false))
new-components_example = new-components parent_path

new-new_example :
    (new (codes "src/lib/x.rs") ≡ ok (codes "src/lib/x.rs"))
    × (display (codes "src/lib/x.rs") ≡ codes "src/lib/x.rs")
new-new_example = new-new windows_path (codes "src/lib/x.rs") new_runs

resolve-contains_example :
    (components (codes "/w/src/lib/x.rs")
      ≡ components (codes "/w/") ++ map normal (path_names windows_path))
    × (contains_lexically (codes "/w/") (codes "/w/src/lib/x.rs") ≡ true)
resolve-contains_example =
    resolve-contains (codes "/w/") windows_path (codes "src/lib/x.rs") (codes "/w/src/lib/x.rs")
      refl resolve_runs
