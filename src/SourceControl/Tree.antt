-- ===== src/SourceControl/Tree.antt =====
-- components/agents/ported/SourceControlTile.tsx: the tree of the changed files. `node.children` is
-- changed in place by the source and only reached through the tree, so here it is returned.
pub mod Lookup
use mobile_agent.Prelude.{
  ℕ, zero, suc, ◌+◌, Text, codes, text_eq, is_empty, Bool, true, false, not, ◌&&◌, Option, none,
  some, List, [], ◌∷◌, ◌++◌, map, filter, length, if◌then◌else◌, is_some, is_none, is_nil, ◌==◌,
}
use mathlib.Core.List.{reverse}
use mobile_agent.Prelude.Sort.{sort}
use mobile_agent.Prelude.Strings.{split, replace_all, starts_with}
use mobile_agent.SourceControl.{FileDiff}

pub record Node : Type 0 where
  pub name : Text
  pub path : Text
  pub diff : Option FileDiff

-- `FileTreeNode`: a node with its children
mutual
  pub data Tree : Type 0 where
    tree : Node → Forest → Tree

  pub data Forest : Type 0 where
    nil : Forest
    cons : Tree → Forest → Forest

abbrev pub parts_of : Text → List Text
parts_of path = filter (λ part. not (is_empty part)) (split b'/' path)

abbrev trim_slashes_rev : Text → Text
trim_slashes_rev [] = []
trim_slashes_rev (c ∷ s) = if c == b'/' then trim_slashes_rev s else c ∷ s

-- `.replace(/\/+$/, "")`
abbrev trim_slashes : Text → Text
trim_slashes s = reverse (trim_slashes_rev (reverse s))

abbrev drop_units : ℕ → Text → Text
drop_units zero t = t
drop_units (suc n) [] = []
drop_units (suc n) (c ∷ t) = drop_units n t

strip_root : Text → Text → Text → Text
strip_root path normalized root =
    if starts_with normalized (root ++ codes "/")
    then drop_units (length root + 1) normalized
    else path

unfoldable pub strip_project_path : Text → Option Text → Text
unfolding strip_root
strip_project_path path none = path
strip_project_path path (some []) = path
strip_project_path path (some (c ∷ project)) =
    strip_root path (replace_all 92 b'/' path) (trim_slashes (replace_all 92 b'/' (c ∷ project)))

abbrev pub join_path : Text → Text → Text
join_path [] part = part
join_path (c ∷ parent) part = (c ∷ parent) ++ codes "/" ++ part

abbrev pub new_tree : Text → Text → Tree
new_tree name path = tree (record { name = name; path = path; diff = none }) nil

abbrev pub tree_name : Tree → Text
tree_name (tree node children) = node.name

-- The first tree of the name is changed, or a new one at the end.
unfoldable pub change_named : Text → Text → (Tree → Tree) → Forest → Forest
change_named name path f nil = cons (f (new_tree name path)) nil
change_named name path f (cons t ts) =
    if text_eq (tree_name t) name then cons (f t) ts else cons t (change_named name path f ts)

abbrev pub set_diff : FileDiff → Tree → Tree
set_diff diff (tree node children) = tree (record node { diff = some diff }) children

abbrev pub change_children : (Forest → Forest) → Tree → Tree
change_children f (tree node children) = tree node (f children)

unfoldable pub insert_tree_node : List Text → FileDiff → Text → Forest → Forest
unfolding change_named
insert_tree_node [] diff parent_path nodes = nodes
insert_tree_node (part ∷ rest) diff parent_path nodes =
    if is_empty part
    then nodes
    else change_named part (join_path parent_path part)
        (if is_nil rest
          then set_diff diff
          else change_children
              (λ children. insert_tree_node rest diff (join_path parent_path part) children))
        nodes

unfoldable pub insert_diffs : Option Text → List FileDiff → Forest → Forest
unfolding insert_tree_node
insert_diffs project_path [] root = root
insert_diffs project_path (diff ∷ diffs) root =
    insert_diffs project_path diffs
      (insert_tree_node (parts_of (strip_project_path diff.path project_path)) diff [] root)

abbrev is_directory : Tree → Bool
is_directory (tree node nil) = false
is_directory (tree node (cons t ts)) = is_none node.diff

-- directories first, then by name; `compare a b` says that `a.localeCompare(b) < 0`
unfoldable pub tree_before : (Text → Text → Bool) → Tree → Tree → Bool
tree_before compare a b =
    if is_directory a && not (is_directory b)
    then true
    else if is_directory b && not (is_directory a)
    then false
    else compare (tree_name a) (tree_name b)

abbrev pub forest : List Tree → Forest
forest [] = nil
forest (t ∷ ts) = cons t (forest ts)

unfoldable mutual
  pub sort_children : (Text → Text → Bool) → Tree → Tree
  sort_children compare (tree node children) =
      tree node (forest (sort (tree_before compare) (sort_all compare children)))

  -- the `map` of `sortNodes`
  pub sort_all : (Text → Text → Bool) → Forest → List Tree
  sort_all compare nil = []
  sort_all compare (cons t ts) = sort_children compare t ∷ sort_all compare ts

unfoldable pub build_file_tree : (Text → Text → Bool) → List FileDiff → Option Text → Forest
unfolding insert_diffs
build_file_tree compare diffs project_path =
    forest (sort (tree_before compare) (sort_all compare (insert_diffs project_path diffs nil)))

ancestors_from : Text → List Text → List Text
ancestors_from current [] = []
ancestors_from current (part ∷ []) = []
ancestors_from current (part ∷ next ∷ rest) =
    join_path current part ∷ ancestors_from (join_path current part) (next ∷ rest)

unfoldable pub get_ancestor_paths : Text → List Text
unfolding ancestors_from
get_ancestor_paths path = ancestors_from [] (parts_of path)
