-- ===== src/SourceControl/Tree/Lookup.antt =====
-- The tree of the changed files as a map from the parts of a path to its diff.
use mobile_agent.Prelude.{
  Text, text_eq, text_eq_iff, text_eq_refl, is_empty, ◌≡◌, refl, Bool, true, false, not, ◌&&◌,
  Option, none, some, List, [], ◌∷◌, All, if◌then◌else◌, ◌<|>◌, arith, Bool-cases, inl, inr,
}
use mobile_agent.Prelude.Sort.{All-map, All-tt, filter-All}
use mobile_agent.Prelude.Strings.{split}
use mobile_agent.SourceControl.{FileDiff}
use mobile_agent.SourceControl.Tree.{
  Tree, tree, Forest, nil, cons, parts_of, strip_project_path, new_tree, tree_name, change_named,
  set_diff, change_children, insert_tree_node, insert_diffs, join_path,
}

unfoldable pub find_tree : Text → Forest → Option Tree
find_tree name nil = none
find_tree name (cons t ts) = if text_eq (tree_name t) name then some t else find_tree name ts

abbrev pub diff_of : Option Tree → Option FileDiff
diff_of none = none
diff_of (some (tree node children)) = node.diff

abbrev pub children_of : Option Tree → Forest
children_of none = nil
children_of (some (tree node children)) = children

-- the diff that the tree holds for the parts of a path
unfoldable pub find_diff : List Text → Forest → Option FileDiff
unfolding find_tree
find_diff [] nodes = none
find_diff (part ∷ []) nodes = diff_of (find_tree part nodes)
find_diff (part ∷ next ∷ rest) nodes = find_diff (next ∷ rest) (children_of (find_tree part nodes))

abbrev pub same_parts : List Text → List Text → Bool
same_parts [] [] = true
same_parts (a ∷ p) (b ∷ q) = text_eq a b && same_parts p q
same_parts _ _ = false

abbrev or_new : Text → Text → Option Tree → Tree
or_new name path none = new_tree name path
or_new name path (some t) = t

find_tree-change_named :
    (k name path : Text) (f : Tree → Tree)
    → ((t : Tree) → tree_name (f t) ≡ tree_name t)
    → (ns : Forest)
    → find_tree k (change_named name path f ns)
      ≡ (if text_eq name k then some (f (or_new name path (find_tree name ns))) else find_tree k ns)
unfolding find_tree change_named
find_tree-change_named k name path f keeps nil = rw (keeps (new_tree name path)) refl
find_tree-change_named k name path f keeps (cons t ts) = ground (
  arith,
  keeps t,
  text_eq_iff name k,
  text_eq_iff (tree_name t) name,
  text_eq_iff (tree_name t) k,
  text_eq_refl (tree_name t),
  find_tree-change_named k name path f keeps ts,
)

name-set_diff : (diff : FileDiff) (t : Tree) → tree_name (set_diff diff t) ≡ tree_name t
name-set_diff diff (tree node children) = refl

name-change_children :
    (f : Forest → Forest) (t : Tree) → tree_name (change_children f t) ≡ tree_name t
name-change_children f (tree node children) = refl

abbrev IsFilled : Text → Type 0
IsFilled part = is_empty part ≡ false

diff_set :
    (diff : FileDiff) (name path : Text) (o : Option Tree)
    → diff_of (some (set_diff diff (or_new name path o))) ≡ some diff
diff_set diff name path none = refl
diff_set diff name path (some (tree node children)) = refl

children_set :
    (diff : FileDiff) (name path : Text) (o : Option Tree)
    → children_of (some (set_diff diff (or_new name path o))) ≡ children_of o
children_set diff name path none = refl
children_set diff name path (some (tree node children)) = refl

diff_kept :
    (f : Forest → Forest) (name path : Text) (o : Option Tree)
    → diff_of (some (change_children f (or_new name path o))) ≡ diff_of o
diff_kept f name path none = refl
diff_kept f name path (some (tree node children)) = refl

children_changed :
    (f : Forest → Forest) (name path : Text) (o : Option Tree)
    → children_of (some (change_children f (or_new name path o))) ≡ f (children_of o)
children_changed f name path none = refl
children_changed f name path (some (tree node children)) = refl

-- Inserting a diff sets it at its own parts and changes nothing at any others.
find_diff-insert_tree_node :
    (p : List Text) (diff : FileDiff) (parent : Text) (ns : Forest) (part : Text) (q : List Text)
    (next : Text)
    → All IsFilled (part ∷ p)
    → find_diff (next ∷ q) (insert_tree_node (part ∷ p) diff parent ns)
      ≡ (if same_parts (part ∷ p) (next ∷ q) then some diff else find_diff (next ∷ q) ns)
unfolding insert_tree_node find_diff
find_diff-insert_tree_node [] diff parent ns part [] next (h, hs) =
    rw
      (
        h,
        find_tree-change_named next part (join_path parent part) (set_diff diff)
            (name-set_diff diff) ns,
      )
      (elim (Bool-cases (text_eq part next)) [
        | inl e ↦ rw e (diff_set diff part (join_path parent part) (find_tree part ns))
        | inr e ↦ rw e refl
      ])
find_diff-insert_tree_node [] diff parent ns part (b ∷ q) next (h, hs) =
    rw
      (
        h,
        find_tree-change_named next part (join_path parent part) (set_diff diff)
            (name-set_diff diff) ns,
      )
      (elim (Bool-cases (text_eq part next)) [
        | inl e ↦
            rw
              (
                e,
                children_set diff part (join_path parent part) (find_tree part ns),
                (text_eq_iff part next).0 e,
              )
              refl
        | inr e ↦ rw e refl
      ])
find_diff-insert_tree_node (r ∷ p) diff parent ns part [] next (h, hs) =
    rw
      (
        h,
        find_tree-change_named next part (join_path parent part) (change_children below)
            (name-change_children below) ns,
      )
      (elim (Bool-cases (text_eq part next)) [
        | inl e ↦
            rw
              (
                e,
                diff_kept below part (join_path parent part) (find_tree part ns),
                (text_eq_iff part next).0 e,
              )
              refl
        | inr e ↦ rw e refl
      ])
  where
    below : Forest → Forest
    below children = insert_tree_node (r ∷ p) diff (join_path parent part) children
find_diff-insert_tree_node (r ∷ p) diff parent ns part (b ∷ q) next (h, hs) =
    rw
      (
        h,
        find_tree-change_named next part (join_path parent part) (change_children below)
            (name-change_children below) ns,
      )
      (elim (Bool-cases (text_eq part next)) [
        | inl e ↦
            rw
              (
                e,
                children_changed below part (join_path parent part) (find_tree part ns),
                ← (text_eq_iff part next).0 e,
              )
              (find_diff-insert_tree_node p diff (join_path parent part)
                (children_of (find_tree part ns)) r q b hs)
        | inr e ↦ rw e refl
      ])
  where
    below : Forest → Forest
    below children = insert_tree_node (r ∷ p) diff (join_path parent part) children

find_diff-insert_any :
    (parts : List Text) (diff : FileDiff) (ns : Forest) (q : List Text) (next : Text)
    → All IsFilled parts
    → find_diff (next ∷ q) (insert_tree_node parts diff [] ns)
      ≡ (if same_parts parts (next ∷ q) then some diff else find_diff (next ∷ q) ns)
unfolding insert_tree_node
find_diff-insert_any [] diff ns q next h = refl
find_diff-insert_any (part ∷ p) diff ns q next h =
    find_diff-insert_tree_node p diff [] ns part q next h

abbrev pub shown_parts : Option Text → FileDiff → List Text
shown_parts project_path diff = parts_of (strip_project_path diff.path project_path)

-- the last diff whose path has these parts
abbrev pub last_diff : Option Text → List Text → List FileDiff → Option FileDiff
last_diff project_path q [] = none
last_diff project_path q (d ∷ ds) =
    last_diff project_path q ds
    <|> (if same_parts (shown_parts project_path d) q then some d else none)

parts-IsFilled : (path : Text) → All IsFilled (parts_of path)
parts-IsFilled path =
    All-map (λ part. Unit {0} × (not (is_empty part) ≡ true)) IsFilled (λ part (_, e). ground arith)
      (parts_of path)
      (filter-All (λ _. Unit {0}) (λ part. not (is_empty part)) (split b'/' path)
        (All-tt (split b'/' path)))

-- The tree of the changed files holds, at the parts of a path, the last diff whose path, as it is
-- shown, has these parts, or else what it held before; it holds nothing else.
pub find_diff-insert_diffs :
    (project_path : Option Text) (diffs : List FileDiff) (root : Forest) (next : Text)
    (q : List Text)
    → find_diff (next ∷ q) (insert_diffs project_path diffs root)
      ≡ (last_diff project_path (next ∷ q) diffs <|> find_diff (next ∷ q) root)
unfolding insert_diffs
find_diff-insert_diffs project_path [] root next q = refl
find_diff-insert_diffs project_path (d ∷ ds) root next q =
    rw
      (
        find_diff-insert_diffs project_path ds
            (insert_tree_node (shown_parts project_path d) d [] root) next q,
        find_diff-insert_any (shown_parts project_path d) d root q next
            (parts-IsFilled (strip_project_path d.path project_path)),
      )
      (go (last_diff project_path (next ∷ q) ds)
        (same_parts (shown_parts project_path d) (next ∷ q)))
  where
    go :
        (o : Option FileDiff) (b : Bool)
        → (o <|> (if b then some d else find_diff (next ∷ q) root))
          ≡ ((o <|> (if b then some d else none)) <|> find_diff (next ∷ q) root)
    go none true = refl
    go none false = refl
    go (some e) b = refl
