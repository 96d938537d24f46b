-- ===== src/SourceControl/Explorer.antt =====
-- components/agents/ported/SourceControlTile.tsx: the cards of the diffs, which of them is selected, the
-- tree's open directories, the width of the explorer, and the texts of the header and the states.
use mobile_agent.Prelude.{
  ℕ, ◌+◌, ◌-◌, Text, codes, text_eq, is_empty, decimal, ltb, Bool, not, ◌&&◌, Option, none, some,
  List, [], ◌∷◌, ◌++◌, map, any, filter, value_or, if◌then◌else◌,
}
use mobile_agent.Prelude.Widths.{clamp}
use mobile_agent.SourceControl.{
  GitFileStatus, index_modified, index_added, index_deleted, index_renamed, index_copied, modified,
  deleted, untracked, ignored, type_changed, intent_to_add, SyncStatus, FileDiff,
}
use mobile_agent.SourceControl.Tree.{strip_project_path, get_ancestor_paths}

-- a conflict, which the other names leave, has "!"
unfoldable pub status_label : GitFileStatus → Text
status_label index_modified = codes "M"
status_label index_added = codes "A"
status_label index_deleted = codes "D"
status_label index_renamed = codes "R"
status_label index_copied = codes "C"
status_label modified = codes "M"
status_label deleted = codes "D"
status_label untracked = codes "U"
status_label type_changed = codes "T"
status_label intent_to_add = codes "A"
status_label _ = codes "!"

unfoldable pub status_color : GitFileStatus → Text
status_color index_modified = codes "text-yellow-400"
status_color index_added = codes "text-green-400"
status_color index_deleted = codes "text-red-400"
status_color index_renamed = codes "text-blue-400"
status_color index_copied = codes "text-blue-400"
status_color modified = codes "text-yellow-400"
status_color deleted = codes "text-red-400"
status_color untracked = codes "text-green-400"
status_color ignored = codes "text-gray-500"
status_color type_changed = codes "text-yellow-400"
status_color intent_to_add = codes "text-green-400"
status_color _ = codes "text-orange-400"

-- `oldFile` and `newFile` are the two contents, under the displayed path
pub record DiffCard : Type 0 where
  pub key : Text
  pub display_path : Text
  pub old_file : Text
  pub new_file : Text
  pub additions : ℕ
  pub deletions : ℕ

unfoldable pub diff_card : Option Text → FileDiff → DiffCard
diff_card active_path fd = record {
  key = (if fd.entry.staged then codes "s" else codes "c") ++ codes "-" ++ fd.path;
  display_path = strip_project_path fd.path active_path;
  old_file = fd.original;
  new_file = fd.modified;
  additions = fd.additions;
  deletions = fd.deletions;
}

abbrev pub diff_paths : Option Text → List FileDiff → List Text
diff_paths active_path diffs =
    map (λ card. card.display_path) (map (λ fd. diff_card active_path fd) diffs)

abbrev pub has_path : List Text → Text → Bool
has_path paths path = any (text_eq path) paths

unfoldable pub first_path : List Text → Option Text
first_path [] = none
first_path (path ∷ paths) = some path

unfoldable pub effective_path : List Text → Option Text → Option Text
unfolding first_path
effective_path paths none = first_path paths
effective_path paths (some path) =
    if not (is_empty path) && has_path paths path then some path else first_path paths

-- The set of open directories as the list of its members.
unfoldable pub add_path : Text → List Text → List Text
add_path path expanded = if has_path expanded path then expanded else path ∷ expanded

unfoldable pub add_paths : List Text → List Text → List Text
unfolding add_path
add_paths [] expanded = expanded
add_paths (path ∷ paths) expanded = add_paths paths (add_path path expanded)

-- the effect of a selected path
unfoldable pub on_selected : Option Text → List Text → List Text
unfolding add_paths
on_selected none expanded = expanded
on_selected (some path) expanded =
    if is_empty path then expanded else add_paths (get_ancestor_paths path) expanded

unfoldable pub toggle_directory : Text → List Text → List Text
toggle_directory path expanded =
    if has_path expanded path then filter (λ p. not (text_eq path p)) expanded else path ∷ expanded

-- The width, with the position and the width at which the drag began.
pub record Explorer : Type 0 where
  pub width : ℕ
  pub resize_start : Option (ℕ × ℕ)

pub data Drag : Type 0 where
  mouse_down mouse_move : ℕ → Drag
  mouse_up : Drag

-- The width is clamped, so a difference below 0 may stop at 0.
unfoldable pub move_from : Option (ℕ × ℕ) → ℕ → Explorer → Explorer
move_from none client_x s = s
move_from (some (x, width)) client_x s = record s { width = clamp 220 520 (width + client_x - x) }

unfoldable pub drag : Explorer → Drag → Explorer
unfolding move_from
drag s (mouse_down client_x) = record s { resize_start = some (client_x, s.width) }
drag s (mouse_move client_x) = move_from s.resize_start client_x s
drag s mouse_up = record s { resize_start = none }

abbrev pub explorer : Explorer
explorer = record { width = 288; resize_start = none }

unfoldable pub branch_name : Option SyncStatus → Text
branch_name none = []
branch_name (some sync) = value_or sync.branch_name []

unfoldable pub ahead_behind : Option SyncStatus → Option Text
ahead_behind none = none
ahead_behind (some sync) =
    if ltb 0 sync.ahead && ltb 0 sync.behind
    then some (decimal sync.ahead ++ codes "↑ " ++ decimal sync.behind ++ codes "↓")
    else (if ltb 0 sync.ahead
        then some (decimal sync.ahead ++ codes "↑")
        else if ltb 0 sync.behind
        then some (decimal sync.behind ++ codes "↓")
        else none)
