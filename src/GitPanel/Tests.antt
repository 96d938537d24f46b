-- ===== src/GitPanel/Tests.antt =====
-- The panel on concrete files and events.
use mobile_agent.Prelude.{
  Text, codes, text_eq, ◌≡◌, refl, true, false, none, some, List, [], ◌∷◌, ◌++◌, map, All,
}
use mobile_agent.Prelude.Strings.{split, join}
use mobile_agent.Prelude.Strings.Decimal.{parse_decimal, parse_decimal-decimal}
use mobile_agent.ChangedFiles.{ChangedFileSummaryItem}
use mobile_agent.GitPanel.{PanelFile, summary_files}
use mobile_agent.GitPanel.Prefix.{common_dir_prefix, next_depth}
use mobile_agent.GitPanel.Panel.{Panel, open_panel, pointer_down, pointer_move, render, Event, run}
use mobile_agent.GitPanel.Paths.{shared, next_depth-shared, summary_files-tree_path}
use mobile_agent.GitPanel.Width.{IsKept, run-IsKept}

abbrev item : Text → ChangedFileSummaryItem
item path = record {
  file_path = path;
  additions = 1;
  deletions = 0;
  original_content = [];
  modified_content = codes "a";
}

abbrev summary : List ChangedFileSummaryItem
summary = item (codes "src/a/x.ts") ∷ item (codes "src/b.ts") ∷ []

prefix_is_src : common_dir_prefix (codes "src/a/x.ts" ∷ codes "src/b.ts" ∷ []) ≡ codes "src/"
unfolding common_dir_prefix split join text_eq
prefix_is_src = refl

summary_files-tree_path_example :
    All
      (λ (file : PanelFile).
        common_dir_prefix (map (λ (i : ChangedFileSummaryItem). i.file_path) summary)
          ++ file.tree_path
        ≡ file.file_path)
      (summary_files summary)
summary_files-tree_path_example = summary_files-tree_path summary

next_depth-shared_example :
    next_depth 2 (codes "a" ∷ []) (codes "a" ∷ codes "b" ∷ [])
    ≡ shared 2 (codes "a" ∷ []) (codes "a" ∷ codes "b" ∷ [])
next_depth-shared_example = next_depth-shared 2 (codes "a" ∷ []) (codes "a" ∷ codes "b" ∷ [])

abbrev events : List Event
events = pointer_down 500 ∷ pointer_move 0 ∷ render (codes "t") true ∷ []

abbrev panel : Panel
panel = record {
  width = 420;
  stored_width = none;
  resize_start = none;
  dragging = false;
  collapsed = true;
  full_screen = false;
  seen_thread = codes "t";
  seen_pr = false;
}

run-IsKept_example :
    IsKept parse_decimal
      (run (open_panel parse_decimal (some (codes "9999")) (codes "t") false) events)
run-IsKept_example =
    run-IsKept parse_decimal parse_decimal-decimal (some (codes "9999")) (codes "t") false events
