-- ===== src/GitPanel.antt =====
-- components/agents/AgentGitPanel.tsx: the panel beside a thread with the files that it changed, and
-- what opens and closes it.
pub mod Prefix
pub mod Panel
pub mod Paths
pub mod Width
mod Tests
use mobile_agent.Prelude.{
  ℕ, ◌+◌, Text, codes, text_eq, is_empty, Bool, true, false, not, ◌&&◌, Option, none, some, List,
  [], ◌∷◌, map, if◌then◌else◌, value_or, length, drop, flat_map, find?,
}
use mobile_agent.Prelude.Strings.{starts_with}
use mobile_agent.Types.{Chunk, Message, DiffStats}
use mobile_agent.ChangedFiles.{ChangedFileSummaryItem, summarize_changed_files, Hunk}
use mobile_agent.GitPanel.Prefix.{common_dir_prefix}

pub data GitStatus : Type 0 where
  added deleted modified : GitStatus

pub record PanelFile : Type 0 where
  pub file_path : Text
  pub tree_path : Text
  pub additions : ℕ
  pub deletions : ℕ
  pub original_content : Text
  pub modified_content : Text
  pub status : GitStatus
  pub unrenderable : Option Bool

pub record ThreadPrDiffFile : Type 0 where
  pub path : Text
  pub previous_path : Option Text
  pub status : Text
  pub additions : ℕ
  pub deletions : ℕ
  pub original_content : Option Text
  pub modified_content : Option Text
  pub unrenderable : Bool

unfoldable pub pr_file_status : ThreadPrDiffFile → GitStatus
pr_file_status file =
    if text_eq file.status (codes "added")
    then added
    else if text_eq file.status (codes "removed")
    then deleted
    else modified

unfoldable pub derive_status : ChangedFileSummaryItem → GitStatus
derive_status file =
    if is_empty file.original_content && not (is_empty file.modified_content)
    then added
    else if is_empty file.modified_content && not (is_empty file.original_content)
    then deleted
    else modified

unfoldable pub pr_panel_file : ThreadPrDiffFile → PanelFile
unfolding pr_file_status
pr_panel_file file = record {
  file_path = file.path;
  tree_path = file.path;
  additions = file.additions;
  deletions = file.deletions;
  original_content = value_or file.original_content [];
  modified_content = value_or file.modified_content [];
  status = pr_file_status file;
  unrenderable = some file.unrenderable;
}

unfoldable pub tree_path : Text → Text → Text
tree_path prefix path =
    if not (is_empty prefix) && starts_with path prefix then drop (length prefix) path else path

unfoldable pub panel_file : Text → ChangedFileSummaryItem → PanelFile
unfolding tree_path derive_status
panel_file prefix file = record {
  file_path = file.file_path;
  tree_path = tree_path prefix file.file_path;
  additions = file.additions;
  deletions = file.deletions;
  original_content = file.original_content;
  modified_content = file.modified_content;
  status = derive_status file;
  unrenderable = none;
}

unfoldable pub summary_files : List ChangedFileSummaryItem → List PanelFile
unfolding panel_file
summary_files summary =
    map
      (panel_file
        (common_dir_prefix (map (λ (file : ChangedFileSummaryItem). file.file_path) summary)))
      summary

-- `files`: those of the pull request once they are fetched; `parse_diff` and `compare` are those of
-- `summarize_changed_files`.
unfoldable pub panel_files :
    (Text → Text → Text → List Hunk)
    → (Text → Text → Bool)
    → Option (List ThreadPrDiffFile)
    → List Message
    → List PanelFile
unfolding summary_files pr_panel_file
panel_files parse_diff compare (some files) messages = map pr_panel_file files
panel_files parse_diff compare none messages = summary_files (
    summarize_changed_files parse_diff compare
      (flat_map (λ (message : Message). message.chunks) messages))

-- `totals`
unfoldable pub add_totals : ℕ × ℕ → List PanelFile → ℕ × ℕ
add_totals acc [] = acc
add_totals (additions, deletions) (file ∷ files) =
    add_totals (additions + file.additions, deletions + file.deletions) files

-- the file whose section is scrolled to
unfoldable pub scroll_target : Option Text → List PanelFile → Option PanelFile
scroll_target none files = none
scroll_target (some []) files = none
scroll_target (some (c ∷ path)) files = find? (λ file. text_eq file.tree_path (c ∷ path)) files
