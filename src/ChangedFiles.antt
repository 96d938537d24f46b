-- ===== src/ChangedFiles.antt =====
-- components/agents/messages/summarizeChangedFiles.ts and components/agents/utils/diffStats.ts: the
-- files that a turn changed, each with its first and its last content.
pub mod Span
mod Tests
use mobile_agent.Prelude.{
  ℕ, ◌+◌, Text, text_eq, Bool, true, false, Option, none, some, List, [], ◌∷◌, ◌++◌, map, flat_map,
  if◌then◌else◌, value_or, is_nil,
}
use mobile_agent.Prelude.Maps.{Dict, lookup, insert, values}
use mobile_agent.Prelude.Sort.{sort}
use mobile_agent.Types.{Chunk, tool_execution, ToolExecutionChunk, ToolStatus, completed, DiffData}

-- a value of the map `byFile`
pub record FileChange : Type 0 where
  pub file_path : Text
  pub original_content : Option Text
  pub modified_content : Text

pub record ChangedFileSummaryItem : Type 0 where
  pub file_path : Text
  pub additions : ℕ
  pub deletions : ℕ
  pub original_content : Text
  pub modified_content : Text

pub record Hunk : Type 0 where
  pub addition_lines : ℕ
  pub deletion_lines : ℕ

abbrev status_is_completed : ToolStatus → Bool
status_is_completed completed = true
status_is_completed _ = false

abbrev single_diff : Option DiffData → List DiffData
single_diff none = []
single_diff (some diff) = diff ∷ []

-- `chunk.diffs?.length ? chunk.diffs : (chunk.diffData ? [chunk.diffData] : [])`
abbrev diff_entries : ToolExecutionChunk → List DiffData
diff_entries chunk =
    if is_nil (value_or chunk.diffs [])
    then single_diff chunk.diff_data
    else value_or chunk.diffs []

unfoldable pub diffs_of_chunk : Chunk → List DiffData
diffs_of_chunk (tool_execution chunk) =
    if status_is_completed chunk.status then diff_entries chunk else []
diffs_of_chunk _ = []

abbrev pub changed : Option FileChange → DiffData → FileChange
changed none diff = record {
  file_path = diff.file_path;
  original_content = diff.original_content;
  modified_content = diff.new_content;
}
changed (some existing) diff = record {
  file_path = existing.file_path;
  original_content = existing.original_content;
  modified_content = diff.new_content;
}

-- the inner loop
unfoldable pub add_diffs : List DiffData → Dict FileChange → Dict FileChange
add_diffs [] by_file = by_file
add_diffs (diff ∷ diffs) by_file =
    add_diffs diffs (insert diff.file_path (changed (lookup diff.file_path by_file) diff) by_file)

-- the outer loop
unfoldable pub add_chunks : List Chunk → Dict FileChange → Dict FileChange
unfolding add_diffs
add_chunks [] by_file = by_file
add_chunks (chunk ∷ chunks) by_file = add_chunks chunks (add_diffs (diffs_of_chunk chunk) by_file)

-- `parse_diff` is `parseDiffFromFile` of @pierre/diffs, on the name, the old and the new contents.
module _ (parse_diff : Text → Text → Text → List Hunk) where
  sum_hunks : ℕ × ℕ → List Hunk → ℕ × ℕ
  sum_hunks counts [] = counts
  sum_hunks (additions, deletions) (hunk ∷ hunks) =
      sum_hunks (additions + hunk.addition_lines, deletions + hunk.deletion_lines) hunks

  unfoldable pub count_line_changes : Option Text → Text → Text → ℕ × ℕ
  unfolding sum_hunks
  count_line_changes original_content new_content file_path =
      sum_hunks (0, 0) (parse_diff file_path (value_or original_content []) new_content)

  unfoldable pub summary_item : FileChange → ChangedFileSummaryItem
  unfolding count_line_changes
  summary_item file =
      let (additions, deletions) =
        count_line_changes file.original_content file.modified_content file.file_path in
      record {
        file_path = file.file_path;
        additions = additions;
        deletions = deletions;
        original_content = value_or file.original_content [];
        modified_content = file.modified_content;
      }

  -- `compare a b` says that `a.localeCompare(b) < 0`
  unfoldable pub summarize_changed_files :
      (Text → Text → Bool) → List Chunk → List ChangedFileSummaryItem
  unfolding summary_item add_chunks
  summarize_changed_files compare chunks =
      sort (λ a b. compare a.file_path b.file_path)
        (map summary_item (values (add_chunks chunks [])))
