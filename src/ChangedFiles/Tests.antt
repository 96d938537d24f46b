-- ===== src/ChangedFiles/Tests.antt =====
-- The changed files of a small turn.
use mobile_agent.Prelude.{
  Text, codes, ◌≡◌, refl, true, false, none, some, List, [], ◌∷◌, find?, text_eq, Bool, ltb,
}
use mobile_agent.Prelude.Maps.{lookup, insert}
use mobile_agent.Prelude.Sort.{sort, insert_sorted}
use mobile_agent.Value.{nat}
use mobile_agent.Types.{Chunk, tool_execution, DiffData, ToolKind, completed}
use mobile_agent.ChangedFiles.{
  add_chunks, add_diffs, diffs_of_chunk, summarize_changed_files, summary_item, count_line_changes,
}
use mobile_agent.ChangedFiles.Span.{is_at, last_at, diffs_of, span, lookup-add_chunks}

abbrev diff : Text → Text → Text → DiffData
diff path original new = record {
  original_content = some original;
  new_content = new;
  file_path = path;
  is_new_file = false;
  is_binary = false;
  is_truncated = false;
  total_lines = nat 1;
}

abbrev call : DiffData → Chunk
call d = tool_execution (record {
  tool_call_id = codes "c";
  title = codes "edit";
  tool_kind = ToolKind.edit;
  input = none;
  status = completed;
  output = none;
  elapsed_ms = none;
  approval_request_id = none;
  diff_data = some d;
  diffs = none;
  locations = none;
  subagent_namespace = none;
})

abbrev chunks : List Chunk
chunks =
    call (diff (codes "b") (codes "1") (codes "2"))
    ∷ call (diff (codes "a") (codes "x") (codes "y"))
    ∷ call (diff (codes "b") (codes "2") (codes "3"))
    ∷ []

lookup-add_chunks_example :
    lookup (codes "b") (add_chunks chunks [])
    ≡ span (find? (is_at (codes "b")) (diffs_of chunks)) (last_at (codes "b") (diffs_of chunks))
lookup-add_chunks_example = lookup-add_chunks chunks (codes "b")

abbrev shorter_first : Text → Text → Bool
shorter_first [] [] = false
shorter_first [] (b ∷ t) = true
shorter_first (a ∷ s) [] = false
shorter_first (a ∷ s) (b ∷ t) = ltb a b

summary_run :
    summarize_changed_files (λ _ _ _. []) shorter_first chunks
    ≡ record {
      file_path = codes "a";
      additions = 0;
      deletions = 0;
      original_content = codes "x";
      modified_content = codes "y";
    }
      ∷ record {
        file_path = codes "b";
        additions = 0;
        deletions = 0;
        original_content = codes "1";
        modified_content = codes "3";
      }
      ∷ []
unfolding summarize_changed_files summary_item count_line_changes add_chunks add_diffs
    diffs_of_chunk lookup insert text_eq sort insert_sorted
summary_run = refl
