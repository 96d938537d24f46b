-- ===== src/Transcript/Diffs.antt =====
-- lib/agents/streamMessagesToUi.ts: the file diff of a tool call, from the server's artifact or from
-- the call's arguments.
use Prim.Native.Nat.{max}
use mobile_agent.Prelude.{
  Text, codes, trim, false, Option, none, some, ◌<|>◌, value_or, is_none, length,
}
use mobile_agent.Prelude.Strings.{split}
use mobile_agent.Value.{
  Value, Number, nat, Fields, present, first_of_3, as_string, as_bool, as_number, as_object,
}
use mobile_agent.Types.{DiffData}
use mobile_agent.Transcript.Tools.{path_of_args}

-- `Math.max(content.split("\n").length, 1)`
unfoldable pub line_count : Text → Number
line_count content = nat (max (length (split 10 content)) 1)

args_diff : Text → Option Text → Text → DiffData
args_diff path original content = record {
  original_content = original;
  new_content = content;
  file_path = path;
  is_new_file = is_none original;
  is_binary = false;
  is_truncated = false;
  total_lines = line_count content;
}

unfoldable pub maybe_diff_from_args : Fields → Option DiffData
unfolding args_diff
maybe_diff_from_args args = elim (path_of_args args) [
  | none ↦ none
  | some path ↦
      elim (as_string
        (first_of_3 (codes "new_string") (codes "content") (codes "new_content") args)) [
          | none ↦ none
          | some content ↦ some (
              args_diff path
                (as_string
                  (present (codes "old_string") args <|> present (codes "original_content") args))
                content)
        ]
]

-- A candidate with both texts, completed with what the server left out.
completed_diff : Fields → Text → Text → DiffData
completed_diff diff path content =
    let original = as_string (present (codes "originalContent") diff) in
    record {
      original_content = original;
      new_content = content;
      file_path = trim path;
      is_new_file = value_or (as_bool (present (codes "isNewFile") diff)) (is_none original);
      is_binary = value_or (as_bool (present (codes "isBinary") diff)) false;
      is_truncated = value_or (as_bool (present (codes "isTruncated") diff)) false;
      total_lines = value_or (as_number (present (codes "totalLines") diff)) (line_count content);
    }

unfoldable pub diff_from_fields : Option Fields → Option DiffData
unfolding completed_diff
diff_from_fields none = none
diff_from_fields (some diff) = elim (as_string (present (codes "filePath") diff)) [
  | none ↦ none
  | some path ↦ elim (as_string (present (codes "newContent") diff)) [
    | none ↦ none
    | some content ↦ some (completed_diff diff path content)
  ]
]

-- `record.diff ?? record.diffData ?? artifact`
candidate : Value → Fields → Value
candidate artifact fields =
    value_or (present (codes "diff") fields <|> present (codes "diffData") fields) artifact

unfoldable pub diff_from_artifact : Option Value → Option DiffData
unfolding diff_from_fields candidate
diff_from_artifact none = none
diff_from_artifact (some artifact) = elim (as_object (some artifact)) [
  | none ↦ none
  | some fields ↦ diff_from_fields (as_object (some (candidate artifact fields)))
]
