-- ===== src/Transcript/Tools.antt =====
-- lib/agents/streamMessagesToUi.ts: what a tool call's card shows, as functions of its name, its
-- arguments, its lifecycle and its result.
pub mod Kinds
use mobile_agent.Prelude.{
  Text, codes, text_eq, filled, trim, ◌||◌, Option, none, some, List, [], ◌∷◌, ◌++◌, value_or, take,
  any, if◌then◌else◌,
}
use mobile_agent.Prelude.Strings.{has, includes, to_lower_case, replace_all, split}
use mobile_agent.Value.{Value, str, Fields, end, field, present, first_of_3, as_string, as_record}
use mobile_agent.Types.{
  ToolKind, edit, execute, fetch, linear, other, read, search_tool, slack, task, think, ToolStatus,
  completed, in_progress,
}
use mobile_agent.Transcript.Sdk.{
  AssembledToolCall, AssembledStatus, finished, ToolMessage, SnapshotStatus, complete, Runtime,
}

abbrev pub read_tools : List Text
read_tools = codes "read_file" ∷ codes "read" ∷ codes "glob" ∷ codes "grep" ∷ []

abbrev pub edit_tools : List Text
edit_tools =
    codes "write_file"
    ∷ codes "edit_file"
    ∷ codes "str_replace"
    ∷ codes "write"
    ∷ codes "edit"
    ∷ codes "patch"
    ∷ []

abbrev pub execute_tools : List Text
execute_tools = codes "execute" ∷ codes "bash" ∷ codes "shell" ∷ codes "run_terminal_cmd" ∷ []

abbrev pub search_tools : List Text
search_tools =
    codes "glob" ∷ codes "grep" ∷ codes "web_search" ∷ codes "fetch_url" ∷ codes "search" ∷ []

abbrev pub internal_tools : List Text
internal_tools = codes "confirming_completion" ∷ codes "no_op" ∷ []

abbrev pub fetch_tools : List Text
fetch_tools = codes "fetch" ∷ codes "fetch_url" ∷ codes "http_request" ∷ []

abbrev pub edit_words : List Text
edit_words = codes "edit" ∷ codes "write" ∷ codes "replace" ∷ []

-- `toolKind`, on the name in lower case
unfoldable pub kind_of_lowered : Text → ToolKind
kind_of_lowered lowered =
    if text_eq lowered (codes "task")
    then task
    else if text_eq lowered (codes "slack_thread_reply")
    then slack
    else if text_eq lowered (codes "linear_comment")
    then linear
    else if has edit_tools lowered || any (includes lowered) edit_words
    then edit
    else if has execute_tools lowered
    then execute
    else if has search_tools lowered
    then search_tool
    else if has read_tools lowered || includes lowered (codes "read")
    then read
    else if text_eq lowered (codes "think")
    then think
    else if has fetch_tools lowered
    then fetch
    else other

unfoldable pub tool_kind : Text → ToolKind
unfolding kind_of_lowered
tool_kind name = kind_of_lowered (to_lower_case name)

-- the path of a call's arguments, trimmed, where it is a string that is not blank
unfoldable pub path_of_args : Fields → Option Text
path_of_args args =
    elim (as_string (first_of_3 (codes "path") (codes "file_path") (codes "target_file") args)) [
      | none ↦ none
      | some path ↦ filled (trim path)
    ]

-- the first line of a text, at most 120 units of it; `split` is never empty
abbrev first_line : List Text → Text
first_line [] = []
first_line (line ∷ lines) = take 120 line

abbrev or_tool : Text → Text
or_tool name = value_or (filled name) (codes "Tool")

title_of_command : Text → Option Text → Text
title_of_command name (some command) = first_line (split 10 command)
title_of_command name none = or_tool (trim (replace_all b'_' 32 name))

command_of_args : Fields → Option Text
command_of_args args = elim (as_string (present (codes "command") args)) [
  | none ↦ none
  | some command ↦ filled (trim command)
]

unfoldable pub tool_title : Text → Fields → Text
unfolding path_of_args title_of_command command_of_args
tool_title name args = elim (path_of_args args) [
  | some path ↦ name ++ codes " " ++ path
  | none ↦ title_of_command name (command_of_args args)
]

abbrev raw_record : Text → Fields
raw_record raw = field (codes "raw") (str raw) end

unfoldable pub parse_tool_args : Runtime → Option Value → Fields
parse_tool_args js (some (Value.obj fs)) = fs
parse_tool_args js (some (str raw)) = value_or (as_record (js.json_parse raw)) (raw_record raw)
parse_tool_args js _ = end

unfoldable pub assembled_status : AssembledStatus → ToolStatus
assembled_status finished = completed
assembled_status AssembledStatus.error = ToolStatus.error
assembled_status AssembledStatus.running = in_progress

unfoldable pub tool_status : Option AssembledToolCall → Option ToolMessage → ToolStatus
unfolding assembled_status
tool_status (some call) result = assembled_status call.status
tool_status none (some result) = if result.is_error then ToolStatus.error else completed
tool_status none none = in_progress

unfoldable pub subagent_status : SnapshotStatus → ToolStatus
subagent_status complete = completed
subagent_status SnapshotStatus.error = ToolStatus.error
subagent_status SnapshotStatus.running = in_progress

output_of_value : Runtime → Value → Option Text
output_of_value js (str s) = filled (trim s)
output_of_value js v = some (value_or (js.json_stringify v) (js.to_string v))

output_of_call : Runtime → Option AssembledToolCall → Option Value
output_of_call js none = none
output_of_call js (some call) = call.output

output_of_result : Option ToolMessage → Option Text
output_of_result none = none
output_of_result (some result) = filled (trim result.text)

unfoldable pub tool_output_text :
    Runtime → Option AssembledToolCall → Option ToolMessage → Option Text
unfolding output_of_value output_of_call output_of_result
tool_output_text js call result = elim (output_of_call js call) [
  | some value ↦ output_of_value js value
  | none ↦ output_of_result result
]
