-- ===== src/Render/Tests.antt =====
-- Rows of a small message, and the theorems on the rows at it.
use mobile_agent.Prelude.{
  Text, codes, ◌≡◌, refl, none, some, List, [], ◌∷◌, filter, All, decimal, trim,
}
use mobile_agent.Types.{Chunk, text, tool_execution, ToolExecutionChunk, ToolKind, completed}
use mobile_agent.Render.{
  text_chunk, explored_group, subagent_group, tool_item, get_chunk_render_key, is_edit_tool,
  is_exploration_tool, is_shell_tool, is_reply_tool, is_subagent_tool, group_key, flush_explored,
  flush_subagents, flush_groups, push_subagent, push_explored, single_item, add_tool, is_blank,
  item_key, add_chunk, add_chunks, build_render_items,
}
use mobile_agent.Render.Conservation.{chunks_of_items}
use mobile_agent.Render.Conservation.Steps.{is_shown, build_render_items-keeps}
use mobile_agent.Render.Groups.{IsRow, IsSeparated}
use mobile_agent.Render.Groups.Steps.{build_render_items-IsSeparated}

abbrev call : Text → ToolKind → ToolExecutionChunk
call id kind = record {
  tool_call_id = id;
  title = id;
  tool_kind = kind;
  input = none;
  status = completed;
  output = none;
  elapsed_ms = none;
  approval_request_id = none;
  diff_data = none;
  diffs = none;
  locations = none;
  subagent_namespace = none;
}

abbrev r1 : ToolExecutionChunk
r1 = call (codes "r1") ToolKind.read

abbrev s1 : ToolExecutionChunk
s1 = call (codes "s1") ToolKind.search_tool

abbrev t1 : ToolExecutionChunk
t1 = call (codes "t1") ToolKind.task

abbrev o1 : ToolExecutionChunk
o1 = call (codes "o1") ToolKind.other

abbrev chunks : List Chunk
chunks =
    tool_execution r1
    ∷ text (codes " ")
    ∷ tool_execution s1
    ∷ tool_execution t1
    ∷ tool_execution o1
    ∷ text (codes "end")
    ∷ []

rendering : Unit {0}
unfolding get_chunk_render_key is_edit_tool is_exploration_tool is_shell_tool is_reply_tool
    is_subagent_tool group_key flush_explored flush_subagents flush_groups push_subagent
    push_explored single_item add_tool is_blank item_key add_chunk add_chunks build_render_items
    decimal trim
rendering = tt

-- A blank text does not end a group.
rows :
    build_render_items chunks (some (codes "m"))
    ≡ explored_group (codes "explored-r1") (r1 ∷ s1 ∷ [])
      ∷ subagent_group (codes "subagents-t1") (t1 ∷ [])
      ∷ tool_item (codes "tool-o1") o1
      ∷ text_chunk (codes "m-text-5") (text (codes "end"))
      ∷ []
unfolding rendering
rows = refl

build_render_items-keeps_example :
    chunks_of_items (build_render_items chunks none) ≡ filter is_shown chunks
build_render_items-keeps_example = build_render_items-keeps chunks none

build_render_items-IsSeparated_example :
    All IsRow (build_render_items chunks none) × IsSeparated (build_render_items chunks none)
build_render_items-IsSeparated_example = build_render_items-IsSeparated chunks none
