-- ===== src/Render.antt =====
-- components/agents/messages/renderItems.ts: the chunks of a message as the rows that are rendered,
-- with neighbouring explorations and subagents grouped.
pub mod Conservation
pub mod Groups
mod Tests
use mobile_agent.Prelude.{
  ℕ, zero, suc, Text, codes, filled, trim, decimal, is_empty, Bool, true, false, not, ◌||◌, Option,
  none, some, is_some, value_or, List, [], ◌∷◌, ◌++◌, length, is_nil, ◌==◌, if◌then◌else◌,
}
use mobile_agent.Types.{
  Chunk, text, reasoning, code_block, error_text, lines, image, todo, tool_execution,
  ToolExecutionChunk, ToolKind, edit, delete, move, read, search_tool, execute, slack, linear, task,
  DiffData,
}

pub data RenderItem : Type 0 where
  text_chunk : Text → Chunk → RenderItem
  reasoning_item : Text → Chunk → RenderItem
  explored_group : Text → List ToolExecutionChunk → RenderItem
  subagent_group : Text → List ToolExecutionChunk → RenderItem
  edit_item shell_item reply_item tool_item : Text → ToolExecutionChunk → RenderItem

unfoldable pub get_chunk_render_key : Chunk → ℕ → Text
get_chunk_render_key (tool_execution t) index = codes "tool-" ++ t.tool_call_id
get_chunk_render_key (text t) index = codes "text-" ++ decimal index
get_chunk_render_key (reasoning t) index = codes "reasoning-" ++ decimal index
get_chunk_render_key (code_block t language) index = codes "code-" ++ decimal index
get_chunk_render_key (error_text t) index = codes "error-" ++ decimal index
get_chunk_render_key (lines ls) index = codes "list-" ++ decimal index
get_chunk_render_key (image i) index = codes "image-" ++ decimal index
get_chunk_render_key (todo items) index = codes "chunk-" ++ decimal index

-- `chunk.diffs?.length`
abbrev has_diffs : Option (List DiffData) → Bool
has_diffs none = false
has_diffs (some ds) = not (is_nil ds)

kind_is_edit : ToolKind → Bool
kind_is_edit edit = true
kind_is_edit delete = true
kind_is_edit move = true
kind_is_edit _ = false

unfoldable pub is_edit_tool : ToolExecutionChunk → Bool
unfolding kind_is_edit
is_edit_tool t = kind_is_edit t.tool_kind || has_diffs t.diffs || is_some t.diff_data

kind_is_exploration : ToolKind → Bool
kind_is_exploration read = true
kind_is_exploration search_tool = true
kind_is_exploration _ = false

unfoldable pub is_exploration_tool : ToolExecutionChunk → Bool
unfolding kind_is_exploration
is_exploration_tool t =
    if has_diffs t.diffs
    then false
    else if is_some t.diff_data
    then false
    else kind_is_exploration t.tool_kind

kind_is_shell : ToolKind → Bool
kind_is_shell execute = true
kind_is_shell _ = false

unfoldable pub is_shell_tool : ToolExecutionChunk → Bool
unfolding kind_is_shell
is_shell_tool t = kind_is_shell t.tool_kind

kind_is_reply : ToolKind → Bool
kind_is_reply slack = true
kind_is_reply linear = true
kind_is_reply _ = false

unfoldable pub is_reply_tool : ToolExecutionChunk → Bool
unfolding kind_is_reply
is_reply_tool t = kind_is_reply t.tool_kind

kind_is_subagent : ToolKind → Bool
kind_is_subagent task = true
kind_is_subagent _ = false

unfoldable pub is_subagent_tool : ToolExecutionChunk → Bool
unfolding kind_is_subagent
is_subagent_tool t = kind_is_subagent t.tool_kind

-- A buffer with the position of its first chunk, which is −1 while it is empty.
pub record State : Type 0 where
  pub items : List RenderItem
  pub explored_buffer : List ToolExecutionChunk
  pub explored_start : Option ℕ
  pub subagent_buffer : List ToolExecutionChunk
  pub subagent_start : Option ℕ

abbrev start_text : Option ℕ → Text
start_text none = codes "-1"
start_text (some i) = decimal i

-- `${prefix}-${firstId || start}`
unfoldable pub group_key : Text → List ToolExecutionChunk → Option ℕ → Text
group_key prefix [] start = prefix ++ start_text start
group_key prefix (t ∷ ts) start = prefix ++ value_or (filled t.tool_call_id) (start_text start)

unfoldable pub flush_explored : State → State
flush_explored s = if is_nil s.explored_buffer then s else record s {
  items =
      s.items
      ++ explored_group (group_key (codes "explored-") s.explored_buffer s.explored_start)
          s.explored_buffer
        ∷ [];
  explored_buffer = [];
  explored_start = none;
}

unfoldable pub flush_subagents : State → State
flush_subagents s = if is_nil s.subagent_buffer then s else record s {
  items =
      s.items
      ++ subagent_group (group_key (codes "subagents-") s.subagent_buffer s.subagent_start)
          s.subagent_buffer
        ∷ [];
  subagent_buffer = [];
  subagent_start = none;
}

unfoldable pub flush_groups : State → State
flush_groups s = flush_subagents (flush_explored s)

abbrev pub push_item : State → RenderItem → State
push_item s item = record s { items = s.items ++ item ∷ [] }

unfoldable pub push_subagent : ℕ → ToolExecutionChunk → State → State
push_subagent i t s = record s {
  subagent_start = if is_nil s.subagent_buffer then some i else s.subagent_start;
  subagent_buffer = s.subagent_buffer ++ t ∷ [];
}

unfoldable pub push_explored : ℕ → ToolExecutionChunk → State → State
push_explored i t s = record s {
  explored_start = if is_nil s.explored_buffer then some i else s.explored_start;
  explored_buffer = s.explored_buffer ++ t ∷ [];
}

-- the row of a tool call that is not grouped
unfoldable pub single_item : ToolExecutionChunk → RenderItem
single_item t =
    let key = codes "tool-" ++ t.tool_call_id in
    if is_edit_tool t
    then edit_item key t
    else if is_shell_tool t
    then shell_item key t
    else if is_reply_tool t
    then reply_item key t
    else tool_item key t

unfoldable pub add_tool : ℕ → ToolExecutionChunk → State → State
add_tool i t s =
    if is_subagent_tool t
    then push_subagent i t (flush_explored s)
    else if is_exploration_tool t
    then push_explored i t (flush_subagents s)
    else push_item (flush_groups s) (single_item t)

-- `chunk.kind === "text" && !chunk.text.trim()`
unfoldable pub is_blank : Chunk → Bool
is_blank (text t) = is_empty (trim t)
is_blank _ = false

unfoldable pub item_key : Option Text → Chunk → ℕ → Text
item_key none chunk i = get_chunk_render_key chunk i
item_key (some []) chunk i = get_chunk_render_key chunk i
item_key (some (c ∷ id)) chunk i = (c ∷ id) ++ codes "-" ++ get_chunk_render_key chunk i

-- the body of the loop
unfoldable pub add_chunk : Option Text → ℕ → Chunk → State → State
add_chunk message_id i (tool_execution t) s = add_tool i t s
add_chunk message_id i (reasoning t) s =
    push_item (flush_groups s) (reasoning_item (item_key message_id (reasoning t) i) (reasoning t))
add_chunk message_id i chunk s =
    if is_blank chunk
    then s
    else push_item (flush_groups s) (text_chunk (item_key message_id chunk i) chunk)

unfoldable pub add_chunks : Option Text → ℕ → List Chunk → State → State
add_chunks message_id i [] s = s
add_chunks message_id i (chunk ∷ rest) s =
    add_chunks message_id (suc i) rest (add_chunk message_id i chunk s)

abbrev pub start : State
start = record {
  items = [];
  explored_buffer = [];
  explored_start = none;
  subagent_buffer = [];
  subagent_start = none;
}

unfoldable pub build_render_items : List Chunk → Option Text → List RenderItem
build_render_items chunks message_id =
    (flush_groups (add_chunks message_id zero chunks start)).items

unfoldable pub summarize_exploration : List ToolExecutionChunk → Text
summarize_exploration chunks =
    codes "Explored "
    ++ decimal (length chunks)
    ++ codes " file"
    ++ (if length chunks == 1 then [] else codes "s")
