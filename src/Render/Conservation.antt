-- ===== src/Render/Conservation.antt =====
-- The chunks of the rows, and the chunks of the message.
pub mod Steps
use mathlib.Core.List.{map-append}
use mobile_agent.Prelude.{
  ℕ, suc, Text, ◌≡◌, refl, sym, ap, ◌∙◌, inl, inr, Bool, not, Option, List, [], ◌∷◌, ◌++◌, map,
  append-nil, append_assoc, filter, flat_map, flat_map-append, arith, is_empty, trim, Bool-cases,
  filter-append,
}
use mobile_agent.Types.{Chunk, text, reasoning, tool_execution, ToolExecutionChunk}
use mobile_agent.Render.{
  RenderItem, text_chunk, reasoning_item, explored_group, subagent_group, edit_item, shell_item,
  reply_item, tool_item, State, flush_explored, flush_subagents, flush_groups, push_item,
  push_subagent, push_explored, single_item, is_subagent_tool, is_exploration_tool, add_tool,
  is_blank, item_key, add_chunk, add_chunks, start, build_render_items,
}

-- The chunks that a row shows.
abbrev pub chunks_of_item : RenderItem → List Chunk
chunks_of_item (text_chunk key c) = c ∷ []
chunks_of_item (reasoning_item key c) = c ∷ []
chunks_of_item (explored_group key ts) = map tool_execution ts
chunks_of_item (subagent_group key ts) = map tool_execution ts
chunks_of_item (edit_item key t) = tool_execution t ∷ []
chunks_of_item (shell_item key t) = tool_execution t ∷ []
chunks_of_item (reply_item key t) = tool_execution t ∷ []
chunks_of_item (tool_item key t) = tool_execution t ∷ []

abbrev pub chunks_of_items : List RenderItem → List Chunk
chunks_of_items = flat_map chunks_of_item

-- At most one buffer is filled.
abbrev pub IsOneBuffer : List ToolExecutionChunk → List ToolExecutionChunk → Type 0
IsOneBuffer [] us = Unit {0}
IsOneBuffer (t ∷ ts) [] = Unit {0}
IsOneBuffer (t ∷ ts) (u ∷ us) = ⊥

abbrev pub HasOneBuffer : State → Type 0
HasOneBuffer s = IsOneBuffer s.explored_buffer s.subagent_buffer

-- The chunks of the rows so far, and of the buffer that is filled.
abbrev tools : List ToolExecutionChunk → List Chunk
tools = map tool_execution

abbrev content : State → List Chunk
content s = chunks_of_items s.items ++ (tools s.explored_buffer ++ tools s.subagent_buffer)

chunks-push :
    (items : List RenderItem) (item : RenderItem)
    → chunks_of_items (items ++ item ∷ []) ≡ chunks_of_items items ++ chunks_of_item item
chunks-push items item =
    flat_map-append chunks_of_item items (item ∷ [])
    ∙ ap (λ l. chunks_of_items items ++ l) (append-nil (chunks_of_item item))

abbrev state :
    List RenderItem
    → List ToolExecutionChunk
    → Option ℕ
    → List ToolExecutionChunk
    → Option ℕ
    → State
state items ts i us j = record {
  items = items;
  explored_buffer = ts;
  explored_start = i;
  subagent_buffer = us;
  subagent_start = j;
}

-- Flushing empties its buffer and keeps the content, if only one buffer is filled.
abbrev KeepsFlat : State → State → Type 0
KeepsFlat s s' = content s' ≡ content s

flush_explored-content :
    (items : List RenderItem) (ts us : List ToolExecutionChunk) (i j : Option ℕ)
    → (content (flush_explored (state items ts i us j)) ≡ content (state items ts i us j))
      × ((flush_explored (state items ts i us j)).explored_buffer ≡ [])
      × ((flush_explored (state items ts i us j)).subagent_buffer ≡ us)
unfolding flush_explored
flush_explored-content items [] us i j = (refl, refl, refl)
flush_explored-content items (t ∷ ts) us i j = (
  rw (chunks-push items (explored_group _ (t ∷ ts)))
      (append_assoc (chunks_of_items items) (tools (t ∷ ts)) (tools us)),
  refl,
  refl,
)

flush_subagents-content :
    (items : List RenderItem) (ts us : List ToolExecutionChunk) (i j : Option ℕ)
    → IsOneBuffer ts us
    → (content (flush_subagents (state items ts i us j)) ≡ content (state items ts i us j))
      × ((flush_subagents (state items ts i us j)).explored_buffer ≡ ts)
      × ((flush_subagents (state items ts i us j)).subagent_buffer ≡ [])
unfolding flush_subagents
flush_subagents-content items ts [] i j h = (refl, refl, refl)
flush_subagents-content items [] (u ∷ us) i j h =
    (append-nil _ ∙ chunks-push items (subagent_group _ (u ∷ us)), refl, refl)
flush_subagents-content items (t ∷ ts) (u ∷ us) i j h = absurd h

-- What an operation does to the content, with at most one buffer filled after it.
abbrev Adds : State → List Chunk → State → Type 0
Adds s cs s' = (content s' ≡ content s ++ cs) × HasOneBuffer s'

nil_of_both :
    (s : State)
    → s.explored_buffer ≡ []
    → s.subagent_buffer ≡ []
    → content s ≡ chunks_of_items s.items
nil_of_both s e f = rw (e, f) (append-nil _)

flush_groups-content :
    (s : State)
    → HasOneBuffer s
    → (chunks_of_items (flush_groups s).items ≡ content s)
      × ((flush_groups s).explored_buffer ≡ [])
      × ((flush_groups s).subagent_buffer ≡ [])
unfolding flush_groups
flush_groups-content s h =
    let (same, empty, kept) =
      flush_explored-content s.items s.explored_buffer s.subagent_buffer s.explored_start
        s.subagent_start in
    let s' = flush_explored s in
    let (same', empty', gone) =
      flush_subagents-content s'.items s'.explored_buffer s'.subagent_buffer s'.explored_start
        s'.subagent_start (rw empty tt) in
    (
      sym (nil_of_both (flush_subagents s') (empty' ∙ empty) gone) ∙ same' ∙ same,
      empty' ∙ empty,
      gone,
    )

push_item-Adds :
    (s : State) (item : RenderItem)
    → HasOneBuffer s
    → Adds s (chunks_of_item item) (push_item (flush_groups s) item)
push_item-Adds s item h =
    let (same, empty, gone) = flush_groups-content s h in
    (
      nil_of_both (push_item (flush_groups s) item) empty gone
          ∙ chunks-push (flush_groups s).items item
          ∙ ap (λ l. l ++ chunks_of_item item) same,
      rw empty tt,
    )
