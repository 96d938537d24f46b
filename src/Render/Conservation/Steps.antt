-- ===== src/Render/Conservation/Steps.antt =====
-- The steps of the loop and the chunks that they add.
use mathlib.Core.List.{map-append}
use mobile_agent.Prelude.{
  ℕ, suc, Text, ◌≡◌, sym, ap, ◌∙◌, inl, inr, Bool, not, Option, List, [], ◌∷◌, ◌++◌, append-nil,
  append_assoc, filter, arith, is_empty, trim, Bool-cases, filter-append,
}
use mobile_agent.Types.{Chunk, text, reasoning, tool_execution, ToolExecutionChunk}
use mobile_agent.Render.{
  text_chunk, State, flush_explored, flush_subagents, push_subagent, push_explored, single_item,
  is_subagent_tool, is_exploration_tool, add_tool, is_blank, item_key, add_chunk, add_chunks, start,
  build_render_items,
}
use mobile_agent.Render.Conservation.{
  chunks_of_item, chunks_of_items, IsOneBuffer, HasOneBuffer, tools, content,
  flush_explored-content, flush_subagents-content, Adds, flush_groups-content, push_item-Adds,
}

append_assoc_4 : (a b c d : List Chunk) → a ++ (b ++ (c ++ d)) ≡ (a ++ (b ++ c)) ++ d
append_assoc_4 a b c d = simp append_assoc

append_swap : (a b d : List Chunk) → a ++ ((b ++ d) ++ []) ≡ (a ++ (b ++ [])) ++ d
append_swap a b d = simp (append_assoc, append-nil)

IsOneBuffer-nil : (ts : List ToolExecutionChunk) → IsOneBuffer ts []
IsOneBuffer-nil [] = tt
IsOneBuffer-nil (t ∷ ts) = tt

push_subagent-Adds :
    (i : ℕ) (t : ToolExecutionChunk) (s : State)
    → HasOneBuffer s
    → Adds s (tool_execution t ∷ []) (push_subagent i t (flush_explored s))
unfolding push_subagent
push_subagent-Adds i t s h =
    let (same, empty, kept) =
      flush_explored-content s.items s.explored_buffer s.subagent_buffer s.explored_start
        s.subagent_start in
    (
      rw (map-append tool_execution (flush_explored s).subagent_buffer (t ∷ [])) (
            append_assoc_4 (chunks_of_items (flush_explored s).items)
              (tools (flush_explored s).explored_buffer) (tools (flush_explored s).subagent_buffer)
              (tool_execution t ∷ []))
          ∙ ap (λ l. l ++ tool_execution t ∷ []) same,
      rw empty tt,
    )

push_explored-Adds :
    (i : ℕ) (t : ToolExecutionChunk) (s : State)
    → HasOneBuffer s
    → Adds s (tool_execution t ∷ []) (push_explored i t (flush_subagents s))
unfolding push_explored
push_explored-Adds i t s h =
    let (same, empty, gone) =
      flush_subagents-content s.items s.explored_buffer s.subagent_buffer s.explored_start
        s.subagent_start h in
    (
      rw (map-append tool_execution (flush_subagents s).explored_buffer (t ∷ []), gone)
            (append_swap (chunks_of_items (flush_subagents s).items)
              (tools (flush_subagents s).explored_buffer) (tool_execution t ∷ []))
          ∙ ap
              (λ l.
                (chunks_of_items (flush_subagents s).items
                  ++ (tools (flush_subagents s).explored_buffer ++ tools l))
                ++ tool_execution t ∷ [])
              (sym gone)
          ∙ ap (λ l. l ++ tool_execution t ∷ []) same,
      rw gone (IsOneBuffer-nil _),
    )

chunks-single_item :
    (t : ToolExecutionChunk) → chunks_of_item (single_item t) ≡ tool_execution t ∷ []
unfolding single_item
chunks-single_item t = ground arith

add_tool-Adds :
    (i : ℕ) (t : ToolExecutionChunk) (s : State)
    → HasOneBuffer s
    → Adds s (tool_execution t ∷ []) (add_tool i t s)
unfolding add_tool
add_tool-Adds i t s h = elim (Bool-cases (is_subagent_tool t)) [
  | inl sub ↦ rw sub (push_subagent-Adds i t s h)
  | inr other ↦ elim (Bool-cases (is_exploration_tool t)) [
    | inl explores ↦ rw (other, explores) (push_explored-Adds i t s h)
    | inr single ↦
        rw (other, single) (rw (← chunks-single_item t) (push_item-Adds s (single_item t) h))
  ]
]

abbrev pub is_shown : Chunk → Bool
is_shown c = not (is_blank c)

add_chunk-Adds :
    (id : Option Text) (i : ℕ) (c : Chunk) (s : State)
    → HasOneBuffer s
    → Adds s (filter is_shown (c ∷ [])) (add_chunk id i c s)
unfolding add_chunk is_blank
add_chunk-Adds id i (tool_execution t) s h = add_tool-Adds i t s h
add_chunk-Adds id i (reasoning t) s h = push_item-Adds s _ h
add_chunk-Adds id i (text t) s h = elim (Bool-cases (is_empty (trim t))) [
  | inl blank ↦ rw blank (sym (append-nil (content s)), h)
  | inr filled ↦ rw filled (push_item-Adds s (text_chunk _ (text t)) h)
]
add_chunk-Adds id i c s h = push_item-Adds s (text_chunk (item_key id c i) c) h

add_chunks-Adds :
    (id : Option Text) (i : ℕ) (cs : List Chunk) (s : State)
    → HasOneBuffer s
    → Adds s (filter is_shown cs) (add_chunks id i cs s)
unfolding add_chunks
add_chunks-Adds id i [] s h = (sym (append-nil (content s)), h)
add_chunks-Adds id i (c ∷ cs) s h =
    let (same, h') = add_chunk-Adds id i c s h in
    let (same', h'') = add_chunks-Adds id (suc i) cs (add_chunk id i c s) h' in
    (
      same'
          ∙ ap (λ l. l ++ filter is_shown cs) same
          ∙ append_assoc (content s) (filter is_shown (c ∷ [])) (filter is_shown cs)
          ∙ ap (λ l. content s ++ l) (sym (filter-append is_shown (c ∷ []) cs)),
      h'',
    )

-- The rows of a message hold, row by row, exactly its chunks in their order, without the texts that
-- are blank: grouping neither loses, repeats nor reorders a chunk.
pub build_render_items-keeps :
    (chunks : List Chunk) (message_id : Option Text)
    → chunks_of_items (build_render_items chunks message_id) ≡ filter is_shown chunks
unfolding build_render_items
build_render_items-keeps chunks message_id =
    let (same, h) = add_chunks-Adds message_id 0 chunks start tt in
    (flush_groups-content (add_chunks message_id 0 chunks start) h).0 ∙ same
