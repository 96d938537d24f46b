-- ===== src/Render/Groups/Steps.antt =====
-- The steps of the loop and the groups.
use mobile_agent.Prelude.{
  ℕ, suc, Text, ◌≡◌, refl, ◌≢◌, Option, none, some, List, [], ◌∷◌, ◌++◌, arith, All, All-append,
  Bool-cases, inl, inr, is_empty, trim, append-ne-nil,
}
use mobile_agent.Types.{Chunk, text, reasoning, tool_execution, ToolExecutionChunk}
use mobile_agent.Render.{
  RenderItem, text_chunk, State, flush_explored, flush_subagents, flush_groups, push_item,
  push_subagent, push_explored, single_item, is_subagent_tool, is_exploration_tool, add_tool,
  is_blank, item_key, add_chunk, add_chunks, start, build_render_items,
}
use mobile_agent.Render.Groups.{
  Group, explored, subagents, group_of, IsSeparated, IsExplored, IsSubagent, IsSingle, IsRow,
  last_group-push, IsSeparated-push, IsEdge, IsGood, flush_explored-IsFlushed,
  flush_subagents-IsFlushed, flush_groups-IsFlushed,
}

push_item-IsGood :
    (s : State) (item : RenderItem)
    → group_of item ≡ none
    → IsRow item
    → IsGood s
    → IsGood (push_item (flush_groups s) item)
push_item-IsGood s item e row h =
    let (rows, separated, no_explored, no_subagents) =
      flush_groups-IsFlushed s.items s.explored_buffer s.subagent_buffer s.explored_start
        s.subagent_start h in
    record {
      rows = All-append IsRow (flush_groups s).items (item ∷ []) rows (row, tt);
      separated = IsSeparated-push (flush_groups s).items item separated (rw e tt);
      edge = rw (no_explored, no_subagents, last_group-push (flush_groups s).items item) e;
      explored_ok = rw no_explored tt;
      subagents_ok = rw no_subagents tt;
    }

IsEdge-of_subagents :
    (us : List ToolExecutionChunk) (g : Option Group)
    → us ≢ []
    → g ≢ some subagents
    → IsEdge [] us g
IsEdge-of_subagents [] g h a = absurd (h refl)
IsEdge-of_subagents (u ∷ us) g h a = a

IsEdge-of_explored :
    (ts : List ToolExecutionChunk) (g : Option Group) → ts ≢ [] → g ≢ some explored → IsEdge ts [] g
IsEdge-of_explored [] g h a = absurd (h refl)
IsEdge-of_explored (t ∷ ts) g h a = a

push_subagent-IsGood :
    (i : ℕ) (t : ToolExecutionChunk) (s : State)
    → IsSubagent t
    → IsGood s
    → IsGood (push_subagent i t (flush_explored s))
unfolding push_subagent
push_subagent-IsGood i t s p h =
    let (flushed, empty) =
      flush_explored-IsFlushed s.items s.explored_buffer s.subagent_buffer s.explored_start
        s.subagent_start h in
    let s' = flush_explored s in
    record {
      rows = flushed.rows;
      separated = flushed.separated;
      edge = rw empty (
          IsEdge-of_subagents (s'.subagent_buffer ++ t ∷ []) _
            (append-ne-nil s'.subagent_buffer t []) flushed.apart);
      explored_ok = flushed.explored_ok;
      subagents_ok = All-append IsSubagent s'.subagent_buffer (t ∷ []) flushed.subagents_ok (p, tt);
    }

push_explored-IsGood :
    (i : ℕ) (t : ToolExecutionChunk) (s : State)
    → IsExplored t
    → IsGood s
    → IsGood (push_explored i t (flush_subagents s))
unfolding push_explored
push_explored-IsGood i t s p h =
    let (flushed, empty) =
      flush_subagents-IsFlushed s.items s.explored_buffer s.subagent_buffer s.explored_start
        s.subagent_start h in
    let s' = flush_subagents s in
    record {
      rows = flushed.rows;
      separated = flushed.separated;
      edge = rw empty (
          IsEdge-of_explored (s'.explored_buffer ++ t ∷ []) _
            (append-ne-nil s'.explored_buffer t []) flushed.apart);
      explored_ok = All-append IsExplored s'.explored_buffer (t ∷ []) flushed.explored_ok (p, tt);
      subagents_ok = flushed.subagents_ok;
    }

single_item-IsRow :
    (t : ToolExecutionChunk)
    → IsSingle t
    → (group_of (single_item t) ≡ none) × IsRow (single_item t)
unfolding single_item
single_item-IsRow t h = ground arith

add_tool-IsGood : (i : ℕ) (t : ToolExecutionChunk) (s : State) → IsGood s → IsGood (add_tool i t s)
unfolding add_tool
add_tool-IsGood i t s h = elim (Bool-cases (is_subagent_tool t)) [
  | inl sub ↦ rw sub (push_subagent-IsGood i t s sub h)
  | inr other ↦ elim (Bool-cases (is_exploration_tool t)) [
    | inl explores ↦ rw (other, explores) (push_explored-IsGood i t s (explores, other) h)
    | inr alone ↦
        let (no_group, row) = single_item-IsRow t (alone, other) in
        rw (other, alone) (push_item-IsGood s (single_item t) no_group row h)
  ]
]

add_chunk-IsGood :
    (id : Option Text) (i : ℕ) (c : Chunk) (s : State) → IsGood s → IsGood (add_chunk id i c s)
unfolding add_chunk is_blank
add_chunk-IsGood id i (tool_execution t) s h = add_tool-IsGood i t s h
add_chunk-IsGood id i (reasoning t) s h = push_item-IsGood s _ refl tt h
add_chunk-IsGood id i (text t) s h = elim (Bool-cases (is_empty (trim t))) [
  | inl blank ↦ rw blank h
  | inr filled ↦ rw filled (push_item-IsGood s _ refl tt h)
]
add_chunk-IsGood id i c s h = push_item-IsGood s (text_chunk (item_key id c i) c) refl tt h

add_chunks-IsGood :
    (id : Option Text) (i : ℕ) (cs : List Chunk) (s : State)
    → IsGood s
    → IsGood (add_chunks id i cs s)
unfolding add_chunks
add_chunks-IsGood id i [] s h = h
add_chunks-IsGood id i (c ∷ cs) s h =
    add_chunks-IsGood id (suc i) cs (add_chunk id i c s) (add_chunk-IsGood id i c s h)

-- Explorations and subagents are grouped as far as they can be: a group has chunks, all of its kind,
-- no two groups of one kind are neighbours, and no chunk of a row of its own could be grouped.
pub build_render_items-IsSeparated :
    (chunks : List Chunk) (message_id : Option Text)
    → All IsRow (build_render_items chunks message_id)
      × IsSeparated (build_render_items chunks message_id)
unfolding build_render_items
build_render_items-IsSeparated chunks message_id =
    let s = add_chunks message_id 0 chunks start in
    let good =
      add_chunks-IsGood message_id 0 chunks start
        (record { rows = tt; separated = tt; edge = refl; explored_ok = tt; subagents_ok = tt }) in
    let (rows, separated, _, _) =
      flush_groups-IsFlushed s.items s.explored_buffer s.subagent_buffer s.explored_start
        s.subagent_start good in
    (rows, separated)
