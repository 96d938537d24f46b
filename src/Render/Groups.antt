-- ===== src/Render/Groups.antt =====
-- The groups among the rows, and what stands next to them.
pub mod Steps
use mobile_agent.Prelude.{
  ℕ, zero, suc, Text, ◌≡◌, refl, sym, ◌≢◌, Bool, true, false, Option, none, some, List, [], ◌∷◌,
  ◌++◌, arith, All, All-append, Bool-cases, inl, inr, is_empty, trim, append-ne-nil,
}
use mobile_agent.Types.{Chunk, text, reasoning, tool_execution, ToolExecutionChunk}
use mobile_agent.Render.{
  RenderItem, text_chunk, reasoning_item, explored_group, subagent_group, edit_item, shell_item,
  reply_item, tool_item, State, flush_explored, flush_subagents, flush_groups, push_item,
  push_subagent, push_explored, single_item, is_subagent_tool, is_exploration_tool, add_tool,
  is_blank, item_key, add_chunk, add_chunks, start, build_render_items,
}

pub data Group : Type 0 where
  explored subagents : Group

abbrev pub group_of : RenderItem → Option Group
group_of (explored_group key ts) = some explored
group_of (subagent_group key ts) = some subagents
group_of _ = none

-- A row that is no group, or no continuation of the group before it.
abbrev pub IsApart : Option Group → Option Group → Type 0
IsApart g none = Unit {0}
IsApart g (some k) = g ≢ some k

-- No group stands next to one of its own kind.
abbrev pub IsSeparated : List RenderItem → Type 0
IsSeparated [] = Unit {0}
IsSeparated (x ∷ []) = Unit {0}
IsSeparated (x ∷ y ∷ rest) = IsApart (group_of x) (group_of y) × IsSeparated (y ∷ rest)

abbrev pub IsExplored : ToolExecutionChunk → Type 0
IsExplored t = (is_exploration_tool t ≡ true) × (is_subagent_tool t ≡ false)

abbrev pub IsSubagent : ToolExecutionChunk → Type 0
IsSubagent t = is_subagent_tool t ≡ true

abbrev pub IsSingle : ToolExecutionChunk → Type 0
IsSingle t = (is_exploration_tool t ≡ false) × (is_subagent_tool t ≡ false)

abbrev pub IsRow : RenderItem → Type 0
IsRow (explored_group key ts) = (ts ≢ []) × All IsExplored ts
IsRow (subagent_group key ts) = (ts ≢ []) × All IsSubagent ts
IsRow (edit_item key t) = IsSingle t
IsRow (shell_item key t) = IsSingle t
IsRow (reply_item key t) = IsSingle t
IsRow (tool_item key t) = IsSingle t
IsRow _ = Unit {0}

abbrev pub last_group : List RenderItem → Option Group
last_group [] = none
last_group (x ∷ []) = group_of x
last_group (x ∷ y ∷ rest) = last_group (y ∷ rest)

pub last_group-push :
    (xs : List RenderItem) (y : RenderItem) → last_group (xs ++ y ∷ []) ≡ group_of y
last_group-push [] y = refl
last_group-push (x ∷ []) y = refl
last_group-push (x ∷ z ∷ rest) y = last_group-push (z ∷ rest) y

pub IsSeparated-push :
    (xs : List RenderItem) (y : RenderItem)
    → IsSeparated xs
    → IsApart (last_group xs) (group_of y)
    → IsSeparated (xs ++ y ∷ [])
IsSeparated-push [] y _ _ = tt
IsSeparated-push (x ∷ []) y _ a = (a, tt)
IsSeparated-push (x ∷ z ∷ rest) y (b, h) a = (b, IsSeparated-push (z ∷ rest) y h a)

-- At most one buffer is filled, and the last row is no group that it would continue.
abbrev pub IsEdge : List ToolExecutionChunk → List ToolExecutionChunk → Option Group → Type 0
IsEdge [] [] g = g ≡ none
IsEdge (t ∷ ts) [] g = g ≢ some explored
IsEdge [] (u ∷ us) g = g ≢ some subagents
IsEdge (t ∷ ts) (u ∷ us) g = ⊥

pub record IsGood (s : State) : Type 0 where
  pub rows : All IsRow s.items
  pub separated : IsSeparated s.items
  pub edge : IsEdge s.explored_buffer s.subagent_buffer (last_group s.items)
  pub explored_ok : All IsExplored s.explored_buffer
  pub subagents_ok : All IsSubagent s.subagent_buffer

-- What holds between a flush and what follows it, where `g` is the group that must not come last.
pub record IsFlushed (g : Option Group) (s : State) : Type 0 where
  pub rows : All IsRow s.items
  pub separated : IsSeparated s.items
  pub apart : IsApart (last_group s.items) g
  pub explored_ok : All IsExplored s.explored_buffer
  pub subagents_ok : All IsSubagent s.subagent_buffer

abbrev state :
    List RenderItem
    → List ToolExecutionChunk
    → Option ℕ
    → List ToolExecutionChunk
    → Option ℕ
    → State
state items ts i us j = record {
  items = items;
  explored_buffer = ts;
  explored_start = i;
  subagent_buffer = us;
  subagent_start = j;
}

pub flush_explored-IsFlushed :
    (items : List RenderItem) (ts us : List ToolExecutionChunk) (i j : Option ℕ)
    → IsGood (state items ts i us j)
    → IsFlushed (some subagents) (flush_explored (state items ts i us j))
      × ((flush_explored (state items ts i us j)).explored_buffer ≡ [])
unfolding flush_explored
flush_explored-IsFlushed items [] [] i j h = (
  record {
    rows = h.rows;
    separated = h.separated;
    apart = ground arith;
    explored_ok = tt;
    subagents_ok = tt;
  },
  refl,
)
flush_explored-IsFlushed items [] (u ∷ us) i j h = (
  record {
    rows = h.rows;
    separated = h.separated;
    apart = h.edge;
    explored_ok = tt;
    subagents_ok = h.subagents_ok;
  },
  refl,
)
flush_explored-IsFlushed items (t ∷ ts) [] i j h = (
  record {
    rows = All-append IsRow items _ h.rows ((ground arith, h.explored_ok), tt);
    separated = IsSeparated-push items _ h.separated h.edge;
    apart = rw (last_group-push items (explored_group _ (t ∷ ts))) (ground arith);
    explored_ok = tt;
    subagents_ok = tt;
  },
  refl,
)
flush_explored-IsFlushed items (t ∷ ts) (u ∷ us) i j h = absurd h.edge

pub flush_subagents-IsFlushed :
    (items : List RenderItem) (ts us : List ToolExecutionChunk) (i j : Option ℕ)
    → IsGood (state items ts i us j)
    → IsFlushed (some explored) (flush_subagents (state items ts i us j))
      × ((flush_subagents (state items ts i us j)).subagent_buffer ≡ [])
unfolding flush_subagents
flush_subagents-IsFlushed items [] [] i j h = (
  record {
    rows = h.rows;
    separated = h.separated;
    apart = ground arith;
    explored_ok = tt;
    subagents_ok = tt;
  },
  refl,
)
flush_subagents-IsFlushed items (t ∷ ts) [] i j h = (
  record {
    rows = h.rows;
    separated = h.separated;
    apart = h.edge;
    explored_ok = h.explored_ok;
    subagents_ok = tt;
  },
  refl,
)
flush_subagents-IsFlushed items [] (u ∷ us) i j h = (
  record {
    rows = All-append IsRow items _ h.rows ((ground arith, h.subagents_ok), tt);
    separated = IsSeparated-push items _ h.separated h.edge;
    apart = rw (last_group-push items (subagent_group _ (u ∷ us))) (ground arith);
    explored_ok = tt;
    subagents_ok = tt;
  },
  refl,
)
flush_subagents-IsFlushed items (t ∷ ts) (u ∷ us) i j h = absurd h.edge

-- A row that is no group may follow the flush of both buffers.
pub flush_groups-IsFlushed :
    (items : List RenderItem) (ts us : List ToolExecutionChunk) (i j : Option ℕ)
    → IsGood (state items ts i us j)
    → All IsRow (flush_groups (state items ts i us j)).items
      × IsSeparated (flush_groups (state items ts i us j)).items
      × ((flush_groups (state items ts i us j)).explored_buffer ≡ [])
      × ((flush_groups (state items ts i us j)).subagent_buffer ≡ [])
unfolding flush_groups flush_explored flush_subagents
flush_groups-IsFlushed items [] [] i j h = (h.rows, h.separated, refl, refl)
flush_groups-IsFlushed items (t ∷ ts) [] i j h = (
  All-append IsRow items _ h.rows ((ground arith, h.explored_ok), tt),
  IsSeparated-push items _ h.separated h.edge,
  refl,
  refl,
)
flush_groups-IsFlushed items [] (u ∷ us) i j h = (
  All-append IsRow items _ h.rows ((ground arith, h.subagents_ok), tt),
  IsSeparated-push items _ h.separated h.edge,
  refl,
  refl,
)
flush_groups-IsFlushed items (t ∷ ts) (u ∷ us) i j h = absurd h.edge
