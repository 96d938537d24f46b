-- ===== src/Transcript/Stream/Cards.antt =====
-- The cards of the tool calls.
use mathlib.Core.List.{map-append}
use mobile_agent.Prelude.{
  ℕ, zero, suc, Text, ◌≡◌, refl, sym, ap, ◌∙◌, Bool, not, List, [], ◌∷◌, ◌++◌, map, append-nil,
  append_assoc, filter, flat_map, length, All, Bool-cases, inl, inr, filter-append, trim,
}
use mobile_agent.Prelude.Strings.{has}
use mobile_agent.Types.{Chunk, text, reasoning, image, tool_execution, ToolExecutionChunk, ToolKind}
use mobile_agent.Transcript.Sdk.{
  ToolCall, HumanMessage, human, ai, tool, other, Body, BaseMessage, AssembledToolCall, Snapshot,
  Runtime,
}
use mobile_agent.Transcript.Tools.{internal_tools, tool_kind, tool_title, parse_tool_args}
use mobile_agent.Transcript.Content.{image_chunks, reasoning_text}
use mobile_agent.Transcript.Content.Laws.{IsImage, image_chunks-IsImage}
use mobile_agent.Transcript.Merge.Laws.{not_text}
use mobile_agent.Transcript.Stream.{
  Lookups, lookups, call_name, push_filled, human_chunks, push_calls, call_id, tool_chunk,
  ai_chunks, stream_messages_to_ui,
}
use mobile_agent.Transcript.Stream.Conservation.{
  shown, chunks_of_body, chunks_from, stream_messages_to_ui-keeps,
}

-- The tool cards among chunks.
abbrev pub tool_cards : List Chunk → List ToolExecutionChunk
tool_cards [] = []
tool_cards (tool_execution t ∷ cs) = t ∷ tool_cards cs
tool_cards (_ ∷ cs) = tool_cards cs

tool_cards-append : (cs ds : List Chunk) → tool_cards (cs ++ ds) ≡ tool_cards cs ++ tool_cards ds
tool_cards-append [] ds = refl
tool_cards-append (tool_execution t ∷ cs) ds = rw (tool_cards-append cs ds)
tool_cards-append (_ ∷ cs) ds = tool_cards-append cs ds

tool_cards-not_text : (cs : List Chunk) → tool_cards (filter not_text cs) ≡ tool_cards cs
tool_cards-not_text [] = refl
tool_cards-not_text (tool_execution t ∷ cs) = rw (tool_cards-not_text cs)
tool_cards-not_text (_ ∷ cs) = tool_cards-not_text cs

-- What a card shows of its call alone.
abbrev pub face : ToolExecutionChunk → Text × ToolKind
face t = (t.title, t.tool_kind)

abbrev pub faces : List Chunk → List (Text × ToolKind)
faces cs = map face (tool_cards cs)

-- The calls of a message that are not internal, as their cards show them.
abbrev pub is_visible : ToolCall → Bool
is_visible call = not (has internal_tools (call_name call))

abbrev pub face_of_call : Runtime → ToolCall → Text × ToolKind
face_of_call js call =
    (tool_title (call_name call) (parse_tool_args js call.args), tool_kind (call_name call))

abbrev pub calls_of_body : Body → List ToolCall
calls_of_body (ai m) = m.tool_calls
calls_of_body _ = []

abbrev pub calls_of : BaseMessage → List ToolCall
calls_of raw = calls_of_body raw.body

pub faces-append : (cs ds : List Chunk) → faces (cs ++ ds) ≡ faces cs ++ faces ds
faces-append cs ds = rw (tool_cards-append cs ds) (map-append face (tool_cards cs) (tool_cards ds))

faces_of_images : (cs : List Chunk) → All IsImage cs → faces cs ≡ []
faces_of_images [] _ = refl
faces_of_images (image i ∷ cs) (_, h) = faces_of_images cs h
faces_of_images (_ ∷ cs) (h, _) = absurd h

faces-push_text : (cs : List Chunk) (t : Text) → faces (push_filled cs text t) ≡ faces cs
faces-push_text cs [] = refl
faces-push_text cs (c ∷ t) = faces-append cs (text (c ∷ t) ∷ []) ∙ append-nil (faces cs)

faces-push_reasoning : (t : Text) → faces (push_filled [] reasoning t) ≡ []
faces-push_reasoning [] = refl
faces-push_reasoning (c ∷ t) = refl

pub faces-human_chunks : (m : HumanMessage) → faces (human_chunks m) ≡ []
unfolding human_chunks
faces-human_chunks m =
    faces-push_text (image_chunks m.content) (trim m.text)
    ∙ faces_of_images (image_chunks m.content) (image_chunks-IsImage m.content)

module _ (js : Runtime) (maps : Lookups) where
  faces-push_calls :
      (index : ℕ) (cs : List Chunk) (calls : List ToolCall)
      → faces (push_calls js maps index cs calls)
        ≡ faces cs ++ map (face_of_call js) (filter is_visible calls)
  unfolding push_calls tool_chunk
  faces-push_calls index cs [] = sym (append-nil (faces cs))
  faces-push_calls index cs (call ∷ calls) =
      elim (Bool-cases (has internal_tools (call_name call))) [
        | inl hidden ↦ rw hidden (faces-push_calls index cs calls)
        | inr visible ↦ rw visible (
            faces-push_calls index (cs ++ card ∷ []) calls
            ∙ rw (faces-append cs (card ∷ []))
                (append_assoc (faces cs) (face_of_call js call ∷ []) _))
      ]
    where
      card : Chunk
      card =
          tool_execution (tool_chunk js maps (call_id index (length cs) call) (call_name call) call)

  faces-chunks_of_body :
      (index : ℕ) (raw : BaseMessage)
      → faces (chunks_of_body js maps index raw.body)
        ≡ map (face_of_call js) (filter is_visible (calls_of raw))
  unfolding ai_chunks
  faces-chunks_of_body index raw = go raw.body
    where
      go :
          (b : Body)
          → faces (chunks_of_body js maps index b)
            ≡ map (face_of_call js) (filter is_visible (calls_of_body b))
      go (human m) = faces-human_chunks m
      go (ai m) =
          faces-push_calls index _ m.tool_calls
          ∙ ap (λ l. l ++ map (face_of_call js) (filter is_visible m.tool_calls))
              (faces-push_text (push_filled [] reasoning (reasoning_text m.content_blocks))
                  (trim m.text)
                ∙ faces-push_reasoning (reasoning_text m.content_blocks))
      go (tool m) = refl
      go other = refl

  faces-chunks_from :
      (index : ℕ) (messages : List BaseMessage)
      → faces (chunks_from js maps index messages)
        ≡ map (face_of_call js) (filter is_visible (flat_map calls_of messages))
  faces-chunks_from index [] = refl
  faces-chunks_from index (raw ∷ rest) =
      faces-append (chunks_of_body js maps index raw.body) (chunks_from js maps (suc index) rest)
      ∙ rw (
        filter-append is_visible (calls_of raw) (flat_map calls_of rest),
        map-append (face_of_call js) (filter is_visible (calls_of raw))
            (filter is_visible (flat_map calls_of rest)),
        faces-chunks_of_body index raw,
        faces-chunks_from (suc index) rest,
      )

-- The tool calls of the AI messages that are not internal have one card each, in order, with the
-- title and the kind that their names and arguments give; there are no other cards.
pub stream_messages_to_ui-cards :
    (js : Runtime) (messages : List BaseMessage) (calls : List AssembledToolCall)
    (subagents : List Snapshot)
    → map face (tool_cards (shown (stream_messages_to_ui js messages calls subagents)))
      ≡ map (face_of_call js) (filter is_visible (flat_map calls_of messages))
stream_messages_to_ui-cards js messages calls subagents =
    rw (← tool_cards-not_text (shown (stream_messages_to_ui js messages calls subagents))) (
      rw (stream_messages_to_ui-keeps js messages calls subagents) (
        rw (tool_cards-not_text (chunks_from js (lookups messages calls subagents) zero messages))
          (faces-chunks_from js (lookups messages calls subagents) zero messages)))
