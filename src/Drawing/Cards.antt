-- ===== src/Drawing/Cards.antt =====
-- From the streamed messages to the rows of the messages.
use mobile_agent.Prelude.{
  ◌≡◌, refl, ◌∙◌, sym, ap, true, none, some, List, [], ◌∷◌, ◌++◌, map, filter, flat_map,
  flat_map-append, All, Bool-cases, inl, inr,
}
use mobile_agent.Types.{Author, user, agent, system, tool, Chunk, tool_execution, text, Message}
use mobile_agent.Transcript.Sdk.{BaseMessage, AssembledToolCall, Snapshot, Runtime}
use mobile_agent.Transcript.Stream.{stream_messages_to_ui}
use mobile_agent.Transcript.Stream.Conservation.{shown}
use mobile_agent.Transcript.Stream.Cards.{
  tool_cards, faces, face, face_of_call, is_visible, calls_of, faces-append,
  stream_messages_to_ui-cards,
}
use mobile_agent.Transcript.Stream.Speakers.{IsSpoken, is_users, stream_messages_to_ui-IsSpoken}
use mobile_agent.Render.{build_render_items, is_blank}
use mobile_agent.Render.Conservation.{chunks_of_item, chunks_of_items}
use mobile_agent.Render.Conservation.Steps.{is_shown, build_render_items-keeps}
use mobile_agent.Drawing.{visible_messages, agent_rows, rows_by, drawn_rows}

-- a blank text is no card
tool_cards-is_shown : (cs : List Chunk) → tool_cards (filter is_shown cs) ≡ tool_cards cs
unfolding is_blank
tool_cards-is_shown [] = refl
tool_cards-is_shown (tool_execution t ∷ cs) = rw (tool_cards-is_shown cs) refl
tool_cards-is_shown (text t ∷ cs) = elim (Bool-cases (is_shown (text t))) [
  | inl e ↦ rw e (tool_cards-is_shown cs)
  | inr e ↦ rw e (tool_cards-is_shown cs)
]
tool_cards-is_shown (_ ∷ cs) = tool_cards-is_shown cs

faces-rows :
    (m : Message)
    → faces (chunks_of_items (build_render_items m.chunks (some m.id))) ≡ faces m.chunks
faces-rows m = rw (build_render_items-keeps m.chunks (some m.id), tool_cards-is_shown m.chunks) refl

faces-agent_rows :
    (m : Message) → IsSpoken m → faces (chunks_of_items (agent_rows m)) ≡ faces m.chunks
unfolding agent_rows
faces-agent_rows m h = go m.author h.no_cards
  where
    go :
        (a : Author)
        → (is_users a ≡ true → faces m.chunks ≡ [])
        → faces (chunks_of_items (rows_by a m)) ≡ faces m.chunks
    go user k = sym (k refl)
    go agent k = faces-rows m
    go system k = faces-rows m
    go tool k = faces-rows m

drawn_rows-cons :
    (m : Message) (ms : List Message)
    → m.hidden ≡ none
    → drawn_rows (m ∷ ms) ≡ agent_rows m ++ drawn_rows ms
unfolding drawn_rows visible_messages
drawn_rows-cons m ms e = rw e refl

faces_cons :
    (m : Message) (ms : List Message)
    → IsSpoken m
    → faces (chunks_of_items (drawn_rows ms)) ≡ faces (shown ms)
    → faces (chunks_of_items (drawn_rows (m ∷ ms))) ≡ faces (shown (m ∷ ms))
faces_cons m ms h rest =
    ap (λ items. faces (chunks_of_items items)) (drawn_rows-cons m ms h.not_hidden)
    ∙ ap faces (flat_map-append chunks_of_item (agent_rows m) (drawn_rows ms))
    ∙ faces-append (chunks_of_items (agent_rows m)) (chunks_of_items (drawn_rows ms))
    ∙ rw (faces-agent_rows m h, rest) refl
    ∙ sym (faces-append m.chunks (shown ms))

faces-drawn_rows :
    (ms : List Message)
    → All IsSpoken ms
    → faces (chunks_of_items (drawn_rows ms)) ≡ faces (shown ms)
unfolding drawn_rows visible_messages
faces-drawn_rows [] h = refl
faces-drawn_rows (m ∷ ms) (h, hs) = faces_cons m ms h (faces-drawn_rows ms hs)

-- The rows of the messages that are drawn hold one chunk of a tool, to be drawn as a card where its
-- group is open, for each tool call of the AI messages that is not internal, in the order of the
-- calls, and no other; the chunk has the title and the kind that the call's name and arguments give.
pub drawn_rows-cards :
    (js : Runtime) (messages : List BaseMessage) (calls : List AssembledToolCall)
    (subagents : List Snapshot)
    → map face (
        tool_cards
          (chunks_of_items (drawn_rows (stream_messages_to_ui js messages calls subagents))))
      ≡ map (face_of_call js) (filter is_visible (flat_map calls_of messages))
drawn_rows-cards js messages calls subagents =
    faces-drawn_rows (stream_messages_to_ui js messages calls subagents)
      (stream_messages_to_ui-IsSpoken js messages calls subagents)
    ∙ stream_messages_to_ui-cards js messages calls subagents
