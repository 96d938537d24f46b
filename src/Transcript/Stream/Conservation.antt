-- ===== src/Transcript/Stream/Conservation.antt =====
-- The chunks that the messages produce one by one, and the chunks of the transcript.
use mobile_agent.Prelude.{
  ℕ, zero, suc, Text, ◌≡◌, refl, sym, ap, ◌∙◌, Option, none, some, List, [], ◌∷◌, ◌++◌, append-nil,
  append_assoc, filter, filter-append, flat_map, flat_map-append,
}
use mobile_agent.Types.{Chunk, Message}
use mobile_agent.Transcript.Sdk.{
  human, ai, tool, other, Body, BaseMessage, AssembledToolCall, Snapshot, Runtime,
}
use mobile_agent.Transcript.Content.{message_timestamp}
use mobile_agent.Transcript.Merge.Laws.{not_text, merge_text_chunks_keeps}
use mobile_agent.Transcript.Stream.{
  Lookups, lookups, AgentTurn, State, flush_turn, flush_agent_turn, extend_turn, human_chunks,
  ai_chunks, user_message, push_user, append_agent_chunks, message_id, read_message, read_messages,
  start, stream_messages_to_ui,
}

module _ (js : Runtime) (maps : Lookups) where
  -- the chunks that one message gives rise to
  abbrev pub chunks_of_body : ℕ → Body → List Chunk
  chunks_of_body index (human m) = human_chunks m
  chunks_of_body index (ai m) = ai_chunks js maps index m
  chunks_of_body index (tool m) = []
  chunks_of_body index other = []

  -- and those of all messages, from an index on
  abbrev pub chunks_from : ℕ → List BaseMessage → List Chunk
  chunks_from index [] = []
  chunks_from index (raw ∷ rest) = chunks_of_body index raw.body ++ chunks_from (suc index) rest

abbrev pub shown : List Message → List Chunk
shown ui = flat_map (λ m. m.chunks) ui

-- The chunks that are not texts: in the messages shown, and in the open turn.
abbrev kept_turn : Option AgentTurn → List Chunk
kept_turn none = []
kept_turn (some turn) = filter not_text turn.chunks

abbrev kept : State → List Chunk
kept s = filter not_text (shown s.ui_messages) ++ kept_turn s.agent_turn

shown-push :
    (ui : List Message) (m : Message)
    → filter not_text (shown (ui ++ m ∷ []))
      ≡ filter not_text (shown ui) ++ filter not_text m.chunks
shown-push ui m =
    rw (flat_map-append (λ (n : Message). n.chunks) ui (m ∷ []))
      (rw (append-nil m.chunks) (filter-append not_text (shown ui) m.chunks))

kept-flush : (s : State) → filter not_text (shown (flush_turn s.ui_messages s.agent_turn)) ≡ kept s
unfolding flush_turn
kept-flush s = go s.ui_messages s.agent_turn
  where
    go :
        (ui : List Message) (turn : Option AgentTurn)
        → filter not_text (shown (flush_turn ui turn))
          ≡ filter not_text (shown ui) ++ kept_turn turn
    go ui none = sym (append-nil _)
    go ui (some turn) = rw (shown-push ui _) (rw ((merge_text_chunks_keeps turn.chunks).0) refl)

kept-push_user :
    (id timestamp : Text) (cs : List Chunk) (ui : List Message)
    → kept (push_user id timestamp cs (record { ui_messages = ui; agent_turn = none }))
      ≡ filter not_text (shown ui) ++ filter not_text cs
unfolding push_user
kept-push_user id timestamp [] ui = refl
kept-push_user id timestamp (c ∷ cs) ui =
    append-nil _ ∙ shown-push ui (user_message id timestamp (c ∷ cs))

kept-append :
    (id timestamp : Text) (cs : List Chunk) (s : State)
    → kept (append_agent_chunks id timestamp cs s) ≡ kept s ++ filter not_text cs
unfolding append_agent_chunks extend_turn
kept-append id timestamp [] s = sym (append-nil _)
kept-append id timestamp (c ∷ cs) s = go s.agent_turn
  where
    go :
        (turn : Option AgentTurn)
        → filter not_text (shown s.ui_messages)
            ++ kept_turn (some (extend_turn id timestamp (c ∷ cs) turn))
          ≡ (filter not_text (shown s.ui_messages) ++ kept_turn turn) ++ filter not_text (c ∷ cs)
    go none = rw (append-nil (filter not_text (shown s.ui_messages)))
    go (some turn) = simp (filter-append not_text turn.chunks (c ∷ cs), append_assoc)

module _ (js : Runtime) (maps : Lookups) where
  kept-read_message :
      (index : ℕ) (raw : BaseMessage) (s : State)
      → kept (read_message js maps index raw s)
        ≡ kept s ++ filter not_text (chunks_of_body js maps index raw.body)
  unfolding read_message
  kept-read_message index raw s = go raw.body
    where
      go :
          (b : Body)
          → kept (elim b [
            | human m ↦
                push_user
                  (message_id index raw)
                  (message_timestamp js index raw)
                  (human_chunks m)
                  (flush_agent_turn s)
            | ai m ↦
                append_agent_chunks
                  (message_id index raw)
                  (message_timestamp js index raw)
                  (ai_chunks js maps index m)
                  s
            | tool m ↦ s
            | other ↦ s
          ])
            ≡ kept s ++ filter not_text (chunks_of_body js maps index b)
      go (human m) =
          kept-push_user _ _ (human_chunks m) _
          ∙ ap (λ l. l ++ filter not_text (human_chunks m)) (kept-flush s)
      go (ai m) = kept-append _ _ (ai_chunks js maps index m) s
      go (tool m) = sym (append-nil _)
      go other = sym (append-nil _)

  kept-read_messages :
      (index : ℕ) (messages : List BaseMessage) (s : State)
      → kept (read_messages js maps index messages s)
        ≡ kept s ++ filter not_text (chunks_from js maps index messages)
  unfolding read_messages
  kept-read_messages index [] s = sym (append-nil _)
  kept-read_messages index (raw ∷ rest) s =
      rw
        (
          kept-read_messages (suc index) rest (read_message js maps index raw s),
          kept-read_message index raw s,
          filter-append not_text (chunks_of_body js maps index raw.body)
              (chunks_from js maps (suc index) rest),
        )
        (append_assoc (kept s) (filter not_text (chunks_of_body js maps index raw.body))
          (filter not_text (chunks_from js maps (suc index) rest)))

-- Every chunk that is no text (reasoning, images and tool calls) which some message gives rise to
-- stands in the transcript, once and in the order of the messages, and no other does.
pub stream_messages_to_ui-keeps :
    (js : Runtime) (messages : List BaseMessage) (calls : List AssembledToolCall)
    (subagents : List Snapshot)
    → filter not_text (shown (stream_messages_to_ui js messages calls subagents))
      ≡ filter not_text (chunks_from js (lookups messages calls subagents) zero messages)
unfolding stream_messages_to_ui
stream_messages_to_ui-keeps js messages calls subagents =
    kept-flush (read_messages js maps zero messages start)
    ∙ kept-read_messages js maps zero messages start
  where
    maps : Lookups
    maps = lookups messages calls subagents
