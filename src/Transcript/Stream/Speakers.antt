-- ===== src/Transcript/Stream/Speakers.antt =====
-- Who says what in the transcript.
use mobile_agent.Prelude.{
  ℕ, suc, Text, ◌≡◌, refl, Bool, true, false, Option, none, some, List, [], ◌∷◌, All, All-append,
  arith,
}
use mobile_agent.Types.{Author, user, Chunk, Message}
use mobile_agent.Transcript.Sdk.{
  Body, human, ai, tool, other, BaseMessage, AssembledToolCall, Snapshot, Runtime,
}
use mobile_agent.Transcript.Content.{message_timestamp}
use mobile_agent.Transcript.Stream.{
  Lookups, lookups, AgentTurn, State, flush_turn, flush_agent_turn, human_chunks, message_id,
  push_user, append_agent_chunks, ai_chunks, read_message, read_messages, start,
  stream_messages_to_ui,
}
use mobile_agent.Transcript.Stream.Cards.{faces, faces-human_chunks}

abbrev pub is_users : Author → Bool
is_users user = true
is_users _ = false

pub record IsSpoken (m : Message) : Type 0 where
  pub not_hidden : m.hidden ≡ none
  pub no_cards : is_users m.author ≡ true → faces m.chunks ≡ []

flush_turn-IsSpoken :
    (ui : List Message) (turn : Option AgentTurn)
    → All IsSpoken ui
    → All IsSpoken (flush_turn ui turn)
unfolding flush_turn
flush_turn-IsSpoken ui none h = h
flush_turn-IsSpoken ui (some turn) h =
    All-append IsSpoken ui _ h
      (record { not_hidden = refl; no_cards = λ e. absurd (ground arith) }, tt)

push_user-IsSpoken :
    (id timestamp : Text) (cs : List Chunk) (s : State)
    → faces cs ≡ []
    → All IsSpoken s.ui_messages
    → All IsSpoken (push_user id timestamp cs s).ui_messages
unfolding push_user
push_user-IsSpoken id timestamp [] s e h = h
push_user-IsSpoken id timestamp (c ∷ cs) s e h =
    All-append IsSpoken s.ui_messages _ h (record { not_hidden = refl; no_cards = λ _. e }, tt)

append_agent_chunks-IsSpoken :
    (id timestamp : Text) (cs : List Chunk) (s : State)
    → All IsSpoken s.ui_messages
    → All IsSpoken (append_agent_chunks id timestamp cs s).ui_messages
unfolding append_agent_chunks
append_agent_chunks-IsSpoken id timestamp [] s h = h
append_agent_chunks-IsSpoken id timestamp (c ∷ cs) s h = h

abbrev IsGood : State → Type 0
IsGood s = All IsSpoken s.ui_messages

module _ (js : Runtime) (maps : Lookups) where
  read_message-IsSpoken :
      (index : ℕ) (raw : BaseMessage) (s : State)
      → IsGood s
      → IsGood (read_message js maps index raw s)
  unfolding read_message
  read_message-IsSpoken index raw s h = go raw.body
    where
      go :
          (b : Body)
          → IsGood (elim b [
            | human m ↦
                push_user
                  (message_id index raw)
                  (message_timestamp js index raw)
                  (human_chunks m)
                  (flush_agent_turn s)
            | ai m ↦
                append_agent_chunks
                  (message_id index raw)
                  (message_timestamp js index raw)
                  (ai_chunks js maps index m)
                  s
            | tool m ↦ s
            | other ↦ s
          ])
      go (human m) =
          push_user-IsSpoken _ _ (human_chunks m) _ (faces-human_chunks m)
            (flush_turn-IsSpoken s.ui_messages s.agent_turn h)
      go (ai m) = append_agent_chunks-IsSpoken _ _ (ai_chunks js maps index m) s h
      go (tool m) = h
      go other = h

  read_messages-IsSpoken :
      (index : ℕ) (messages : List BaseMessage) (s : State)
      → IsGood s
      → IsGood (read_messages js maps index messages s)
  unfolding read_messages
  read_messages-IsSpoken index [] s h = h
  read_messages-IsSpoken index (raw ∷ rest) s h =
      read_messages-IsSpoken (suc index) rest (read_message js maps index raw s)
        (read_message-IsSpoken index raw s h)

pub stream_messages_to_ui-IsSpoken :
    (js : Runtime) (messages : List BaseMessage) (calls : List AssembledToolCall)
    (subagents : List Snapshot)
    → All IsSpoken (stream_messages_to_ui js messages calls subagents)
unfolding stream_messages_to_ui
stream_messages_to_ui-IsSpoken js messages calls subagents =
    flush_turn-IsSpoken _ _
      (read_messages-IsSpoken js (lookups messages calls subagents) 0 messages start tt)
