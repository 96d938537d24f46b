-- ===== src/Transcript/Stream/Shape.antt =====
-- What every message of the transcript looks like.
use mobile_agent.Prelude.{
  ℕ, suc, ◌≤◌, Text, ◌≡◌, refl, ◌≢◌, ◌⊎◌, inl, inr, Option, none, some, List, [], ◌∷◌, filter,
  length, All, All-append, append-ne-nil, arith,
}
use mobile_agent.Types.{Chunk, user, agent, Message}
use mobile_agent.Transcript.Sdk.{
  human, ai, tool, other, Body, BaseMessage, AssembledToolCall, Snapshot, Runtime,
}
use mobile_agent.Transcript.Content.{message_timestamp}
use mobile_agent.Transcript.Merge.{is_text}
use mobile_agent.Transcript.Merge.Laws.{
  length-last_one, merge_text_chunks_keeps, merge_text_chunks-ne-nil,
}
use mobile_agent.Transcript.Stream.{
  Lookups, lookups, AgentTurn, State, flush_turn, flush_agent_turn, extend_turn, human_chunks,
  ai_chunks, push_user, append_agent_chunks, message_id, read_message, read_messages, start,
  stream_messages_to_ui,
}

-- A message that is shown has chunks and comes from the user or the agent, and a message of the
-- agent has at most one text.
pub record IsShown (m : Message) : Type 0 where
  pub filled : m.chunks ≢ []
  pub author : (m.author ≡ user) ⊎ (m.author ≡ agent)
  pub one_text : m.author ≡ agent → length (filter is_text m.chunks) ≤ 1

abbrev IsOpen : Option AgentTurn → Type 0
IsOpen none = Unit {0}
IsOpen (some turn) = turn.chunks ≢ []

flush_turn-IsShown :
    (ui : List Message) (turn : Option AgentTurn)
    → All IsShown ui
    → IsOpen turn
    → All IsShown (flush_turn ui turn)
unfolding flush_turn
flush_turn-IsShown ui none h _ = h
flush_turn-IsShown ui (some turn) h o = All-append IsShown ui _ h (
  record {
    filled = merge_text_chunks-ne-nil turn.chunks o;
    author = inr refl;
    one_text = λ _.
        rw ((merge_text_chunks_keeps turn.chunks).1) (length-last_one (filter is_text turn.chunks));
  },
  tt,
)

extend_turn-IsOpen :
    (id timestamp : Text) (c : Chunk) (cs : List Chunk) (turn : Option AgentTurn)
    → (extend_turn id timestamp (c ∷ cs) turn).chunks ≢ []
unfolding extend_turn
extend_turn-IsOpen id timestamp c cs none = ground arith
extend_turn-IsOpen id timestamp c cs (some turn) = append-ne-nil turn.chunks c cs

abbrev IsGood : State → Type 0
IsGood s = All IsShown s.ui_messages × IsOpen s.agent_turn

push_user-IsGood :
    (id timestamp : Text) (cs : List Chunk) (s : State)
    → IsGood s
    → IsGood (push_user id timestamp cs s)
unfolding push_user
push_user-IsGood id timestamp [] s h = h
push_user-IsGood id timestamp (c ∷ cs) s (h, o) = (
  All-append IsShown s.ui_messages _ h
      (record { filled = ground arith; author = inl refl; one_text = λ e. ground arith }, tt),
  o,
)

append_agent_chunks-IsGood :
    (id timestamp : Text) (cs : List Chunk) (s : State)
    → IsGood s
    → IsGood (append_agent_chunks id timestamp cs s)
unfolding append_agent_chunks
append_agent_chunks-IsGood id timestamp [] s h = h
append_agent_chunks-IsGood id timestamp (c ∷ cs) s (h, o) =
    (h, extend_turn-IsOpen id timestamp c cs s.agent_turn)

module _ (js : Runtime) (maps : Lookups) where
  read_message-IsGood :
      (index : ℕ) (raw : BaseMessage) (s : State)
      → IsGood s
      → IsGood (read_message js maps index raw s)
  unfolding read_message
  read_message-IsGood index raw s (h, o) = go raw.body
    where
      go :
          (b : Body)
          → IsGood (elim b [
            | human m ↦
                push_user
                  (message_id index raw)
                  (message_timestamp js index raw)
                  (human_chunks m)
                  (flush_agent_turn s)
            | ai m ↦
                append_agent_chunks
                  (message_id index raw)
                  (message_timestamp js index raw)
                  (ai_chunks js maps index m)
                  s
            | tool m ↦ s
            | other ↦ s
          ])
      go (human m) =
          push_user-IsGood _ _ (human_chunks m) _
            (flush_turn-IsShown s.ui_messages s.agent_turn h o, tt)
      go (ai m) = append_agent_chunks-IsGood _ _ (ai_chunks js maps index m) s (h, o)
      go (tool m) = (h, o)
      go other = (h, o)

  read_messages-IsGood :
      (index : ℕ) (messages : List BaseMessage) (s : State)
      → IsGood s
      → IsGood (read_messages js maps index messages s)
  unfolding read_messages
  read_messages-IsGood index [] s h = h
  read_messages-IsGood index (raw ∷ rest) s h =
      read_messages-IsGood (suc index) rest (read_message js maps index raw s)
        (read_message-IsGood index raw s h)

-- Every message of the transcript has chunks, is the user's or the agent's, and shows at most one
-- text if it is the agent's.
pub stream_messages_to_ui-IsShown :
    (js : Runtime) (messages : List BaseMessage) (calls : List AssembledToolCall)
    (subagents : List Snapshot)
    → All IsShown (stream_messages_to_ui js messages calls subagents)
unfolding stream_messages_to_ui
stream_messages_to_ui-IsShown js messages calls subagents =
    let (h, o) =
      read_messages-IsGood js (lookups messages calls subagents) 0 messages start (tt, tt) in
    flush_turn-IsShown _ _ h o
