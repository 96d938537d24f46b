-- ===== src/Transcript/Stream.antt =====
-- lib/agents/streamMessagesToUi.ts, `streamMessagesToUi`: the lookups by tool-call id, and the loop
-- over the messages with its open agent turn.
pub mod Conservation
pub mod Status
pub mod Shape
pub mod Cards
pub mod Speakers
use mobile_agent.Prelude.{
  ℕ, zero, suc, Text, codes, filled, trim, decimal, Bool, Option, none, some, List, [], ◌∷◌, ◌++◌,
  ◌<|>◌, value_or, length, is_nil, if◌then◌else◌,
}
use mathlib.Core.Option
use mobile_agent.Prelude.Strings.{has}
use mobile_agent.Prelude.Maps.{Dict, lookup, insert}
use mobile_agent.Types.{
  Chunk, text, reasoning, tool_execution, ToolExecutionChunk, Message, Author, user, agent,
}
use mobile_agent.Transcript.Sdk.{
  ToolCall, HumanMessage, AiMessage, ToolMessage, Body, human, ai, tool, other, BaseMessage,
  AssembledToolCall, Snapshot, Runtime,
}
use mobile_agent.Transcript.Tools.{
  internal_tools, tool_kind, tool_title, parse_tool_args, tool_status, subagent_status,
  tool_output_text,
}
use mobile_agent.Transcript.Diffs.{maybe_diff_from_args, diff_from_artifact}
use mobile_agent.Transcript.Content.{message_timestamp, reasoning_text, image_chunks}
use mobile_agent.Transcript.Merge.{merge_text_chunks}

-- `toolCall.id || toolCall.callId`, if not empty
abbrev pub id_of_call : AssembledToolCall → Option Text
id_of_call call = filled call.id <|> filled call.call_id

abbrev pub id_of_snapshot : Snapshot → Option Text
id_of_snapshot snapshot = filled snapshot.id

abbrev insert_at {ℓ} : {V : Type ℓ} → Option Text → V → Dict V → Dict V
insert_at none v m = m
insert_at (some id) v m = insert id v m

-- a loop that sets each element under its id, if it has one
unfoldable pub index_by {ℓ} : {V : Type ℓ} → (V → Option Text) → Dict V → List V → Dict V
index_by id m [] = m
index_by id m (v ∷ vs) = index_by id (insert_at (id v) v m) vs

-- the tool results among the messages
unfoldable pub tool_results : List BaseMessage → List ToolMessage
tool_results [] = []
tool_results (raw ∷ rest) = elim raw.body [
  | tool result ↦ result ∷ tool_results rest
  | _ ↦ tool_results rest
]

-- The three maps that the loop reads.
pub record Lookups : Type 0 where
  pub tool_calls_by_id : Dict AssembledToolCall
  pub subagents_by_call_id : Dict Snapshot
  pub tool_messages_by_id : Dict ToolMessage

unfoldable pub lookups : List BaseMessage → List AssembledToolCall → List Snapshot → Lookups
unfolding index_by tool_results
lookups messages tool_calls subagents = record {
  tool_calls_by_id = index_by id_of_call [] tool_calls;
  subagents_by_call_id = index_by id_of_snapshot [] subagents;
  tool_messages_by_id = index_by (λ m. m.tool_call_id) [] (tool_results messages);
}

-- `AgentTurn`; its author is always the agent.
pub record AgentTurn : Type 0 where
  pub id : Text
  pub timestamp : Text
  pub chunks : List Chunk

pub record State : Type 0 where
  pub ui_messages : List Message
  pub agent_turn : Option AgentTurn

abbrev pub message_of_turn : AgentTurn → Message
message_of_turn turn = record {
  id = turn.id;
  author = agent;
  timestamp = turn.timestamp;
  chunks = merge_text_chunks turn.chunks;
  hidden = none;
}

unfoldable pub flush_turn : List Message → Option AgentTurn → List Message
flush_turn shown none = shown
flush_turn shown (some turn) = shown ++ message_of_turn turn ∷ []

-- `flushAgentTurn`
abbrev pub flush_agent_turn : State → State
flush_agent_turn s = record {
  ui_messages = flush_turn s.ui_messages s.agent_turn;
  agent_turn = none;
}

unfoldable pub extend_turn : Text → Text → List Chunk → Option AgentTurn → AgentTurn
extend_turn id timestamp chunks none = record { id = id; timestamp = timestamp; chunks = chunks }
extend_turn id timestamp chunks (some turn) = record turn {
  timestamp = timestamp;
  chunks = turn.chunks ++ chunks;
}

-- `if (text) chunks.push(…)`
abbrev pub push_filled : List Chunk → (Text → Chunk) → Text → List Chunk
push_filled chunks chunk [] = chunks
push_filled chunks chunk (c ∷ t) = chunks ++ chunk (c ∷ t) ∷ []

unfoldable pub human_chunks : HumanMessage → List Chunk
human_chunks raw = push_filled (image_chunks raw.content) text (trim raw.text)

unfoldable pub message_id : ℕ → BaseMessage → Text
message_id index raw =
    value_or (value_or (Option.map filled raw.id) none) (codes "msg-" ++ decimal index)

abbrev pub user_message : Text → Text → List Chunk → Message
user_message id timestamp chunks = record {
  id = id;
  author = user;
  timestamp = timestamp;
  chunks = chunks;
  hidden = none;
}

push_user : Text → Text → List Chunk → State → State
push_user id timestamp [] s = s
push_user id timestamp (c ∷ cs) s = record s {
  ui_messages = s.ui_messages ++ user_message id timestamp (c ∷ cs) ∷ [];
}

append_agent_chunks : Text → Text → List Chunk → State → State
append_agent_chunks id timestamp [] s = s
append_agent_chunks id timestamp (c ∷ cs) s = record s {
  agent_turn = some (extend_turn id timestamp (c ∷ cs) s.agent_turn);
}

abbrev pub call_name : ToolCall → Text
call_name call = value_or (filled call.name) (codes "tool")

-- `toolCall.id`, or one made of the message's and the chunk's position
unfoldable pub call_id : ℕ → ℕ → ToolCall → Text
call_id index position call =
    value_or (value_or (Option.map filled call.id) none)
      (codes "tool-" ++ decimal index ++ codes "-" ++ decimal position)

module _ (js : Runtime) (maps : Lookups) where
  -- the card of one tool call, under its id
  unfoldable pub tool_chunk : Text → Text → ToolCall → ToolExecutionChunk
  tool_chunk id name call =
      let args = parse_tool_args js call.args in
      let assembled = lookup id maps.tool_calls_by_id in
      let result = lookup id maps.tool_messages_by_id in
      let subagent = lookup id maps.subagents_by_call_id in
      record {
        tool_call_id = id;
        title = tool_title name args;
        tool_kind = tool_kind name;
        input = some args;
        status = elim subagent [
          | none ↦ tool_status assembled result
          | some snapshot ↦ subagent_status snapshot.status
        ];
        output = value_or (Option.map filled (tool_output_text js assembled result)) none;
        elapsed_ms = none;
        approval_request_id = none;
        diff_data =
            diff_from_artifact (value_or (Option.map (λ r. r.artifact) result) none)
            <|> maybe_diff_from_args args;
        diffs = none;
        locations = none;
        subagent_namespace = Option.map (λ snapshot. snapshot.namespace) subagent;
      }

  -- the loop over `raw.tool_calls`
  unfoldable pub push_calls : ℕ → List Chunk → List ToolCall → List Chunk
  unfolding tool_chunk call_id
  push_calls index chunks [] = chunks
  push_calls index chunks (call ∷ calls) =
      push_calls index
        (if has internal_tools (call_name call)
          then chunks
          else chunks
            ++ tool_execution
                (tool_chunk (call_id index (length chunks) call) (call_name call) call)
              ∷ [])
        calls

  unfoldable pub ai_chunks : ℕ → AiMessage → List Chunk
  unfolding push_calls
  ai_chunks index raw =
      push_calls index
        (push_filled (push_filled [] reasoning (reasoning_text raw.content_blocks)) text
          (trim raw.text))
        raw.tool_calls

  -- the callback of `messages.forEach`
  unfoldable pub read_message : ℕ → BaseMessage → State → State
  unfolding push_user append_agent_chunks
  read_message index raw s =
      let id = message_id index raw in
      let timestamp = message_timestamp js index raw in
      elim raw.body [
        | human m ↦ push_user id timestamp (human_chunks m) (flush_agent_turn s)
        | ai m ↦ append_agent_chunks id timestamp (ai_chunks index m) s
        | tool m ↦ s
        | other ↦ s
      ]

  unfoldable pub read_messages : ℕ → List BaseMessage → State → State
  unfolding read_message
  read_messages index [] s = s
  read_messages index (raw ∷ rest) s = read_messages (suc index) rest (read_message index raw s)

abbrev pub start : State
start = record { ui_messages = []; agent_turn = none }

unfoldable pub stream_messages_to_ui :
    Runtime → List BaseMessage → List AssembledToolCall → List Snapshot → List Message
unfolding read_messages lookups
stream_messages_to_ui js messages tool_calls subagents =
    (flush_agent_turn
      (read_messages js (lookups messages tool_calls subagents) zero messages start)).ui_messages
