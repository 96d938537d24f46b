-- ===== src/Transcript/Sdk.antt =====
-- What the agent SDK hands over: `BaseMessage` of @langchain/core, with the values of its `text` and
-- `contentBlocks` getters, and `AssembledToolCall` and `SubagentDiscoverySnapshot` of
-- @langchain/react. The SDK is not part of the program; these records hold what the program reads.
use mobile_agent.Prelude.{ℕ, Text, Bool, Option, List}
use mobile_agent.Value.{Value}

-- `id` may be missing, `args` is whatever the model produced.
pub record ToolCall : Type 0 where
  pub name : Text
  pub args : Option Value
  pub id : Option Text

-- A standard content block: its type is "reasoning" or another, `reasoning` may be missing.
pub record ContentBlock : Type 0 where
  pub is_reasoning : Bool
  pub reasoning : Option Value

-- `content_blocks` is `none` where the getter throws.
pub record HumanMessage : Type 0 where
  pub text : Text
  pub content : Option Value

pub record AiMessage : Type 0 where
  pub text : Text
  pub content_blocks : Option (List ContentBlock)
  pub tool_calls : List ToolCall

pub record ToolMessage : Type 0 where
  pub tool_call_id : Option Text
  pub is_error : Bool
  pub text : Text
  pub artifact : Option Value

pub data Body : Type 0 where
  human : HumanMessage → Body
  ai : AiMessage → Body
  tool : ToolMessage → Body
  other : Body

pub record BaseMessage : Type 0 where
  pub id : Option Text
  pub created_at : Option Value
  pub response_metadata : Option Value
  pub body : Body

pub data AssembledStatus : Type 0 where
  running finished error : AssembledStatus

-- `output` is `none` for null and undefined.
pub record AssembledToolCall : Type 0 where
  pub id : Text
  pub call_id : Text
  pub status : AssembledStatus
  pub output : Option Value

pub data SnapshotStatus : Type 0 where
  running complete error : SnapshotStatus

pub record Snapshot : Type 0 where
  pub id : Text
  pub status : SnapshotStatus
  pub namespace : List Text

-- The JSON functions of the JavaScript engine and its clock: `JSON.parse` and `JSON.stringify`, `none`
-- where they throw, `String(v)`, and the time that `new Date().toISOString()` gives while the message
-- at an index is read. Nothing is assumed of them.
pub record Runtime : Type 0 where
  pub json_parse : Text → Option Value
  pub json_stringify : Value → Option Text
  pub to_string : Value → Text
  pub now : ℕ → Text
