-- ===== src/Types.antt =====
-- lib/agents/types.ts: the chunks of a message, messages, and threads, as the dashboard keeps them.
-- A field that may be absent or null is an `Option`.
use mobile_agent.Prelude.{ℕ, Text, Bool, Option, List}
use mobile_agent.Value.{Number, Fields}

pub data Author : Type 0 where
  user agent system tool : Author

pub data TodoStatus : Type 0 where
  pending in_progress completed : TodoStatus

pub data AgentStatus : Type 0 where
  idle running finished interrupted error : AgentStatus

pub data AgentSource : Type 0 where
  dashboard github slack linear schedule : AgentSource

pub record TodoItem : Type 0 where
  pub content : Text
  pub status : TodoStatus

-- `AcpToolKind`
pub data ToolKind : Type 0 where
  read edit delete move search_tool execute think fetch slack linear task other : ToolKind

-- `AcpToolStatus`
pub data ToolStatus : Type 0 where
  pending in_progress completed error : ToolStatus

-- `AcpToolLocation`
pub record ToolLocation : Type 0 where
  pub path : Text
  pub line : Option ℕ

pub record DiffData : Type 0 where
  pub original_content : Option Text
  pub new_content : Text
  pub file_path : Text
  pub is_new_file : Bool
  pub is_binary : Bool
  pub is_truncated : Bool
  pub total_lines : Number

pub record ToolExecutionChunk : Type 0 where
  pub tool_call_id : Text
  pub title : Text
  pub tool_kind : ToolKind
  pub input : Option Fields
  pub status : ToolStatus
  pub output : Option Text
  pub elapsed_ms : Option Number
  pub approval_request_id : Option Text
  pub diff_data : Option DiffData
  pub diffs : Option (List DiffData)
  pub locations : Option (List ToolLocation)
  pub subagent_namespace : Option (List Text)

pub record ImageChunk : Type 0 where
  pub base64 : Text
  pub mime_type : Text
  pub file_name : Option Text

pub data Chunk : Type 0 where
  text : Text → Chunk
  reasoning : Text → Chunk
  code_block : Text → Option Text → Chunk
  error_text : Text → Chunk
  lines : List Text → Chunk
  tool_execution : ToolExecutionChunk → Chunk
  todo : List TodoItem → Chunk
  image : ImageChunk → Chunk

pub record Message : Type 0 where
  pub id : Text
  pub author : Author
  pub timestamp : Text
  pub chunks : List Chunk
  pub hidden : Option Bool

pub data PrState : Type 0 where
  draft open_pr merged closed : PrState

pub record PullRequest : Type 0 where
  pub number : ℕ
  pub title : Text
  pub state : PrState
  pub head_ref : Text
  pub base_ref : Text
  pub url : Text

pub record DiffStats : Type 0 where
  pub files : ℕ
  pub additions : ℕ
  pub deletions : ℕ

pub record ChangedFile : Type 0 where
  pub path : Text
  pub additions : ℕ
  pub deletions : ℕ
  pub patch : Option Text

-- Times are milliseconds since the epoch.
pub record AgentThread : Type 0 where
  pub id : Text
  pub title : Text
  pub repo : Text
  pub repo_full_name : Text
  pub branch : Text
  pub model : Text
  pub effort : Option Text
  pub source : Option AgentSource
  pub status : AgentStatus
  pub error_message : Option Text
  pub viewed : Bool
  pub viewed_at : Option ℕ
  pub created_at : ℕ
  pub updated_at : ℕ
  pub trace_url : Option Text
  pub workspace_id : Option Text
  pub workspace_label : Option Text
  pub workspace_branch : Option Text
  pub messages : List Message
  pub pr : Option PullRequest
  pub diff_stats : Option DiffStats
  pub changed_files : Option (List ChangedFile)
