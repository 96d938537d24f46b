-- ===== src/Submit.antt =====
-- lib/agents/provider/useSubmitAgentMessage.ts and the end of a run in
-- lib/agents/AgentThreadStreamProvider.tsx. What a handler asks of the server and of the cache is the
-- list of its calls, in order; the replies are arguments.
pub mod Delivery
mod Tests
use mobile_agent.Prelude.{
  ℕ, ◌==◌, ltb, Text, codes, is_empty, filled, trim, Bool, true, false, not, ◌||◌, ◌&&◌, Option,
  none, some, List, [], ◌∷◌, ◌++◌, map, if◌then◌else◌, value_or,
}
use mobile_agent.Types.{ImageChunk, AgentThread, AgentStatus}

pub record SendAgentMessageVariables : Type 0 where
  pub content : Text
  pub images : Option (List ImageChunk)
  pub model_id : Option Text
  pub effort : Option Text

pub data Block : Type 0 where
  image_block : Text → Text → Option Text → Block
  text_block : Text → Block

filled_name : Option Text → Option Text
filled_name none = none
filled_name (some name) = filled name

image_of : ImageChunk → Block
unfolding filled_name
image_of image = image_block image.base64 image.mime_type (filled_name image.file_name)

unfoldable pub message_content : SendAgentMessageVariables → List Block
unfolding image_of
message_content vars =
    let content = trim vars.content in
    map image_of (value_or vars.images [])
    ++ (if is_empty content then [] else text_block content ∷ [])

pub record Config : Type 0 where
  pub agent_model_id : Text
  pub agent_effort : Text

unfoldable pub config_of : Option Text → Option Text → Option Config
config_of (some (c ∷ id)) (some (d ∷ effort)) =
    some (record { agent_model_id = c ∷ id; agent_effort = d ∷ effort })
config_of _ _ = none

-- `failed` is a rejected promise, with the status of an `AgentsApiError`
pub data Reply : Type 0 where
  ok : Reply
  failed : Option ℕ → Reply

pub data Call : Type 0 where
  queue_message : SendAgentMessageVariables → Call
  stream_submit : List Block → Option Config → Call

pub record QueuedMessage : Type 0 where
  pub content : Text
  pub images : List ImageChunk

pub data Result : Type 0 where
  sent : Bool → QueuedMessage → Result
  threw : Result

unfoldable pub queued_message : SendAgentMessageVariables → QueuedMessage
queued_message vars = record { content = vars.content; images = value_or vars.images [] }

unfoldable pub is_conflict : Option ℕ → Bool
is_conflict none = false
is_conflict (some status) = status == 409

unfoldable pub after_submit : Reply → SendAgentMessageVariables → Result
after_submit ok vars = sent false (queued_message vars)
after_submit (failed status) vars = threw

-- a run is started
unfoldable pub start_run : Reply → SendAgentMessageVariables → List Call × Result
unfolding after_submit message_content config_of
start_run reply vars = (
  stream_submit (message_content vars) (config_of vars.model_id vars.effort) ∷ [],
  after_submit reply vars,
)

-- the `catch` of the second `queue()`
unfoldable pub after_conflict :
    Bool → Option ℕ → Reply → SendAgentMessageVariables → List Call × Result
unfolding start_run is_conflict
after_conflict is_loading status submit vars =
    if is_loading
    then ([], threw)
    else if is_conflict status
    then start_run submit vars
    else ([], threw)

unfoldable pub after_queue : Bool → Reply → Reply → SendAgentMessageVariables → List Call × Result
unfolding after_conflict queued_message
after_queue is_loading ok submit vars = ([], sent true (queued_message vars))
after_queue is_loading (failed status) submit vars = after_conflict is_loading status submit vars

-- `mutationFn`: both branches begin with `queue()`.
unfoldable pub submit_message :
    Bool → Reply → Reply → SendAgentMessageVariables → List Call × Result
unfolding after_queue
submit_message is_loading queue submit vars =
    let (calls, result) = after_queue is_loading queue submit vars in
    (queue_message vars ∷ calls, result)

-- `onSuccess`, on the cached detail of the thread
unfoldable pub on_success : Option AgentThread → Option AgentThread
on_success none = none
on_success (some thread) = some (record thread { status = AgentStatus.running })

-- The effects of `onCompleted`.
pub data Effect : Type 0 where
  invalidate_list : Effect
  invalidate_detail get_queued continue_queued announce_continued : Text → Effect
  warn : Effect

-- `count`, or the rejection
pub data QueueReply : Type 0 where
  counted : ℕ → QueueReply
  failed : Option ℕ → QueueReply

-- `ContinueQueuedThreadPayload.status`: a run of their own was started, there was nothing to continue,
-- or the messages were directed to the run that is active
pub data ContinueStatus : Type 0 where
  started empty directed : ContinueStatus

unfoldable pub is_directed : ContinueStatus → Bool
is_directed started = false
is_directed empty = false
is_directed directed = true

-- the status, or the rejection
pub data ContinueReply : Type 0 where
  continued : ContinueStatus → ContinueReply
  failed : Option ℕ → ContinueReply

unfoldable pub warn_unless_conflict : Option ℕ → List Effect
unfolding is_conflict
warn_unless_conflict status = if is_conflict status then [] else warn ∷ []

unfoldable pub after_continue : Text → ContinueReply → List Effect
unfolding warn_unless_conflict is_directed
after_continue id (continued status) =
    (if is_directed status then [] else announce_continued id ∷ [])
    ++ invalidate_detail id ∷ invalidate_list ∷ []
after_continue id (failed status) = warn_unless_conflict status

unfoldable pub after_count : Text → QueueReply → ContinueReply → List Effect
unfolding after_continue warn_unless_conflict
after_count id (counted n) reply =
    if ltb 0 n then continue_queued id ∷ after_continue id reply else []
after_count id (failed status) reply = warn_unless_conflict status

-- `onCompleted`: `getQueuedMessages` is called before the list is invalidated, and what follows the
-- reply comes later. The id is the ref's at that time; an empty one counts as none.
unfoldable pub on_completed : Option Text → QueueReply → ContinueReply → List Effect
unfolding after_count
on_completed none queue reply = invalidate_list ∷ []
on_completed (some []) queue reply = invalidate_list ∷ []
on_completed (some (c ∷ id)) queue reply =
    invalidate_detail (c ∷ id)
    ∷ get_queued (c ∷ id)
    ∷ invalidate_list
    ∷ after_count (c ∷ id) queue reply
