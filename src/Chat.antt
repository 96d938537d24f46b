-- ===== src/Chat.antt =====
-- components/agents/ported/ChatView.tsx: a chat with its queue of submissions. The store of sessions,
-- the commands and the agent's process, which the repository lacks, are events and calls: a change of
-- the session is an event, and what a handler asks of them is the list of its calls.
pub mod Queue
mod Tests
use mobile_agent.Prelude.{
  ℕ, zero, suc, ◌-◌, ◌==◌, Text, codes, text_eq, is_empty, Bool, true, false, not, ◌||◌, ◌&&◌,
  Option, none, some, ◌<|>◌, List, [], ◌∷◌, ◌++◌, map, flat_map, any, filter, if◌then◌else◌,
  value_or, is_nil, get_elem?,
}
use mobile_agent.Prelude.Strings.{split}
use mobile_agent.Types.{
  Author, user, agent, system, tool, Message, Chunk, text, code_block, image, tool_execution,
  ImageChunk, ToolExecutionChunk, ToolStatus, pending,
}

pub data Role : Type 0 where
  user_role assistant_role : Role

pub data ContentBlock : Type 0 where
  image_url text_content : Text → ContentBlock

pub data ChatContent : Type 0 where
  plain : Text → ChatContent
  blocks : List ContentBlock → ChatContent

pub record ChatMessage : Type 0 where
  pub role : Role
  pub content : ChatContent

unfoldable pub data_url : ImageChunk → Text
data_url chunk = codes "data:" ++ chunk.mime_type ++ codes ";base64," ++ chunk.base64

-- three backquotes
fence : Text
fence = 96 ∷ 96 ∷ 96 ∷ []

code_fence : Option Text → Text → Text
unfolding fence
code_fence language content =
    10 ∷ fence ++ value_or language [] ++ 10 ∷ content ++ 10 ∷ fence ++ 10 ∷ []

block_of : Chunk → List ContentBlock
unfolding data_url code_fence
block_of (image chunk) = image_url (data_url chunk) ∷ []
block_of (text content) = text_content content ∷ []
block_of (code_block content language) = text_content (code_fence language content) ∷ []
block_of _ = []

text_of : Chunk → Text
unfolding code_fence
text_of (text content) = content
text_of (code_block content language) = code_fence language content
text_of _ = []

abbrev is_image : Chunk → Bool
is_image (image chunk) = true
is_image _ = false

with_blocks : Role → List ContentBlock → List ChatMessage
with_blocks role [] = []
with_blocks role (b ∷ bs) = record { role = role; content = blocks (b ∷ bs) } ∷ []

with_text : Role → Text → List ChatMessage
with_text role [] = []
with_text role (c ∷ s) = record { role = role; content = plain (c ∷ s) } ∷ []

unfoldable pub chat_message : Role → List Chunk → List ChatMessage
unfolding with_blocks with_text block_of text_of
chat_message role chunks =
    if any is_image chunks
    then with_blocks role (flat_map block_of chunks)
    else with_text role (flat_map text_of chunks)

role_of : Author → Option Role
role_of user = some user_role
role_of agent = some assistant_role
role_of system = none
role_of tool = none

message_as : Option Role → List Chunk → List ChatMessage
unfolding chat_message
message_as none chunks = []
message_as (some role) chunks = chat_message role chunks

unfoldable pub messages_to_chat_messages : List Message → List ChatMessage
unfolding message_as role_of
messages_to_chat_messages [] = []
messages_to_chat_messages (m ∷ messages) =
    message_as (role_of m.author) m.chunks ++ messages_to_chat_messages messages

status_is_pending : ToolStatus → Bool
status_is_pending pending = true
status_is_pending _ = false

requested : Option Text → Bool
requested none = false
requested (some []) = false
requested (some (c ∷ id)) = true

unfoldable pub pending_approval : Chunk → Option ToolExecutionChunk
unfolding status_is_pending requested
pending_approval (tool_execution chunk) =
    if status_is_pending chunk.status && requested chunk.approval_request_id
    then some chunk
    else none
pending_approval _ = none

-- The loops go from the end; so does this, where a later chunk comes first.
unfoldable pub latest_of_chunks : List Chunk → Option ToolExecutionChunk
unfolding pending_approval
latest_of_chunks [] = none
latest_of_chunks (chunk ∷ chunks) = latest_of_chunks chunks <|> pending_approval chunk

unfoldable pub find_latest_pending_approval : List Message → Option ToolExecutionChunk
unfolding latest_of_chunks
find_latest_pending_approval [] = none
find_latest_pending_approval (m ∷ messages) =
    find_latest_pending_approval messages <|> latest_of_chunks m.chunks

pub record Session : Type 0 where
  pub id : Text
  pub messages : List Message
  pub is_compacting : Bool
  pub is_streaming : Bool
  pub busy : Bool

pub record Submission : Type 0 where
  pub query : Text
  pub images : List ImageChunk

pub record State : Type 0 where
  pub session : Option Session
  pub pending_images : List ImageChunk
  pub queued_submissions : List Submission
  pub is_drag_over : Bool
  pub drag_depth : ℕ

pub data Call : Type 0 where
  start_run : Submission → List ChatMessage → Call
  cancel : Text → Call

history_entry : Submission → ChatMessage
unfolding data_url
history_entry s = record {
  role = user_role;
  content =
      if is_nil s.images
      then plain s.query
      else blocks (map (λ chunk. image_url (data_url chunk)) s.images ++ text_content s.query ∷ []);
}

-- what `window.agent.stream` is given
unfoldable pub chat_history : List Message → Submission → List ChatMessage
unfolding messages_to_chat_messages history_entry
chat_history messages s = messages_to_chat_messages messages ++ history_entry s ∷ []

-- the chunks of the message that is added to the session
unfoldable pub added_chunks : Submission → List Chunk
added_chunks s = map image s.images ++ text s.query ∷ []

unfoldable pub start_agent_run : Session → Submission → List Call
unfolding chat_history
start_agent_run session s = start_run s (chat_history session.messages s) ∷ []

abbrev pub is_busy : Session → Bool
is_busy session = session.is_compacting || session.is_streaming || session.busy

-- the effect on the queue
unfoldable pub drain_for : Option Session → List Submission → State → State × List Call
unfolding start_agent_run
drain_for none queue s = (s, [])
drain_for (some session) [] s = (s, [])
drain_for (some session) (first ∷ rest) s =
    if is_busy session
    then (s, [])
    else (record s { queued_submissions = rest }, start_agent_run session first)

unfoldable pub drain_queue : State → State × List Call
unfolding drain_for
drain_queue s = drain_for s.session s.queued_submissions s

-- the effect on a scheduled prompt, which is taken from the store
unfoldable pub scheduled_for : Option Session → Text → State → State × List Call
unfolding start_agent_run
scheduled_for none prompt s = (s, [])
scheduled_for (some session) prompt s =
    if is_busy session
    then (s, [])
    else (s, start_agent_run session (record { query = prompt; images = [] }))

-- `handleSubmit`, for what is no command
unfoldable pub submit_for : Option Session → Text → State → State × List Call
unfolding start_agent_run
submit_for none query s = (s, [])
submit_for (some session) query s =
    if session.is_compacting
    then (s, [])
    else if session.is_streaming || session.busy
    then (
      record s {
        pending_images = [];
        queued_submissions =
            s.queued_submissions ++ record { query = query; images = s.pending_images } ∷ [];
      },
      cancel session.id ∷ [],
    )
    else (
      record s { pending_images = [] },
      start_agent_run session (record { query = query; images = s.pending_images }),
    )

unfoldable pub handle_submit : Bool → Text → State → State × List Call
unfolding submit_for
handle_submit command_executed query s =
    if command_executed then (s, []) else submit_for s.session query s

unfoldable pub remove_at : ℕ → List ImageChunk → List ImageChunk
remove_at index [] = []
remove_at zero (chunk ∷ chunks) = chunks
remove_at (suc index) (chunk ∷ chunks) = chunk ∷ remove_at index chunks

unfoldable pub same_session : Option Session → Option Session → Bool
same_session none none = true
same_session (some a) (some b) = text_eq a.id b.id
same_session _ _ = false

-- a change of the store, and the effect on the session's id
unfoldable pub change_session : Option Session → State → State
unfolding same_session
change_session session s =
    if same_session s.session session
    then record s { session = session }
    else record s { session = session; queued_submissions = [] }

-- `submitted` says whether its text was executed as a command; `image_loaded` is a reader's end.
pub data Event : Type 0 where
  session_changed : Option Session → Event
  queue_effect : Event
  scheduled : Text → Event
  submitted : Bool → Text → Event
  image_loaded : ImageChunk → Event
  image_removed : ℕ → Event
  drag_enter drag_over drag_leave dropped : Bool → Event

unfoldable pub step : State → Event → State × List Call
unfolding change_session drain_queue scheduled_for handle_submit remove_at
step s (session_changed session) = (change_session session s, [])
step s queue_effect = drain_queue s
step s (scheduled prompt) = scheduled_for s.session prompt s
step s (submitted command_executed query) = handle_submit command_executed query s
step s (image_loaded chunk) = (record s { pending_images = s.pending_images ++ chunk ∷ [] }, [])
step s (image_removed index) = (record s { pending_images = remove_at index s.pending_images }, [])
step s (drag_enter has_files) =
    if has_files
    then (record s { drag_depth = suc s.drag_depth; is_drag_over = true }, [])
    else (s, [])
step s (drag_over has_files) = if has_files then (record s { is_drag_over = true }, []) else (s, [])
step s (drag_leave has_files) =
    if has_files
    then (
      record s {
        drag_depth = s.drag_depth - 1;
        is_drag_over = not (s.drag_depth - 1 == 0) && s.is_drag_over;
      },
      [],
    )
    else (s, [])
step s (dropped has_files) =
    if has_files then (record s { drag_depth = 0; is_drag_over = false }, []) else (s, [])

unfoldable pub run : State → List Event → State × List Call
unfolding step
run s [] = (s, [])
run s (event ∷ events) =
    let (next, calls) = step s event in let (end, rest) = run next events in (end, calls ++ rest)
