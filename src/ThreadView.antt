-- ===== src/ThreadView.antt =====
-- components/agents/AgentThreadView.tsx: what an open thread shows beside its transcript, and the
-- handlers of its queue, of directed follow-ups, of approvals and of retries. Effects on the server
-- enter as the replies that the handlers get.
pub mod Run
pub mod Laws
pub mod RunLaws
mod Tests
pub mod Direct
use mobile_agent.Prelude.{
  ℕ, zero, suc, Text, codes, text_eq, is_empty, filled, trim, Bool, true, false, not, ◌&&◌, ◌||◌,
  Option, none, some, is_some, is_none, value_or, ◌<|>◌, List, [], ◌∷◌, ◌++◌, map, filter, find?,
  any, is_nil, length, ◌==◌, if◌then◌else◌,
}
use mobile_agent.Prelude.Strings.{has, join}
use mobile_agent.Types.{
  Author, user, Chunk, text, Message, AgentStatus, running, interrupted, error, AgentThread,
}

pub record QueuedFollowUp : Type 0 where
  pub id : Text
  pub text : Text
  pub image_count : ℕ

-- `QueuedThreadMessage` of lib/agents/api.ts
pub record QueuedThreadMessage : Type 0 where
  pub id : Text
  pub text : Text
  pub image_count : ℕ
  pub has_images : Bool

-- The state hooks of the view.
pub record View : Type 0 where
  pub queued_follow_ups : List QueuedFollowUp
  pub directed_optimistic : List Message
  pub resolved_interrupt_id : Option Text

texts_of : List Chunk → List Text
texts_of [] = []
texts_of (text t ∷ cs) = t ∷ texts_of cs
texts_of (_ ∷ cs) = texts_of cs

unfoldable pub user_message_text : Message → Text
unfolding texts_of
user_message_text message = trim (join [] (texts_of message.chunks))

abbrev pub author_is_user : Author → Bool
author_is_user user = true
author_is_user _ = false

abbrev is_filled : Text → Bool
is_filled t = not (is_empty t)

abbrev pub ids_of : List Message → List Text
ids_of messages = map (λ m. m.id) messages

-- the texts of the user's messages that are not empty
unfoldable pub user_texts : List Message → List Text
user_texts messages =
    filter is_filled (map user_message_text (filter (λ m. author_is_user m.author) messages))

-- A directed message that `messages` does not show yet, by its id and by its text.
abbrev pub is_pending : List Message → Message → Bool
is_pending messages m =
    not (has (ids_of messages) m.id) && not (has (user_texts messages) (user_message_text m))

-- `live` if it has messages, else the messages that the thread was seeded with
abbrev pub base_of : List Message → List Message → List Message
base_of live seeded =
    if not (is_nil live) then live else if not (is_nil seeded) then seeded else live

unfoldable pub base_messages : List Message → List Message → List Message → List Message
base_messages live seeded directed =
    let base = base_of live seeded in
    let pending = filter (is_pending base) directed in
    if is_nil directed then base else if is_nil pending then base else base ++ pending

-- The effect on `stream.messages`: it sets the same list again where nothing goes.
unfoldable pub prune_directed : List Message → List Message → List Message
prune_directed live current =
    let next = filter (is_pending live) current in
    if is_nil current then current else if length next == length current then current else next

-- `!followUp.text || !committedUserTexts.has(followUp.text)`
abbrev pub stays_queued : List Text → QueuedFollowUp → Bool
stays_queued committed f = is_empty f.text || not (has committed f.text)

-- The effect on `baseMessages`.
unfoldable pub prune_queued : List Message → List QueuedFollowUp → List QueuedFollowUp
prune_queued base current =
    let committed = user_texts base in
    let next = filter (stays_queued committed) current in
    if is_nil committed then current else if length next == length current then current else next

abbrev pub follow_up_of : QueuedThreadMessage → QueuedFollowUp
follow_up_of m = record { id = m.id; text = trim m.text; image_count = m.image_count }

abbrev pub follow_ups_of : List QueuedThreadMessage → List QueuedFollowUp
follow_ups_of = map follow_up_of

-- The effect on a change of the thread, before its queue is loaded.
unfoldable pub open_thread : View → View
open_thread v = record v { directed_optimistic = []; resolved_interrupt_id = none }

-- `loadQueuedFollowUps` and `refreshQueuedFollowUps`: a reply is `none` where the request failed.
unfoldable pub load_queued : Bool → Option (List QueuedThreadMessage) → View → View
load_queued cancelled none v = v
load_queued cancelled (some queued) v =
    if cancelled then v else record v { queued_follow_ups = follow_ups_of queued }

-- `handleQueuedContinuation`, the listener of "agent-thread-queued-continued"
unfoldable pub queued_continuation : Text → Option Text → View → View
queued_continuation thread_id none v = v
queued_continuation thread_id (some id) v =
    if text_eq id thread_id then record v { queued_follow_ups = [] } else v

-- `handleClearQueuedFollowUps`; `false` where the request throws
unfoldable pub clear_queued : Bool → View → View
clear_queued replied v = if replied then record v { queued_follow_ups = [] } else v

-- `handleDiscardQueuedFollowUp`
unfoldable pub discard_queued : Option (List QueuedThreadMessage) → View → View
discard_queued none v = v
discard_queued (some left) v = record v { queued_follow_ups = follow_ups_of left }

abbrev pub id_is : Text → QueuedFollowUp → Bool
id_is id f = text_eq f.id id

abbrev pub without : Text → List Message → List Message
without id messages = filter (λ m. not (text_eq m.id id)) messages

-- The bubble of a directed follow-up; the time is the clock's.
abbrev pub bubble : Text → Text → Text → Message
bubble id timestamp content = record {
  id = id;
  author = user;
  timestamp = timestamp;
  chunks = text content ∷ [];
  hidden = none;
}

-- Whether the view shows directed messages that the transcript does not.
abbrev pub has_pending : List Message → List Message → View → Bool
has_pending live seeded v = any (is_pending (base_of live seeded)) v.directed_optimistic

-- `baseMessages` and its effect when the list of directed messages is set anew, from the view `v` to
-- the view `w`: it is another list where the live transcript has messages, which are gathered again,
-- and where a directed message was or is added to it; otherwise the effect does not run.
unfoldable pub on_directed_set : List Message → List Message → View → View → View
on_directed_set live seeded v w =
    if not (is_nil live) || has_pending live seeded v || has_pending live seeded w
    then record w {
      queued_follow_ups =
          prune_queued (base_messages live seeded w.directed_optimistic) w.queued_follow_ups;
    }
    else w

-- The bubble of a follow-up that was found and has a text.
unfoldable pub show_bubble :
    List Message → List Message → Text → Text → Option QueuedFollowUp → View → View
unfolding on_directed_set
show_bubble live seeded now id none v = v
show_bubble live seeded now id (some f) v =
    if is_empty f.text
    then v
    else on_directed_set live seeded v (record v {
      directed_optimistic = without id v.directed_optimistic ++ bubble id now f.text ∷ [];
    })

-- `handleDirectQueuedFollowUp` up to its request, with the effect that runs while that is awaited
unfoldable pub show_directed : List Message → List Message → Text → Text → View → View
unfolding show_bubble
show_directed live seeded now id v =
    show_bubble live seeded now id (find? (id_is id) v.queued_follow_ups) v

pub data DirectStatus : Type 0 where
  started empty directed : DirectStatus

-- What the request gives, and what the reload after it gives where there is one. A failure has the
-- status of an `AgentsApiError`, or none.
pub data DirectReply : Type 0 where
  replied : DirectStatus → List QueuedThreadMessage → DirectReply
  failed : Option ℕ → DirectReply

pub data ReloadReply : Type 0 where
  reloaded : List QueuedThreadMessage → ReloadReply
  failed : Option ℕ → ReloadReply

-- `error instanceof AgentsApiError && error.status === 409`
abbrev pub is_conflict : Option ℕ → Bool
is_conflict none = false
is_conflict (some status) = status == 409

-- the `catch`: roll back, and throw again unless the server answered 409
unfoldable pub roll_back : List Message → List Message → Text → Option ℕ → View → View × Bool
unfolding on_directed_set
roll_back live seeded id status v = (
  on_directed_set live seeded v
      (record v { directed_optimistic = without id v.directed_optimistic }),
  not (is_conflict status),
)

reload_after : List Message → List Message → Text → ReloadReply → View → View × Bool
reload_after live seeded id (reloaded queued) v =
    (record v { queued_follow_ups = follow_ups_of queued }, false)
reload_after live seeded id (ReloadReply.failed status) v = roll_back live seeded id status v

abbrev pub other_ids : Text → List QueuedThreadMessage → List QueuedThreadMessage
other_ids id queued = filter (λ m. not (text_eq m.id id)) queued

unfoldable pub after_direct :
    List Message → List Message → Text → DirectReply → ReloadReply → View → View × Bool
unfolding reload_after
after_direct live seeded id (replied directed queued) reload v =
    (record v { queued_follow_ups = follow_ups_of (other_ids id queued) }, false)
after_direct live seeded id (replied started queued) reload v = reload_after live seeded id reload v
after_direct live seeded id (replied empty queued) reload v = reload_after live seeded id reload v
after_direct live seeded id (DirectReply.failed status) reload v = roll_back live seeded id status v

-- `handleDirectQueuedFollowUp`: the view after it, and whether it throws. The transcript is as it is
-- while the request is awaited.
unfoldable pub direct_queued :
    List Message → List Message → Text → Text → DirectReply → ReloadReply → View → View × Bool
direct_queued live seeded now id reply reload v =
    after_direct live seeded id reply reload (show_directed live seeded now id v)
