-- ===== src/ThreadView/Run.antt =====
-- components/agents/AgentThreadView.tsx: the state of the run, as the view derives it on each render,
-- and the handlers that start a run again: retry and approval.
use mobile_agent.Prelude.{
  ℕ, zero, suc, Text, codes, text_eq, is_empty, Bool, true, false, not, ◌&&◌, ◌||◌, Option, none,
  some, List, [], ◌∷◌, ◌==◌, if◌then◌else◌, is_nil,
}
use mobile_agent.Types.{AgentStatus, running, interrupted, error, Message, AgentThread}
use mobile_agent.ThreadView.{author_is_user, user_message_text}

-- `stream.error`: an Error with its message, a string, or another value, truthy or not.
pub data StreamError : Type 0 where
  error_object : Text → StreamError
  string : Text → StreamError
  other : Bool → StreamError

-- `Boolean(streamError)`
abbrev pub is_truthy : StreamError → Bool
is_truthy (error_object message) = true
is_truthy (string s) = not (is_empty s)
is_truthy (other b) = b

abbrev status_is_running : AgentStatus → Bool
status_is_running running = true
status_is_running _ = false

abbrev status_is_interrupted : AgentStatus → Bool
status_is_interrupted interrupted = true
status_is_interrupted _ = false

abbrev status_is_error : AgentStatus → Bool
status_is_error error = true
status_is_error _ = false

unfoldable pub is_streaming : AgentThread → Bool → Bool
is_streaming thread is_loading = status_is_running thread.status || is_loading

unfoldable pub run_stopped : AgentThread → Bool → Bool
run_stopped thread is_loading =
    not (is_streaming thread is_loading) && status_is_interrupted thread.status

abbrev pub default_error : Text
default_error = codes "El modelo o el sandbox fallaron. Revisa la traza o reintenta."

error_text : AgentThread → StreamError → Text
error_text thread (error_object message) = message
error_text thread (string []) = default_error
error_text thread (string (c ∷ s)) = c ∷ s
error_text thread (other b) = default_error

-- `thread.errorMessage ? … : …`
banner_text : AgentThread → StreamError → Option Text → Text
unfolding error_text
banner_text thread failure none = error_text thread failure
banner_text thread failure (some []) = error_text thread failure
banner_text thread failure (some (c ∷ message)) = c ∷ message

-- the text of the banner: `none` where it is null
unfoldable pub run_error : AgentThread → Bool → StreamError → Option Text
unfolding banner_text
run_error thread is_loading failure =
    if not (is_streaming thread is_loading)
      && not (run_stopped thread is_loading)
      && (is_truthy failure || status_is_error thread.status)
    then some (banner_text thread failure thread.error_message)
    else none

unfoldable pub setting_up_sandbox : Bool → List Message → Bool
setting_up_sandbox is_loading base = is_loading && is_nil base

unfoldable pub is_hydrating : Bool → List Message → Bool
is_hydrating is_thread_loading base = is_thread_loading && is_nil base

-- The text of the last of the user's messages, found on the way to the end; the source walks from
-- the end and stops at the first of them.
unfoldable pub last_text : Text → List Message → Text
last_text found [] = found
last_text found (m ∷ rest) =
    last_text (if author_is_user m.author then user_message_text m else found) rest

unfoldable pub last_user_text : List Message → Text
last_user_text base = last_text [] base

-- `handleRetry`: the content that it sends, if it sends any
unfoldable pub retry : List Message → Bool → Bool → Option Text
retry base streaming pending =
    if is_empty (last_user_text base) || streaming || pending
    then none
    else some (last_user_text base)

pub data Decision : Type 0 where
  approve reject : Decision

-- `showApproval`: `null` for an id that is missing, on both sides
abbrev pub same_id : Option Text → Option Text → Bool
same_id none none = true
same_id (some a) (some b) = text_eq a b
same_id _ _ = false

-- the number of actions of the interrupt, its id, and the id resolved last
unfoldable pub show_approval : ℕ → Option Text → Option Text → Bool
show_approval actions current resolved = not (actions == 0) && not (same_id current resolved)

unfoldable pub repeat_decision : ℕ → Decision → List Decision
repeat_decision zero d = []
repeat_decision (suc n) d = d ∷ repeat_decision n d

-- `handleApproval`: the interrupt id that is resolved then, and the decisions that are sent
unfoldable pub handle_approval : ℕ → Option Text → Decision → Option Text × List Decision
unfolding repeat_decision
handle_approval actions current d =
    (current, repeat_decision (if actions == 0 then 1 else actions) d)
