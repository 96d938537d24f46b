-- ===== src/CloudPrompt/Stop.antt =====
-- components/agents/ported/CloudPromptBar.tsx: `handleStop`, the button that stops a run, and how it
-- meets `onCompleted`, which the end of a run calls, and the queue on the server. What the server does
-- is that of platform/dashboard_api/agent_dashboard/thread_api.py, in continue_dashboard_queued_messages
-- and clear_dashboard_queued_messages.
use mobile_agent.Prelude.{
  ℕ, ◌+◌, ◌-◌, ◌==◌, Text, Bool, true, false, Option, none, some, List, [], ◌∷◌, ◌++◌, any,
  if◌then◌else◌, ◌≡◌,
}
use mobile_agent.Types.{AgentThread, AgentStatus}
use mobile_agent.Submit.{on_completed, counted, continued, empty}
use mobile_agent.Submit.Delivery.{is_continue}

pub data StopEffect : Type 0 where
  clear_queued : Text → StopEffect
  stop_stream : StopEffect
  set_interrupted : Text → StopEffect
  invalidate_list : StopEffect
  announce_continued : Text → StopEffect

clear_effects : Option Text → List StopEffect
clear_effects none = []
clear_effects (some []) = []
clear_effects (some (c ∷ id)) = clear_queued (c ∷ id) ∷ []

-- what follows `stream.stop()`, when that succeeds
after_stop : Option Text → List StopEffect
after_stop none = []
after_stop (some []) = []
after_stop (some (c ∷ id)) =
    set_interrupted (c ∷ id) ∷ invalidate_list ∷ announce_continued (c ∷ id) ∷ []

-- `handleStop`: a failed clear is ignored, so its reply does not matter here; `stop_ok` says whether
-- `stream.stop()` succeeds. `stopping` is false again at the end.
unfoldable pub handle_stop : Bool → Option Text → Bool → List StopEffect
unfolding clear_effects after_stop
handle_stop stopping id stop_ok =
    if stopping
    then []
    else clear_effects id ++ stop_stream ∷ (if stop_ok then after_stop id else [])

-- the update of the cached detail
unfoldable pub interrupted_detail : Option AgentThread → Option AgentThread
interrupted_detail none = none
interrupted_detail (some prev) = some (record prev { status = AgentStatus.interrupted })

-- whether the button stops the run; otherwise it submits
unfoldable pub shows_stop : Bool → Bool → Bool
shows_stop is_loading can_submit =
    if is_loading then (if can_submit then false else true) else false

-- where a call of `onCompleted` is: it has asked for the count and the server has not answered, the
-- server's answer is on its way, it has asked the server to continue, or the server is at that, with
-- the messages that it has read from the queue
pub data Completion : Type 0 where
  counting : Completion
  answered : ℕ → Completion
  continuing : Completion
  serving : ℕ → Completion

-- one thread: its queue and its run on the server, how many runs the server has started from the
-- queue, what `handleStop` has still to do, whether a stop of the stream has succeeded, and the calls
-- of `onCompleted` that are under way
pub record World : Type 0 where
  pub queue : ℕ
  pub running : Bool
  pub runs : ℕ
  pub todo : List StopEffect
  pub stopped : Bool
  pub completions : List Completion

-- A clear that the server accepts empties the queue; a stop of the stream that succeeds ends the run.
unfoldable pub perform : StopEffect → World → World
perform (clear_queued id) w = record w { queue = 0 }
perform stop_stream w = record w { running = false; stopped = true }
perform _ w = w

-- what `onCompleted` does with a count
unfoldable pub after_reply : Text → ℕ → List Completion
after_reply id n =
    if any is_continue (on_completed (some id) (counted n) (continued empty))
    then continuing ∷ []
    else []

-- The server begins to continue the queue: it reads it, and there is nothing to do if it is empty.
unfoldable pub begin_continue : ℕ → List Completion
begin_continue queue = if queue == 0 then [] else serving queue ∷ []

-- the state after the first thing that is to be done
unfoldable pub after_first : List StopEffect → World → World
after_first [] w = w
after_first (e ∷ es) w = record (perform e w) { todo = es }

-- The steps of the handlers and of the server while the user sends nothing. A request is answered at
-- one moment, and its answer arrives at a later one; `onCompleted` may be called at any time, and
-- any number of its calls may be under way.
pub data Step (id : Text) : World → World → Type 0 where
  clicked_stop :
      {w : World} → w.todo ≡ [] → Step id w (record w { todo = handle_stop false (some id) true })
  performed :
      {w : World} (e : StopEffect) (es : List StopEffect)
      → w.todo ≡ e ∷ es
      → Step id w (record (perform e w) { todo = es })
  clear_failed :
      {w : World} (es : List StopEffect)
      → w.todo ≡ clear_queued id ∷ es
      → Step id w (record w { todo = es })
  stop_failed :
      {w : World} (es : List StopEffect)
      → w.todo ≡ stop_stream ∷ es
      → Step id w (record w { todo = [] })
  run_ended : {w : World} → Step id w (record w { running = false })
  messages_taken :
      {w : World} (n : ℕ) → w.running ≡ true → Step id w (record w { queue = w.queue - n })
  on_completed_called :
      {w : World} → Step id w (record w { completions = counting ∷ w.completions })
  count_answered :
      {w : World} (before after : List Completion)
      → w.completions ≡ before ++ counting ∷ after
      → Step id w (record w { completions = before ++ answered w.queue ∷ after })
  count_arrived :
      {w : World} (n : ℕ) (before after : List Completion)
      → w.completions ≡ before ++ answered n ∷ after
      → Step id w (record w { completions = before ++ after_reply id n ++ after })
  continue_begun :
      {w : World} (before after : List Completion)
      → w.completions ≡ before ++ continuing ∷ after
      → Step id w (record w { completions = before ++ begin_continue w.queue ++ after })
  -- no run is active: what was read goes to a run of its own
  run_started :
      {w : World} (n : ℕ) (before after : List Completion)
      → w.completions ≡ before ++ serving n ∷ after
      → Step id w
          (record w { queue = 0; running = true; runs = w.runs + 1; completions = before ++ after })
  -- a run is active: what was read is written back, marked for it
  directed_to_run :
      {w : World} (n : ℕ) (before after : List Completion)
      → w.completions ≡ before ++ serving n ∷ after
      → Step id w (record w { queue = n; completions = before ++ after })
  request_failed :
      {w : World} (c : Completion) (before after : List Completion)
      → w.completions ≡ before ++ c ∷ after
      → Step id w (record w { completions = before ++ after })

pub data Reach (id : Text) (w : World) : World → Type 0 where
  here : Reach id w w
  next : {u v : World} → Reach id w u → Step id u v → Reach id w v
