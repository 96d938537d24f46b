-- ===== src/Chat/Tests.antt =====
-- A chat on concrete submissions.
use mobile_agent.Prelude.{codes, ◌≡◌, refl, ◌++◌, true, false, none, some, List, [], ◌∷◌}
use mathlib.Core.List.{Perm}
use mobile_agent.Types.{user, text, code_block}
use mobile_agent.Chat.{
  Session, Submission, State, Event, submitted, session_changed, queue_effect, scheduled, run,
  messages_to_chat_messages, user_role, plain,
}
use mobile_agent.Chat.Queue.{started, all_entered, run-IsKept_queue, rounds, run-rounds}

abbrev ready : Session
ready = record {
  id = codes "s";
  messages = [];
  is_compacting = false;
  is_streaming = false;
  busy = false;
}

abbrev streaming : Session
streaming = record ready { is_streaming = true }

abbrev submission : Submission
submission = record { query = codes "a"; images = [] }

abbrev state : State
state = record {
  session = some streaming;
  pending_images = [];
  queued_submissions = submission ∷ submission ∷ [];
  is_drag_over = false;
  drag_depth = 0;
}

abbrev events : List Event
events =
    submitted false (codes "b")
    ∷ queue_effect
    ∷ session_changed (some ready)
    ∷ queue_effect
    ∷ scheduled (codes "c")
    ∷ []

run-IsKept_queue_example :
    Perm
      (started (run state events).1 ++ (run state events).0.queued_submissions)
      (state.queued_submissions ++ all_entered state events)
run-IsKept_queue_example =
    run-IsKept_queue (codes "s") state events refl (tt, (tt, (refl, (tt, (tt, tt)))))

run-rounds_example :
    (started (run state (rounds (ready ∷ []))).1
        ++ (run state (rounds (ready ∷ []))).0.queued_submissions
      ≡ submission ∷ submission ∷ [])
    × (started (run state (rounds (ready ∷ []))).1 ≡ submission ∷ [])
run-rounds_example = run-rounds (codes "s") state (ready ∷ []) refl ((refl, refl), tt)

-- What is neither text nor code is left out where there is no image.
history :
    messages_to_chat_messages (
      record {
        id = codes "m";
        author = user;
        timestamp = [];
        chunks = text (codes "x") ∷ code_block (codes "y") none ∷ [];
        hidden = none;
      }
      ∷ [])
    ≡ record { role = user_role; content = plain (codes "x\n```\ny\n```\n") } ∷ []
unfolding messages_to_chat_messages
history = refl
