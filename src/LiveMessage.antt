-- ===== src/LiveMessage.antt =====
-- lib/agents/provider/useLiveMarkdownMessageId.ts: which message of the agent is drawn as it streams.
-- The effect of the hook runs when its dependencies change, after the cleanup of the run before; the
-- timer that it sets may fire at any time. What an effect saw last is kept in the state.
pub mod Latch
mod Tests
use mobile_agent.Prelude.{
  Text, Bool, true, false, Option, none, some, List, [], ◌∷◌, if◌then◌else◌, ◌≡◌,
}
use mobile_agent.Types.{Author, user, agent, system, tool, Message}

pub record State : Type 0 where
  pub live_message_id : Option Text
  pub timer : Bool
  pub mounted : Bool
  pub run_active : Bool
  pub last : Option Message

unfoldable pub initial : State
initial = record {
  live_message_id = none;
  timer = false;
  mounted = false;
  run_active = false;
  last = none;
}

-- `visibleMessages[visibleMessages.length - 1]`
unfoldable pub last_message : List Message → Option Message
last_message [] = none
last_message (m ∷ []) = some m
last_message (m ∷ n ∷ ms) = last_message (n ∷ ms)

-- a message of another author leaves what is shown
latched : Author → Text → Option Text → Option Text
latched user id prev = none
latched agent id prev = some id
latched system id prev = prev
latched tool id prev = prev

unfoldable pub latch : Option Message → Option Text → Option Text
unfolding latched
latch none prev = none
latch (some m) prev = latched m.author m.id prev

-- The cleanup, and an active run, clear the timer; an idle one sets it.
unfoldable pub run_effect : Bool → List Message → State → State
unfolding latch last_message
run_effect true messages s = record {
  live_message_id = latch (last_message messages) s.live_message_id;
  timer = false;
  mounted = true;
  run_active = true;
  last = last_message messages;
}
run_effect false messages s = record {
  live_message_id = s.live_message_id;
  timer = true;
  mounted = true;
  run_active = false;
  last = last_message messages;
}

unfoldable pub fire : State → State
fire s = record s { timer = false; live_message_id = none }

pub data Step : State → State → Type 0 where
  changed :
      (s : State) (run_active : Bool) (messages : List Message)
      → Step s (run_effect run_active messages s)
  fired : (s : State) → s.timer ≡ true → Step s (fire s)

pub data Reach : State → Type 0 where
  start : Reach initial
  next : {s t : State} → Reach s → Step s t → Reach t
