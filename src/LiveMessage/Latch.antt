-- ===== src/LiveMessage/Latch.antt =====
-- What is shown as live in every state that the hook reaches.
use mobile_agent.Prelude.{Text, true, false, Option, none, some, ◌⊎◌, inl, inr, arith, ◌≡◌, refl}
use mobile_agent.Types.{user, agent, Message}
use mobile_agent.LiveMessage.{
  State, initial, last_message, latch, run_effect, fire, Step, changed, fired, Reach, start, next,
}

-- of the last message of an active run
abbrev pub IsShown : Option Message → Option Text → Type 0
IsShown none live = live ≡ none
IsShown (some m) live = (m.author ≡ user → live ≡ none) × (m.author ≡ agent → live ≡ some m.id)

abbrev pub IsLatched : State → Type 0
IsLatched s =
    (s.run_active ≡ true → (s.timer ≡ false) × IsShown s.last s.live_message_id)
    × (s.run_active ≡ false → (s.timer ≡ true) ⊎ (s.live_message_id ≡ none))

latch-IsShown : (m : Option Message) (prev : Option Text) → IsShown m (latch m prev)
unfolding latch
latch-IsShown none prev = refl
latch-IsShown (some m) prev = ((λ e. rw e refl), (λ e. rw e refl))

Step-IsLatched : {s t : State} → Step s t → IsLatched s → IsLatched t
unfolding run_effect fire
Step-IsLatched (changed s true messages) h = (
  (λ _. (refl, latch-IsShown (last_message messages) s.live_message_id)),
  λ e. absurd (ground arith),
)
Step-IsLatched (changed s false messages) h = ((λ e. absurd (ground arith)), λ _. inl refl)
Step-IsLatched (fired s e) (a, b) = ((λ k. absurd (contradiction (a k).0)), λ _. inr refl)
  where
    contradiction : s.timer ≡ false → ⊥
    contradiction f = ground arith

-- In every state that the hook reaches: while a run is active no timer is pending, so none can clear
-- the live message; that message is the last one if the agent wrote it, and none if the user wrote
-- it or there is no message. And while no run is active a timer is pending that clears it, or it is
-- cleared.
pub Reach-IsLatched : (s : State) → Reach s → IsLatched s
unfolding initial
Reach-IsLatched s r = go r
  where
    go : {t : State} → Reach t → IsLatched t
    go start = ((λ e. absurd (ground arith)), λ _. inr refl)
    go (next r st) = Step-IsLatched st (go r)
