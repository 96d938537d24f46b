-- ===== src/LiveMessage/Tests.antt =====
-- A run that ends, on concrete messages.
use mobile_agent.Prelude.{codes, true, false, none, List, [], ◌∷◌, refl}
use mobile_agent.Types.{agent, Message}
use mobile_agent.LiveMessage.{initial, run_effect, fire, changed, fired, start, next}
use mobile_agent.LiveMessage.Latch.{IsLatched, Reach-IsLatched}

abbrev reply : List Message
reply =
    record { id = codes "m"; author = agent; timestamp = codes "now"; chunks = []; hidden = none }
    ∷ []

Reach-IsLatched_example : IsLatched (fire (run_effect false reply (run_effect true reply initial)))
unfolding run_effect
Reach-IsLatched_example =
    Reach-IsLatched (fire (run_effect false reply (run_effect true reply initial))) (
      next
        (next (next start (changed initial true reply))
          (changed (run_effect true reply initial) false reply))
        (fired (run_effect false reply (run_effect true reply initial)) refl))
