-- ===== src/CloudPrompt/Quelled.antt =====
-- A stop quells the queue, whatever is on its way between `onCompleted` and the server.
use mobile_agent.Prelude.{ℕ, Bool, true, false, any, ◌≡◌}
use mobile_agent.CloudPrompt.Stop.{Completion, serving, World}

abbrev pub is_serving : Completion → Bool
is_serving (serving n) = true
is_serving _ = false

-- the queue is empty and nothing that was read from it is kept, no run was started from it, and once
-- the stream is stopped no run goes on
abbrev pub IsQuelled : ℕ → World → Type 0
IsQuelled runs w =
    (w.queue ≡ 0)
    × (any is_serving w.completions ≡ false)
    × (w.runs ≡ runs)
    × (w.stopped ≡ true → w.running ≡ false)
