-- ===== src/Threads/Created.antt =====
-- The placeholder of a thread that is being created.
use mobile_agent.Prelude.{
  ℕ, zero, suc, ◌≤◌, ◌<◌, Text, codes, filled, trim, ◌≡◌, refl, some, List, [], ◌∷◌, ◌++◌, take,
  length, arith, value_or,
}
use mobile_agent.Types.{AgentThread}
use mobile_agent.Threads.{
  CreateAgentThreadVariables, optimistic_title, optimistic_thread, refetch_interval,
}

length-take : (n : ℕ) (t : Text) → length (take n t) ≤ n
length-take zero t = omega arith
length-take (suc n) [] = omega arith
length-take (suc n) (c ∷ t) = omega (arith, length-take n t)

-- The placeholder's title has at least one and at most 80 units.
pub optimistic_title-bounds :
    (vars : CreateAgentThreadVariables)
    → (0 < length (optimistic_title vars)) × (length (optimistic_title vars) ≤ 80)
unfolding optimistic_title
optimistic_title-bounds vars = go (take 80 (trim vars.prompt)) (length-take 80 (trim vars.prompt))
  where
    go :
        (t : Text)
        → length t ≤ 80
        → (0 < length (value_or (filled t) (codes "New agent")))
          × (length (value_or (filled t) (codes "New agent")) ≤ 80)
    go [] h = (omega arith, omega arith)
    go (c ∷ t) h = (omega arith, h)

-- A list that holds the placeholder of a new thread is fetched again every two seconds.
pub refetch_interval-optimistic :
    (before after : List AgentThread) (now : ℕ) (iso id : Text) (vars : CreateAgentThreadVariables)
    → refetch_interval (some (before ++ optimistic_thread now iso id vars ∷ after)) ≡ some 2000
unfolding refetch_interval optimistic_thread
refetch_interval-optimistic [] after now iso id vars = refl
refetch_interval-optimistic (t ∷ before) after now iso id vars =
    ground (arith, refetch_interval-optimistic before after now iso id vars)
