-- ===== src/Threads/Tests.antt =====
-- The theorems on the list of threads, at concrete threads.
use mathlib.Core.List.{Perm}
use mobile_agent.Prelude.{
  ℕ, ◌-◌, ◌*◌, Text, codes, ◌≡◌, refl, none, some, List, [], ◌∷◌, map, filter,
}
use mobile_agent.Prelude.Sort.{sort, insert_sorted, IsOrdered}
use mobile_agent.Types.{AgentThread}
use mobile_agent.Threads.{
  newer, day, add_thread, add_threads, group_threads, CreateAgentThreadVariables, optimistic_thread,
}
use mobile_agent.Threads.Grouping.{
  listed, is_at, InWindows, group_threads-sorted, group_threads-InWindows,
}

abbrev wish : CreateAgentThreadVariables
wish = record {
  prompt = codes " fix the build ";
  images = none;
  repo = some (codes "acme/app");
  repo_explicitly_none = none;
  workspace_id = none;
  workspace_label = none;
  model_id = none;
  effort = none;
}

abbrev thread_at : Text → ℕ → AgentThread
thread_at id at = record (optimistic_thread at (codes "t") id wish) { updated_at = at }

abbrev now : ℕ
now = 100 * day

abbrev threads : List AgentThread
threads =
    thread_at (codes "old") (10 * day)
    ∷ thread_at (codes "new") (100 * day)
    ∷ thread_at (codes "week") (95 * day)
    ∷ thread_at (codes "new2") (100 * day)
    ∷ thread_at (codes "month") (80 * day)
    ∷ []

abbrev ids : List AgentThread → List Text
ids ts = map (λ t. t.id) ts

group_threads_run :
    (ids (group_threads now now now threads).today ≡ codes "new" ∷ codes "new2" ∷ [])
    × (ids (group_threads now now now threads).last7 ≡ codes "week" ∷ [])
    × (ids (group_threads now now now threads).last30 ≡ codes "month" ∷ [])
    × (ids (group_threads now now now threads).older ≡ codes "old" ∷ [])
unfolding group_threads add_threads add_thread sort insert_sorted optimistic_thread
group_threads_run = (refl, refl, refl, refl)

group_threads-sorted_example :
    Perm (listed (group_threads now now now threads)) threads
    × IsOrdered newer (listed (group_threads now now now threads))
    × ((at : ℕ)
        → filter (is_at at) (listed (group_threads now now now threads))
          ≡ filter (is_at at) threads)
group_threads-sorted_example = group_threads-sorted now now now threads

group_threads-InWindows_example :
    InWindows now (now - 7 * day) (now - 30 * day) (group_threads now now now threads)
group_threads-InWindows_example = group_threads-InWindows now now now threads
