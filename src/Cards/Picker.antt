-- ===== src/Cards/Picker.antt =====
-- components/agents/ported/ThreadPicker.tsx: the list of earlier threads, in groups by age, and its
-- keys. `none` is the index -1. Times are milliseconds, and no thread is newer than the clock.
use mobile_agent.Prelude.{
  ℕ, zero, ◌+◌, ◌-◌, ◌/◌, ◌==◌, ltb, Text, codes, is_empty, decimal, Bool, true, false, not, Option,
  none, some, List, [], ◌∷◌, ◌++◌, flat_map, filter, length, get_elem?, value_or, if◌then◌else◌,
}
use mobile_agent.Prelude.Maps.{Dict, lookup, insert}
use mobile_agent.Prelude.Sort.{sort}
use mobile_agent.Prelude.Strings.{has, includes, to_lower_case}
use mobile_agent.Types.{AgentThread, Author, user, agent, Message}
use mobile_agent.Threads.{newer, day}

group_of_days : ℕ → Text
group_of_days days =
    if days == 0
    then codes "Today"
    else if days == 1
    then codes "Yesterday"
    else if ltb days 7
    then decimal days ++ codes "d ago"
    else if ltb days 14
    then codes "1w ago"
    else decimal (days / 7) ++ codes "w ago"

unfoldable pub get_time_group : ℕ → ℕ → Text
unfolding group_of_days
get_time_group now timestamp = group_of_days ((now - timestamp) / day)

-- the loop
unfoldable pub add_to_groups :
    ℕ → List AgentThread → Dict (List AgentThread) → Dict (List AgentThread)
unfolding get_time_group
add_to_groups now [] groups = groups
add_to_groups now (thread ∷ threads) groups =
    let group = get_time_group now thread.updated_at in
    add_to_groups now threads
      (insert group (value_or (lookup group groups) [] ++ thread ∷ []) groups)

unfoldable pub group_threads_by_time : ℕ → List AgentThread → Dict (List AgentThread)
unfolding add_to_groups
group_threads_by_time now threads = add_to_groups now (sort newer threads) []

-- what the storage gives, without the threads that have a tab
unfoldable pub loaded_threads : List Text → List AgentThread → List AgentThread
loaded_threads active loaded =
    sort newer (filter (λ (t : AgentThread). not (has active t.id)) loaded)

unfoldable pub filtered : Text → List AgentThread → List AgentThread
filtered search threads =
    if is_empty search
    then threads
    else filter (λ (t : AgentThread). includes (to_lower_case t.title) (to_lower_case search))
        threads

unfoldable pub flat_list : ℕ → Text → List AgentThread → List AgentThread
unfolding group_threads_by_time filtered
flat_list now search threads =
    flat_map (λ e. e.1) (group_threads_by_time now (filtered search threads))

pub data Key : Type 0 where
  escape arrow_down arrow_up enter other_key : Key

pub data Outcome : Type 0 where
  moved : Option ℕ → Outcome
  closed : Outcome
  selected : Option AgentThread → Outcome
  passed : Outcome

-- `Math.min(prev + 1, length - 1)`
unfoldable pub below : Option ℕ → ℕ → Option ℕ
below prev zero = none
below none count = some 0
below (some i) count = some (if ltb (i + 1) (count - 1) then i + 1 else count - 1)

-- `Math.max(prev - 1, 0)`
unfoldable pub above : Option ℕ → Option ℕ
above none = some 0
above (some i) = some (i - 1)

at_index : List AgentThread → Option ℕ → Option AgentThread
at_index threads none = none
at_index threads (some i) = get_elem? threads i

unfoldable pub handle_key_down : List AgentThread → Option ℕ → Key → Outcome
unfolding below above at_index
handle_key_down threads selected_index escape = closed
handle_key_down threads selected_index arrow_down = moved (below selected_index (length threads))
handle_key_down threads selected_index arrow_up = moved (above selected_index)
handle_key_down threads selected_index enter =
    if ltb 0 (length threads) then selected (at_index threads selected_index) else passed
handle_key_down threads selected_index other_key = passed

author_counts : Author → Bool
author_counts user = true
author_counts agent = true
author_counts _ = false

unfoldable pub message_count : AgentThread → Text
unfolding author_counts
message_count thread =
    let count = length (filter (λ (m : Message). author_counts m.author) thread.messages) in
    decimal count ++ codes " msg" ++ (if count == 1 then [] else codes "s")
