-- ===== src/Threads.antt =====
-- lib/agents/api.ts and lib/agents/queries.ts: the list of threads in groups by age, the placeholder
-- of a thread that is being created, and the cache of the threads' details. Times are milliseconds
-- since the epoch, so a subtraction that stops at 0 excludes no thread.
pub mod Grouping
pub mod Created
pub mod Seeding
mod Tests
use mobile_agent.Prelude.{
  ℕ, ◌-◌, ◌*◌, Text, codes, text_eq, is_empty, filled, trim, Bool, Option, none, some, List, [],
  ◌∷◌, ◌++◌, map, ltb, leb, if◌then◌else◌, value_or, is_nil, any, take, get_elem?,
}
use mobile_agent.Prelude.Maps.{Dict, insert}
use mobile_agent.Prelude.Sort.{sort}
use mobile_agent.Prelude.Strings.{split}
use mobile_agent.Types.{
  AgentThread, AgentStatus, running, AgentSource, dashboard, user, Chunk, text, image, ImageChunk,
  Message,
}

pub record Groups : Type 0 where
  pub today : List AgentThread
  pub last7 : List AgentThread
  pub last30 : List AgentThread
  pub older : List AgentThread

-- `b.updatedAt - a.updatedAt` is negative
abbrev pub newer : AgentThread → AgentThread → Bool
newer a b = ltb b.updated_at a.updated_at

abbrev pub day : ℕ
day = 24 * 60 * 60 * 1000

-- `thread.updatedAt >= bound`
abbrev pub is_since : ℕ → AgentThread → Bool
is_since bound thread = leb bound thread.updated_at

-- the body of the loop
unfoldable pub add_thread : ℕ → ℕ → ℕ → Groups → AgentThread → Groups
add_thread today_start seven_days_ago thirty_days_ago g thread =
    if is_since today_start thread
    then record g { today = g.today ++ thread ∷ [] }
    else if is_since seven_days_ago thread
    then record g { last7 = g.last7 ++ thread ∷ [] }
    else if is_since thirty_days_ago thread
    then record g { last30 = g.last30 ++ thread ∷ [] }
    else record g { older = g.older ++ thread ∷ [] }

unfoldable pub add_threads : ℕ → ℕ → ℕ → Groups → List AgentThread → Groups
add_threads today_start seven_days_ago thirty_days_ago g [] = g
add_threads today_start seven_days_ago thirty_days_ago g (thread ∷ rest) =
    add_threads today_start seven_days_ago thirty_days_ago
      (add_thread today_start seven_days_ago thirty_days_ago g thread) rest

-- The local midnight and the two readings of the clock are arguments.
unfoldable pub group_threads : ℕ → ℕ → ℕ → List AgentThread → Groups
group_threads today_start now_7 now_30 threads =
    add_threads today_start (now_7 - 7 * day) (now_30 - 30 * day)
      (record { today = []; last7 = []; last30 = []; older = [] }) (sort newer threads)

pub record CreateAgentThreadVariables : Type 0 where
  pub prompt : Text
  pub images : Option (List ImageChunk)
  pub repo : Option Text
  pub repo_explicitly_none : Option Bool
  pub workspace_id : Option Text
  pub workspace_label : Option Text
  pub model_id : Option Text
  pub effort : Option Text

abbrev text_chunks : Text → List Chunk
text_chunks content = if is_empty content then [] else text content ∷ []

unfoldable pub optimistic_chunks : CreateAgentThreadVariables → List Chunk
optimistic_chunks vars = map image (value_or vars.images []) ++ text_chunks (trim vars.prompt)

-- `iso` is `new Date(now).toISOString()`
unfoldable pub optimistic_message : Text → Text → CreateAgentThreadVariables → Message
optimistic_message iso thread_id vars = record {
  id = codes "optimistic-user-" ++ thread_id;
  author = user;
  timestamp = iso;
  chunks = optimistic_chunks vars;
  hidden = none;
}

unfoldable pub optimistic_title : CreateAgentThreadVariables → Text
optimistic_title vars = value_or (filled (take 80 (trim vars.prompt))) (codes "New agent")

unfoldable pub optimistic_thread : ℕ → Text → Text → CreateAgentThreadVariables → AgentThread
optimistic_thread now iso thread_id vars = record {
  id = thread_id;
  title = optimistic_title vars;
  repo = value_or (get_elem? (split b'/' (value_or vars.repo [])) 1) [];
  repo_full_name = value_or vars.repo [];
  branch = codes "main";
  model = value_or vars.model_id (codes "Default");
  effort = vars.effort;
  source = some dashboard;
  status = running;
  error_message = none;
  viewed = Bool.true;
  viewed_at = some now;
  created_at = now;
  updated_at = now;
  trace_url = none;
  workspace_id = vars.workspace_id;
  workspace_label = vars.workspace_label;
  workspace_branch = none;
  messages =
      if is_nil (optimistic_chunks vars) then [] else optimistic_message iso thread_id vars ∷ [];
  pr = none;
  diff_stats = none;
  changed_files = none;
}

abbrev status_is_running : AgentStatus → Bool
status_is_running running = Bool.true
status_is_running _ = Bool.false

-- The interval of the list's query, where `none` stands for `false`.
unfoldable pub refetch_interval : Option (List AgentThread) → Option ℕ
refetch_interval none = none
refetch_interval (some threads) =
    if any (λ thread. status_is_running thread.status) threads then some 2000 else none

-- An entry of the cache of details: the thread and the time of its last update.
pub record Cached : Type 0 where
  pub thread : AgentThread
  pub updated_at : ℕ

-- the comparison with `activeThreadId`, which may be missing
abbrev pub is_active : Option Text → AgentThread → Bool
is_active none thread = Bool.false
is_active (some id) thread = text_eq thread.id id

-- The effect of `useSeedAgentThreadDetails`; a detail's key is told by the id of its thread.
unfoldable pub seed_details : Option Text → List AgentThread → Dict Cached → Dict Cached
seed_details active [] cache = cache
seed_details active (thread ∷ rest) cache = seed_details active rest (
    if is_active active thread
    then cache
    else insert thread.id (record { thread = thread; updated_at = 0 }) cache)
