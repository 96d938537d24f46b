-- ===== src/Sidebar/Scope.antt =====
-- Which threads the sidebar lists.
use mobile_agent.Prelude.{ℕ, ◌≡◌, refl, Text, Option, none, List, filter, length}
use mobile_agent.Types.{AgentThread}
use mathlib.Core.List.{Perm}
use mobile_agent.Threads.Grouping.{listed, group_threads-sorted}
use mobile_agent.Sidebar.{in_scope, visible_threads, thread_count, sidebar_groups}

-- The four groups together list exactly the threads of the chosen workspace, and without one those of
-- no workspace, of which there are as many as the count beside "Chats corrientes" says.
pub sidebar_groups-scope :
    (today_start now_7 now_30 : ℕ) (selected : Option Text) (threads : List AgentThread)
    → Perm
        (listed (sidebar_groups today_start now_7 now_30 selected threads))
        (filter (in_scope selected) threads)
      × (length (filter (in_scope none) threads) ≡ thread_count threads)
unfolding sidebar_groups visible_threads thread_count in_scope
sidebar_groups-scope today_start now_7 now_30 selected threads =
    ((group_threads-sorted today_start now_7 now_30 (filter (in_scope selected) threads)).0, refl)
